-- ===== src/Controller/Tests/Markets.antt =====
-- Runs of the controller's messages on a small storage, for logics/impls/controller/mod.rs.
use starlay_protocol_wasm.Prelude.{
  ℕ, ◌≡◌, refl, arith, false, some, none, [], ◌∷◌, ◌*◌, ◌^◌, insert, err,
}
use starlay_protocol_wasm.Prelude.Lists.{mem}
use starlay_protocol_wasm.Controller.Errors.{caller_is_not_manager}
use starlay_protocol_wasm.Controller.Markets.{
  State, is_listed, assert_manager, list_market, store_collateral_factor, reset_borrow_cap,
  announce, set_price_oracle, support_market_with_collateral_factor_mantissa,
}
use starlay_protocol_wasm.Controller.Markets.Calls.{Call, run, History}
use starlay_protocol_wasm.Controller.Markets.Deployment.{default, new, deployed-WellFormed}
use starlay_protocol_wasm.Controller.Markets.Laws.{WellFormed, run_refuses}

-- The controller as made, after its manager has set the oracle.
abbrev pub start : State
start = record {
  controller = record {
    markets = [];
    markets_pair = λ u. none;
    collateral_factor_mantissa = λ p. none;
    mint_guardian_paused = λ p. none;
    borrow_guardian_paused = λ p. none;
    seize_guardian_paused = false;
    transfer_guardian_paused = false;
    oracle = some 3;
    close_factor_mantissa = 0;
    liquidation_incentive_mantissa = 0;
    borrow_caps = λ p. none;
    manager = some 1;
    flashloan_gateway = none;
  };
  listed = [];
}

abbrev factor : ℕ
factor = 8 * 10 ^ 17

-- Pool 10 of underlying 20, listed with its collateral factor.
abbrev pub one_market : State
one_market = record {
  controller = record start.controller {
    markets = 10 ∷ [];
    markets_pair = insert (λ u. none) 20 10;
    collateral_factor_mantissa = insert (λ p. none) 10 factor;
    mint_guardian_paused = insert (λ p. none) 10 false;
    borrow_guardian_paused = insert (λ p. none) 10 false;
    borrow_caps = insert (λ p. none) 10 0;
  };
  listed = 10 ∷ [];
}

abbrev listing : Call
listing = Call.support_market_with_collateral_factor_mantissa 10 20 factor

pub list-History : History (new 1) one_market
unfolding run support_market_with_collateral_factor_mantissa assert_manager list_market is_listed
    mem store_collateral_factor reset_borrow_cap announce set_price_oracle new default
list-History =
    History.called (λ o p. some 100) 1 listing
      (History.called {t = new 1} {u = start} (λ o p. none) 1 (Call.set_price_oracle 3) History.here
        refl)
      refl

deployed-WellFormed_example : WellFormed one_market.controller
deployed-WellFormed_example = deployed-WellFormed 1 one_market list-History

run_refuses_example : run (λ o p. some 100) 2 listing start ≡ err caller_is_not_manager
run_refuses_example =
    run_refuses (λ o p. some 100) 2 1 listing start refl (λ e. absurd (omega arith))

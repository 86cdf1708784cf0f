-- ===== src/Pool/Tests/Deployment.antt =====
-- A pool made by its constructor that makes a first loan, for contracts/pool/lib.rs.
use starlay_protocol_wasm.Prelude.{◌≡◌, refl, none, some, [], ◌∷◌, insert, ok}
use starlay_protocol_wasm.Words.{add128, as_u128}
use starlay_protocol_wasm.Math.Exp.{exp_scale, to_ray}
use starlay_protocol_wasm.Math.WadRay.{ray_div, ray_mul}
use starlay_protocol_wasm.Pool.State.{State, Event}
use starlay_protocol_wasm.Pool.Calls.{Call, run, History}
use starlay_protocol_wasm.Pool.Scaled.{scaled_amount_of, from_scaled_amount}
use starlay_protocol_wasm.Pool.Exchange.{exchange_rate}
use starlay_protocol_wasm.Pool.Views.{
  using_reserve_as_collateral, get_account_snapshot, exchange_rate_stored, pool_attributes,
  get_cash_prior, borrow_balance_stored, total_borrows, total_reserves,
}
use starlay_protocol_wasm.Pool.Accrual.{
  accrue_interest, accrue_interest_at, accrue_reward, assert_fresh, transfer_underlying,
}
use starlay_protocol_wasm.Pool.Lending.{consent_to_borrow, borrow_inner, borrow, increase_debt}
use starlay_protocol_wasm.Pool.Deployment.{
  Arguments, default, check_accounts, fresh, initialize, new, new_from_asset,
}
use starlay_protocol_wasm.Pool.Deployment.Laws.{Standing, Made, deployed-Standing}
use starlay_protocol_wasm.Pool.Tests.World.{Book, lib, contracts, ctx}

abbrev pub arguments : Arguments
arguments = record {
  incentives_controller = none;
  underlying = 20;
  controller = 30;
  rate_model = 40;
  initial_exchange_rate_mantissa = exp_scale;
  liquidation_threshold = 8000;
}

abbrev pub no_tokens : Book
no_tokens = record { total = 0; balances = λ u. 0 }

-- The pool as made.
abbrev pub made : State lib contracts
made = record {
  pool = record {
    underlying = some 20;
    controller = some 30;
    manager = some 5;
    incentives_controller = none;
    rate_model = some 40;
    borrows_scaled = 0;
    reserves_scaled = 0;
    account_borrows = λ u. none;
    accrual_block_timestamp = 2000;
    borrow_index = exp_scale;
    initial_exchange_rate_mantissa = exp_scale;
    reserve_factor_mantissa = 0;
    liquidation_threshold = 8000;
    delegate_allowance = λ o d. none;
    using_reserve_as_collateral = λ u. none;
  };
  token = no_tokens;
  name = some "Starlay Token";
  symbol = some "sTKN";
  decimals = 6;
  world = tt;
  events = [];
}

made_by_new :
    new lib contracts no_tokens tt ctx {E = Unit {0}} arguments "Starlay Token" "sTKN" 6 ≡ ok made
unfolding new check_accounts initialize fresh default
made_by_new = refl

made_from_asset : Made lib contracts no_tokens tt ctx arguments made
unfolding new_from_asset check_accounts initialize fresh default
made_from_asset = Made.from_asset (λ u. some "Token") (λ u. some "TKN") (λ u. 6) refl

-- Account 5 borrows 200.
abbrev pub lent : State lib contracts
lent = record made {
  pool = record made.pool {
    account_borrows = insert made.pool.account_borrows 5 200;
    borrows_scaled = 200;
  };
  events = Event.borrow 5 200 200 200 ∷ [];
}

loan-History : History lib contracts made lent
unfolding run borrow accrue_interest accrue_interest_at borrow_inner consent_to_borrow accrue_reward
    get_account_snapshot using_reserve_as_collateral exchange_rate_stored exchange_rate
    pool_attributes assert_fresh get_cash_prior transfer_underlying borrow_balance_stored
    total_borrows total_reserves increase_debt scaled_amount_of from_scaled_amount to_ray ray_div
    ray_mul as_u128 add128
loan-History = History.called ctx (Call.borrow 200) History.here refl

deployed-Standing_example : Standing arguments 5 lent.pool
deployed-Standing_example =
    deployed-Standing lib contracts no_tokens tt ctx arguments made lent made_from_asset
      loan-History

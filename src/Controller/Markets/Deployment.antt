-- ===== src/Controller/Markets/Deployment.antt =====
-- The storage a controller starts with: `Default` of logics/impls/controller/mod.rs and the
-- constructor of contracts/controller/lib.rs.
use starlay_protocol_wasm.Prelude.{ℕ, refl, arith, false, some, none, []}
use starlay_protocol_wasm.Prelude.Lists.{mem, distinct}
use starlay_protocol_wasm.Controller.Markets.{Data, State}
use starlay_protocol_wasm.Controller.Markets.Calls.{History}
use starlay_protocol_wasm.Controller.Markets.Laws.{WellFormed, History-WellFormed}

unfoldable pub default : Data
default = record {
  markets = [];
  markets_pair = λ u. none;
  collateral_factor_mantissa = λ p. none;
  mint_guardian_paused = λ p. none;
  borrow_guardian_paused = λ p. none;
  seize_guardian_paused = false;
  transfer_guardian_paused = false;
  oracle = none;
  close_factor_mantissa = 0;
  liquidation_incentive_mantissa = 0;
  borrow_caps = λ p. none;
  manager = none;
  flashloan_gateway = none;
}

unfoldable pub new : (manager : ℕ) → State
new manager = record { controller = record default { manager = some manager }; listed = [] }

new-WellFormed : (manager : ℕ) → WellFormed (new manager).controller
unfolding new default distinct mem
new-WellFormed manager = record {
  once = refl;
  mint_flag = λ p l e. ground arith;
  borrow_flag = λ p l e. ground arith;
  paired = λ u p e. ground arith;
  bounded = λ p f e. ground arith;
}

-- After the constructor has made a controller and any history of messages has followed, no market is
-- listed twice, every listed market has its two pause flags, the pool of an underlying is listed, and every
-- collateral factor is positive and within the maximum.
pub deployed-WellFormed :
    (manager : ℕ) (t : State) → History (new manager) t → WellFormed t.controller
deployed-WellFormed manager t h = History-WellFormed (new manager) t h (new-WellFormed manager)

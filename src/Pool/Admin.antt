-- ===== src/Pool/Admin.antt =====
-- The pool's settings, logics/impls/pool/mod.rs and contracts/pool/lib.rs.
use starlay_protocol_wasm.Prelude.{ℕ, some, ltb}
use starlay_protocol_wasm.Prelude.Actions.{throw, throw_if, ◌>>◌}
use starlay_protocol_wasm.Pool.Errors.{not_implemented, set_reserve_factor_bounds_check}
use starlay_protocol_wasm.Pool.Environment.{TokenLibrary, Contracts, Context}
use starlay_protocol_wasm.Pool.State.{Message, update}
use starlay_protocol_wasm.Pool.Accrual.{accrue_interest, assert_fresh}
use starlay_protocol_wasm.Pool.Interest.{reserve_factor_max_mantissa}
use starlay_protocol_wasm.Pool.Reserves.{assert_manager}

module _ (lib : TokenLibrary) (contracts : Contracts lib.Psp22Error) (ctx : Context) where
  -- `set_controller`, the default of the trait.
  unfoldable pub set_controller : (new_controller : ℕ) → Message lib contracts (Unit {0})
  set_controller new_controller = do
    assert_manager lib contracts ctx
    update lib contracts λ d. record d { controller = some new_controller }

  -- `set_reserve_factor_mantissa` and `_set_reserve_factor_mantissa`
  unfoldable pub set_reserve_factor_mantissa : ℕ → Message lib contracts (Unit {0})
  set_reserve_factor_mantissa new_reserve_factor = do
    assert_manager lib contracts ctx
    accrue_interest lib contracts ctx
    assert_fresh lib contracts ctx
    throw_if (ltb reserve_factor_max_mantissa new_reserve_factor) set_reserve_factor_bounds_check
    update lib contracts λ d. record d { reserve_factor_mantissa = new_reserve_factor }

  -- `set_interest_rate_model`, the default of the trait.
  unfoldable pub set_interest_rate_model : (new_model : ℕ) → Message lib contracts (Unit {0})
  set_interest_rate_model new_model = do
    assert_manager lib contracts ctx
    assert_fresh lib contracts ctx
    update lib contracts λ d. record d { rate_model = some new_model }

  unfoldable pub set_liquidation_threshold : ℕ → Message lib contracts (Unit {0})
  set_liquidation_threshold new_threshold =
      update lib contracts λ d. record d { liquidation_threshold = new_threshold }

  unfoldable pub set_incentives_controller : ℕ → Message lib contracts (Unit {0})
  set_incentives_controller incentives_controller = do
    assert_manager lib contracts ctx
    update lib contracts λ d. record d { incentives_controller = some incentives_controller }

  -- The contract answers `set_controller`, `add_reserves` and `set_interest_rate_model` so.
  unfoldable pub refused_by_contract : Message lib contracts (Unit {0})
  refused_by_contract = throw not_implemented

-- ===== src/Pool/Collateral.antt =====
-- The collateral flag of an account, logics/impls/pool/mod.rs.
use starlay_protocol_wasm.Prelude.{ℕ, Bool, not, xor, ◌||◌, ◌==◌, if◌then◌else◌, insert}
use starlay_protocol_wasm.Prelude.Actions.{throw_if, ok_or_throw, view, gets, when, ◌>>=◌, ◌>>◌}
use starlay_protocol_wasm.Pool.Errors.{psp22, controller_is_not_set}
use starlay_protocol_wasm.Pool.Environment.{TokenLibrary, Contracts, Context}
use starlay_protocol_wasm.Pool.State.{Event, Message, update, emit, ask_controller}
use starlay_protocol_wasm.Pool.Views.{
  using_reserve_as_collateral, get_account_snapshot, pool_attributes,
}

module _ (lib : TokenLibrary) (contracts : Contracts lib.Psp22Error) (ctx : Context) where
  -- `_set_use_reserve_as_collateral`
  unfoldable pub set_collateral_flag :
      (user : ℕ) (use_as_collateral : Bool) → Message lib contracts (Unit {0})
  set_collateral_flag user use_as_collateral = do
    current ← gets (λ s. using_reserve_as_collateral s.pool user)
    when (xor current use_as_collateral) (do
      update lib contracts λ d. record d {
        using_reserve_as_collateral = insert d.using_reserve_as_collateral user use_as_collateral;
      }
      emit lib contracts (
          if use_as_collateral
          then Event.reserve_used_as_collateral_enabled user
          else Event.reserve_used_as_collateral_disabled user))

  -- `_validate_set_use_reserve_as_collateral`
  unfoldable pub validate_collateral_flag :
      (user : ℕ) (use_as_collateral : Bool) → Message lib contracts (Unit {0})
  validate_collateral_flag user use_as_collateral = do
    current ← gets (λ s. using_reserve_as_collateral s.pool user)
    when (not (use_as_collateral || not current)) (do
      (account_balance, account_borrow_balance, rate) ←
          view (λ s. get_account_snapshot lib contracts ctx s user)
      throw_if (account_balance == 0) (psp22 lib.insufficient_balance)
      controller ← ok_or_throw (← gets (λ s. s.pool.controller)) controller_is_not_set
      attributes ←
          view
            (λ s. pool_attributes lib contracts ctx s account_balance account_borrow_balance rate)
      ask_controller lib contracts
          (λ w. contracts.balance_decrease_allowed w controller attributes user account_balance))

  -- The message `set_use_reserve_as_collateral`
  unfoldable pub set_use_reserve_as_collateral :
      (use_as_collateral : Bool) → Message lib contracts (Unit {0})
  set_use_reserve_as_collateral use_as_collateral = do
    validate_collateral_flag ctx.caller use_as_collateral
    set_collateral_flag ctx.caller use_as_collateral

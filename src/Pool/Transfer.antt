-- ===== src/Pool/Transfer.antt =====
-- Transfers of pool tokens, logics/impls/pool/mod.rs and contracts/pool/lib.rs.
use Prim.Native.String.{String}
use starlay_protocol_wasm.Prelude.{ℕ, true, false, not, some, ltb, ◌==◌, map_err, Outcome}
use starlay_protocol_wasm.Prelude.Actions.{
  throw_if, ok_or_throw, lift, view, gets, when, ◌>>=◌, ◌>>◌,
}
use starlay_protocol_wasm.Words.{sub128}
use starlay_protocol_wasm.Math.Exp.{exp}
use starlay_protocol_wasm.Pool.Errors.{psp22}
use starlay_protocol_wasm.Pool.Environment.{TokenLibrary, Contracts, Context}
use starlay_protocol_wasm.Pool.State.{Message, on_token}
use starlay_protocol_wasm.Pool.Views.{
  principal_balance_of, exchange_rate_stored, get_account_snapshot, pool_attributes,
}
use starlay_protocol_wasm.Pool.Scaled.{from_scaled_amount}
use starlay_protocol_wasm.Pool.Accrual.{accrue_reward}
use starlay_protocol_wasm.Pool.Collateral.{set_collateral_flag}
use starlay_protocol_wasm.Controller.Errors.{
  Error as ControllerError, mint_is_paused, borrow_is_paused, seize_is_paused, transfer_is_paused,
  market_not_listed, market_already_listed, controller_mismatch, price_error, too_much_repay,
  borrow_cap_reached, insufficient_liquidity, insufficient_shortfall, caller_is_not_manager,
  invalid_collateral_factor, underlying_is_not_set, pool_is_not_set, manager_is_not_set,
  oracle_is_not_set, balance_decrease_not_allowed,
}

-- The text of a controller error in the token library's error type, `From<controller::Error> for
-- PSP22Error` of logics/impls/pool/mod.rs.
unfoldable pub error_text : ControllerError → String
error_text mint_is_paused = "MintIsPaused"
error_text borrow_is_paused = "BorrowIsPaused"
error_text seize_is_paused = "SeizeIsPaused"
error_text transfer_is_paused = "TransferIsPaused"
error_text market_not_listed = "MarketNotListed"
error_text market_already_listed = "MarketAlreadyListed"
error_text controller_mismatch = "ControllerMismatch"
error_text price_error = "PriceError"
error_text too_much_repay = "TooMuchRepay"
error_text borrow_cap_reached = "BorrowCapReached"
error_text insufficient_liquidity = "InsufficientLiquidity"
error_text insufficient_shortfall = "InsufficientShortfall"
error_text caller_is_not_manager = "CallerIsNotManager"
error_text invalid_collateral_factor = "InvalidCollateralFactor"
error_text underlying_is_not_set = "UnderlyingIsNotSet"
error_text pool_is_not_set = "PoolIsNotSet"
error_text manager_is_not_set = "ManagerIsNotSet"
error_text oracle_is_not_set = "OracleIsNotSet"
error_text balance_decrease_not_allowed = "BalanceDecreaseNotAllowed"

module _ (lib : TokenLibrary) (contracts : Contracts lib.Psp22Error) (ctx : Context) where
  -- `_accrue_reward` under a transfer: any error becomes the token library's own.
  unfoldable pub accrue_reward_or_fail : ℕ → Message lib contracts (Unit {0})
  accrue_reward_or_fail user s = elim (accrue_reward lib contracts ctx user s) [
    | Outcome.ok r ↦ Outcome.ok r
    | Outcome.err e ↦ Outcome.err (psp22 (lib.custom "AccrueRewardFailed"))
    | Outcome.panic ↦ Outcome.panic
  ]

  -- The checks of `_transfer_tokens`; the result is the number of pool tokens to move.
  unfoldable pub check_transfer : (src dst value : ℕ) → Message lib contracts ℕ
  check_transfer src dst value = do
    (account_balance, account_borrow_balance, rate) ←
        view (λ s. get_account_snapshot lib contracts ctx s src)
    attributes ←
        view (λ s. pool_attributes lib contracts ctx s account_balance account_borrow_balance rate)
    controller ←
        ok_or_throw (← gets (λ s. s.pool.controller)) (psp22 (lib.custom "ControllerIsNotSet"))
    view (λ s.
        map_err (λ e. psp22 (lib.custom (error_text e)))
          (contracts.transfer_allowed s.world controller ctx.account_id src dst value
            (some attributes)))
    throw_if (src == dst) (psp22 (lib.custom "TransferNotAllowed"))
    rate' ← view (exchange_rate_stored lib contracts ctx)
    lift (from_scaled_amount value (exp rate'))

  -- `_transfer_tokens`
  unfoldable pub transfer_tokens : (spender src dst value : ℕ) → Message lib contracts (Unit {0})
  transfer_tokens spender src dst value = do
    accrue_reward_or_fail src
    accrue_reward_or_fail dst
    amount ← check_transfer src dst value
    when (not (spender == src)) (do
      allowance ← gets (λ s. lib.allowance s.token src spender)
      throw_if (ltb allowance amount) (psp22 lib.insufficient_allowance)
      on_token lib contracts (lib.approve_from_to src spender (sub128 allowance amount)))
    on_token lib contracts (lib.transfer_from_to src dst amount)
    lp_balance ← gets (λ s. principal_balance_of lib contracts ctx s src)
    when (lp_balance == 0) (set_collateral_flag lib contracts ctx src false)
    set_collateral_flag lib contracts ctx dst true

  -- `PSP22::transfer` and `PSP22::transfer_from` of the contract.
  unfoldable pub transfer : (receiver value : ℕ) → Message lib contracts (Unit {0})
  transfer receiver value = transfer_tokens ctx.caller ctx.caller receiver value

  unfoldable pub transfer_from : (sender receiver value : ℕ) → Message lib contracts (Unit {0})
  transfer_from sender receiver value = transfer_tokens ctx.caller sender receiver value

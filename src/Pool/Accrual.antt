-- ===== src/Pool/Accrual.antt =====
-- Interest accrual, rewards and movements of the underlying token: the helpers of
-- logics/impls/pool/mod.rs that every message begins or ends with.
pub mod Laws
use starlay_protocol_wasm.Prelude.{ℕ, not, none, some, ◌==◌}
use starlay_protocol_wasm.Prelude.Actions.{pure, throw_if, ok_or_throw, view, gets, when, ◌>>=◌}
use starlay_protocol_wasm.Pool.Errors.{
  psp22, accrual_block_number_is_not_fresh, underlying_is_not_set, accrue_reward_failed,
}
use starlay_protocol_wasm.Pool.Environment.{TokenLibrary, Contracts, Context}
use starlay_protocol_wasm.Pool.State.{Message, update, on_world}
use starlay_protocol_wasm.Pool.Views.{
  total_borrows, borrow_balance_stored, principal_balance_of, principal_total_supply,
  get_interest_at,
}

module _ (lib : TokenLibrary) (contracts : Contracts lib.Psp22Error) (ctx : Context) where
  -- `_accrue_interest_at`
  unfoldable pub accrue_interest_at : ℕ → Message lib contracts (Unit {0})
  accrue_interest_at at = do
    accrual ← gets (λ s. s.pool.accrual_block_timestamp)
    when (not (accrual == at)) (do
      out ← view (λ s. get_interest_at lib contracts ctx s at)
      update lib contracts
          λ d. record d { accrual_block_timestamp = at; borrow_index = out.borrow_index })

  unfoldable pub accrue_interest : Message lib contracts (Unit {0})
  accrue_interest = accrue_interest_at ctx.block_timestamp

  -- The incentives controller is told of the user's balances before they change.
  unfoldable pub accrue_reward : ℕ → Message lib contracts (Unit {0})
  accrue_reward user = do
    controller ← gets (λ s. s.pool.incentives_controller)
    elim controller [
      | none ↦ pure tt
      | some ic ↦ do
        borrows ← view (λ s. total_borrows s.pool)
        borrowed ← view (λ s. borrow_balance_stored s.pool user)
        supply ← gets (principal_total_supply lib contracts ctx)
        balance ← gets (λ s. principal_balance_of lib contracts ctx s user)
        on_world lib contracts (λ _. accrue_reward_failed)
            (contracts.handle_action ic user supply borrows balance borrowed)
    ]

  -- `if self._accrual_block_timestamp() != current_timestamp { return Err(…) }`
  unfoldable pub assert_fresh : Message lib contracts (Unit {0})
  assert_fresh = do
    accrued ← gets (λ s. s.pool.accrual_block_timestamp)
    throw_if (not (accrued == ctx.block_timestamp)) accrual_block_number_is_not_fresh

  unfoldable pub transfer_underlying_from :
      (sender receiver value : ℕ) → Message lib contracts (Unit {0})
  transfer_underlying_from sender receiver value = do
    token ← ok_or_throw (← gets (λ s. s.pool.underlying)) underlying_is_not_set
    on_world lib contracts psp22
        (contracts.token_transfer_from token ctx.account_id sender receiver value)

  unfoldable pub transfer_underlying : (receiver value : ℕ) → Message lib contracts (Unit {0})
  transfer_underlying receiver value = do
    token ← ok_or_throw (← gets (λ s. s.pool.underlying)) underlying_is_not_set
    on_world lib contracts psp22 (contracts.token_transfer token ctx.account_id receiver value)

-- ===== src/Pool/Delegation.antt =====
-- Allowances to borrow on another's account, logics/impls/pool/mod.rs.
use starlay_protocol_wasm.Prelude.{ℕ, ltb, ◌==◌, if◌then◌else◌, insert}
use starlay_protocol_wasm.Prelude.Actions.{throw_if, gets, ◌>>=◌, ◌>>◌}
use starlay_protocol_wasm.Words.{add128, sub128}
use starlay_protocol_wasm.Pool.Errors.{
  zero_owner_address, zero_delegatee_address, insufficient_delegate_allowance,
}
use starlay_protocol_wasm.Pool.Environment.{TokenLibrary, Contracts, Context}
use starlay_protocol_wasm.Pool.State.{Event, Message, update, emit}
use starlay_protocol_wasm.Pool.Views.{delegate_allowance}

module _ (lib : TokenLibrary) (contracts : Contracts lib.Psp22Error) (ctx : Context) where
  -- `_approve_delegate`
  unfoldable pub approve_delegate_inner :
      (owner delegatee amount : ℕ) → Message lib contracts (Unit {0})
  approve_delegate_inner owner delegatee amount = do
    throw_if (owner == 0) zero_owner_address
    throw_if (delegatee == 0) zero_delegatee_address
    update lib contracts λ d. record d {
      delegate_allowance = λ o.
          if o == owner
          then insert (d.delegate_allowance o) delegatee amount
          else d.delegate_allowance o;
    }
    emit lib contracts (Event.delegate_approval owner delegatee amount)

  unfoldable pub approve_delegate : (delegatee amount : ℕ) → Message lib contracts (Unit {0})
  approve_delegate delegatee amount = approve_delegate_inner ctx.caller delegatee amount

  unfoldable pub increase_delegate_allowance :
      (owner delegatee amount : ℕ) → Message lib contracts (Unit {0})
  increase_delegate_allowance owner delegatee amount = do
    allowance ← gets (λ s. delegate_allowance s.pool owner delegatee)
    approve_delegate_inner owner delegatee (add128 allowance amount)

  unfoldable pub decrease_delegate_allowance :
      (owner delegatee amount : ℕ) → Message lib contracts (Unit {0})
  decrease_delegate_allowance owner delegatee amount = do
    allowance ← gets (λ s. delegate_allowance s.pool owner delegatee)
    throw_if (ltb allowance amount) insufficient_delegate_allowance
    approve_delegate_inner owner delegatee (sub128 allowance amount)

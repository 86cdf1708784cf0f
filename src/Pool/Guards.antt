-- ===== src/Pool/Guards.antt =====
-- Whom a pool lets raise an allowance to borrow on the account of another,
-- logics/impls/pool/mod.rs.
use starlay_protocol_wasm.Prelude.{ℕ, ◌≡◌, ◌≢◌, arith, ◌∷◌, if◌then◌else◌, insert, ok, ◌==◌}
use starlay_protocol_wasm.Words.{add128}
use starlay_protocol_wasm.Pool.Environment.{TokenLibrary, Contracts, Context}
use starlay_protocol_wasm.Pool.State.{State, Event}
use starlay_protocol_wasm.Pool.Views.{delegate_allowance}
use starlay_protocol_wasm.Pool.Delegation.{approve_delegate_inner, increase_delegate_allowance}

module _ (lib : TokenLibrary) (contracts : Contracts lib.Psp22Error) (ctx : Context) where
  -- For an owner and a delegatee other than the zero account, `increase_delegate_allowance` succeeds whoever
  -- calls: it does not ask. It raises the allowance that the owner has given by the amount, modulo 2^128.
  pub increase_delegate_allowance_any_caller :
      (s : State lib contracts) (owner delegatee amount : ℕ)
      → owner ≢ 0
      → delegatee ≢ 0
      → (t : State lib contracts) × (increase_delegate_allowance lib contracts ctx owner delegatee
            amount s
          ≡ ok (tt, t))
        × (delegate_allowance t.pool owner delegatee
            ≡ add128 (delegate_allowance s.pool owner delegatee) amount)
  unfolding increase_delegate_allowance approve_delegate_inner delegate_allowance
  increase_delegate_allowance_any_caller s owner delegatee amount o d =
      let raised = add128 (delegate_allowance s.pool owner delegatee) amount in
      (
        record s {
          pool = record s.pool {
            delegate_allowance = λ x.
                if x == owner
                then insert (s.pool.delegate_allowance x) delegatee raised
                else s.pool.delegate_allowance x;
          };
          events = Event.delegate_approval owner delegatee raised ∷ s.events;
        },
        ground arith,
        ground arith,
      )

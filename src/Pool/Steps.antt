-- ===== src/Pool/Steps.antt =====
-- The actions of a pool as steps between its storages: a relation on `Data` holds of a message when it
-- holds of each of its writes.
pub mod Writes
pub mod Lending
pub mod Liquidation
pub mod Admin
pub mod Messages
use starlay_protocol_wasm.Prelude.{ℕ, Outcome, arith, ◌≡◌}
use mathlib.Core.Path.{subst}
use starlay_protocol_wasm.Prelude.Actions.{gets}
use starlay_protocol_wasm.Prelude.Steps.{
  Steps, IsPreorder, Steps-pure, Steps-gets, Steps-match, Steps-bind, Steps-modify, steps_rules,
}
use starlay_protocol_wasm.Pool.Errors.{Error}
use starlay_protocol_wasm.Pool.Environment.{TokenLibrary, Contracts, Context}
use starlay_protocol_wasm.Pool.State.{Data, State, Event, update, emit, on_token, on_world}
use starlay_protocol_wasm.Pool.Accrual.{
  accrue_reward, assert_fresh, transfer_underlying_from, transfer_underlying,
}
use starlay_protocol_wasm.Pool.Lending.{consent_to_borrow, consent_to_redeem}

module _ (lib : TokenLibrary) (contracts : Contracts lib.Psp22Error) where
  -- A relation of the pool's storage, of the whole state.
  abbrev pub OnPool : (Data → Data → Type 0) → State lib contracts → State lib contracts → Type 0
  OnPool R s t = R s.pool t.pool

module _ (lib : TokenLibrary) (contracts : Contracts lib.Psp22Error) (ctx : Context)
    (R : Data → Data → Type 0) (pre : IsPreorder (OnPool lib contracts R)) where
  pub Steps-update :
      (f : Data → Data)
      → ((d : Data) → R d (f d))
      → Steps (OnPool lib contracts R) (update lib contracts f)
  Steps-update f h = Steps-modify pre _ λ s. h s.pool

  pub Steps-emit : (e : Event) → Steps (OnPool lib contracts R) (emit lib contracts e)
  Steps-emit e = Steps-modify pre _ λ s. pre.stay s

  pub Steps-on_token :
      (f : lib.Token → Outcome lib.Psp22Error lib.Token)
      → Steps (OnPool lib contracts R) (on_token lib contracts f)
  Steps-on_token f = record {
    at = λ s b t e. let p : s.pool ≡ t.pool = ground arith in subst (R s.pool) p (pre.stay s);
  }

  pub Steps-on_world :
      {X : Type 0} (c : X → Error lib.Psp22Error) (f : contracts.World → Outcome X contracts.World)
      → Steps (OnPool lib contracts R) (on_world lib contracts c f)
  Steps-on_world c f = record {
    at = λ s b t e. let p : s.pool ≡ t.pool = ground arith in subst (R s.pool) p (pre.stay s);
  }

  pub Steps-accrue_reward :
      (user : ℕ) → Steps (OnPool lib contracts R) (accrue_reward lib contracts ctx user)
  unfolding accrue_reward
  Steps-accrue_reward user =
      Steps-bind pre (gets λ s. s.pool.incentives_controller) _ (Steps-gets pre _)
        λ o. Steps-match pre o _ _ (Steps-pure pre tt) λ ic. search (steps_rules, Steps-on_world)

  pub Steps-assert_fresh : Steps (OnPool lib contracts R) (assert_fresh lib contracts ctx)
  unfolding assert_fresh
  Steps-assert_fresh = search (steps_rules)

  pub Steps-transfer_underlying_from :
      (sender receiver value : ℕ)
      → Steps
          (OnPool lib contracts R)
          (transfer_underlying_from lib contracts ctx sender receiver value)
  unfolding transfer_underlying_from
  Steps-transfer_underlying_from sender receiver value = search (steps_rules, Steps-on_world)

  pub Steps-transfer_underlying :
      (receiver value : ℕ)
      → Steps (OnPool lib contracts R) (transfer_underlying lib contracts ctx receiver value)
  unfolding transfer_underlying
  Steps-transfer_underlying receiver value = search (steps_rules, Steps-on_world)

  pub Steps-consent_to_borrow :
      (borrower amount : ℕ)
      → Steps (OnPool lib contracts R) (consent_to_borrow lib contracts ctx borrower amount)
  unfolding consent_to_borrow
  Steps-consent_to_borrow borrower amount = search (steps_rules, Steps-accrue_reward) depth 40

  pub Steps-consent_to_redeem :
      (redeemer amount : ℕ)
      → Steps (OnPool lib contracts R) (consent_to_redeem lib contracts ctx redeemer amount)
  unfolding consent_to_redeem
  Steps-consent_to_redeem redeemer amount = search (steps_rules) depth 40

pub ruleset pool_steps = (
  steps_rules, Steps-emit, Steps-on_token, Steps-on_world, Steps-accrue_reward, Steps-assert_fresh,
  Steps-transfer_underlying_from, Steps-transfer_underlying, Steps-consent_to_borrow,
  Steps-consent_to_redeem,
)

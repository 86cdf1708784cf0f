-- ===== src/Prelude/Steps.antt =====
-- How the successful calls of an action relate the state before to the state after.
use mathlib.Core.Path.{◌≡◌, subst}
use mathlib.Core.Bool.{Bool, true, false}
use mathlib.Core.Option.{Option, none, some}
use starlay_protocol_wasm.Prelude.Tests.{if◌then◌else◌}
use starlay_protocol_wasm.Prelude.Outcomes.{Outcome, ok, err, panic}
use starlay_protocol_wasm.Prelude.Actions.{
  Action, pure, throw, throw_if, ok_or_throw, lift, view, gets, modify, when, ◌>>=◌, ◌>>◌,
  bind-elim,
}

pub record Steps {S E A : Type 0} (R : S → S → Type 0) (m : Action S E A) : Type 0 where
  pub at : (s : S) (a : A) (s' : S) → m s ≡ ok (a, s') → R s s'

-- A relation that holds of no step and of two steps in a row.
pub record IsPreorder {S : Type 0} (R : S → S → Type 0) : Type 0 where
  pub stay : (s : S) → R s s
  pub join : {s t u : S} → R s t → R t u → R s u

stay_at : {S : Type 0} {R : S → S → Type 0} (pre : IsPreorder R) {s t : S} → s ≡ t → R s t
stay_at {R} pre {s} p = subst (R s) p (pre.stay s)

module _ {S E : Type 0} {R : S → S → Type 0} (pre : IsPreorder R) where
  pub Steps-pure : {A : Type 0} (a : A) → Steps {E = E} R (pure a)
  Steps-pure a = record { at = λ s b t e. stay_at pre (cc) }

  pub Steps-throw : {A : Type 0} (x : E) → Steps {A = A} R (throw x)
  Steps-throw x = record { at = λ s b t e. absurd (cc) }

  pub Steps-lift : {A : Type 0} (o : Outcome E A) → Steps R (lift o)
  Steps-lift (ok a) = Steps-pure a
  Steps-lift (err x) = Steps-throw x
  Steps-lift panic = record { at = λ s b t e. absurd (cc) }

  pub Steps-view : {A : Type 0} (f : S → Outcome E A) → Steps R (view f)
  Steps-view f = record { at = λ s b t e. (Steps-lift (f s)).at s b t e }

  pub Steps-gets : {A : Type 0} (f : S → A) → Steps {E = E} R (gets f)
  Steps-gets f = record { at = λ s b t e. stay_at pre (cc) }

  pub Steps-throw_if : (b : Bool) (x : E) → Steps R (throw_if b x)
  Steps-throw_if true x = Steps-throw x
  Steps-throw_if false x = Steps-pure tt

  pub Steps-ok_or_throw : {A : Type 0} (o : Option A) (x : E) → Steps R (ok_or_throw o x)
  Steps-ok_or_throw none x = Steps-throw x
  Steps-ok_or_throw (some a) x = Steps-pure a

  pub Steps-when : (b : Bool) (m : Action S E (Unit {0})) → Steps R m → Steps R (when b m)
  Steps-when true m h = h
  Steps-when false m h = Steps-pure tt

  pub Steps-if :
      {A : Type 0} (b : Bool) (m n : Action S E A)
      → Steps R m
      → Steps R n
      → Steps R (if b then m else n)
  Steps-if true m n h k = h
  Steps-if false m n h k = k

  pub Steps-match :
      {A B : Type 0} (o : Option B) (m : Action S E A) (f : B → Action S E A)
      → Steps R m
      → ((b : B) → Steps R (f b))
      → Steps R (elim o [ none ↦ m | some b ↦ f b ])
  Steps-match none m f h k = h
  Steps-match (some b) m f h k = k b

  pub Steps-bind :
      {A B : Type 0} (m : Action S E A) (f : A → Action S E B)
      → Steps R m
      → ((a : A) → Steps R (f a))
      → Steps R (m >>= f)
  Steps-bind m f hm hf = record {
    at = λ s b s' e. bind-elim m f e λ a t em ef. pre.join (hm.at s a t em) ((hf a).at t b s' ef);
  }

  pub Steps-then :
      {A B : Type 0} (m : Action S E A) (k : Action S E B)
      → Steps R m
      → Steps R k
      → Steps R (m >> k)
  Steps-then m k hm hk = Steps-bind m _ hm λ _. hk

  pub Steps-modify : (f : S → S) → ((s : S) → R s (f s)) → Steps {E = E} R (modify f)
  Steps-modify f h = record { at = λ s b t e. let p : f s ≡ t = cc in subst (R s) p (h s) }

pub ruleset steps_rules = (
  Steps-pure, Steps-throw, Steps-lift, Steps-view, Steps-gets, Steps-throw_if, Steps-ok_or_throw,
  Steps-when, Steps-if, Steps-bind,
)

-- ===== src/Prelude/Actions.antt =====
-- A call on a state of type `S`: it ends with a value and the new state, with an error or with a panic.
use mathlib.Core.Path.{◌≡◌, refl, ap}
use mathlib.Core.Bool.{Bool, true, false}
use mathlib.Core.Option.{Option, none, some}
use starlay_protocol_wasm.Prelude.Outcomes.{Outcome, ok, err, panic}

abbrev pub Action : Type 0 → Type 0 → Type 0 → Type 0
Action S E A = S → Outcome E (A × S)

module _ {S E : Type 0} where
  infixl 5 ◌>>=◌ ◌>>◌
  abbrev pub pure : {A : Type 0} → A → Action S E A
  pure a s = ok (a, s)

  abbrev pub throw : {A : Type 0} → E → Action S E A
  throw e s = err e

  abbrev pub throw_if : Bool → E → Action S E (Unit {0})
  throw_if true e s = err e
  throw_if false e s = ok (tt, s)

  -- `o.ok_or(e)?`
  abbrev pub ok_or_throw : {A : Type 0} → Option A → E → Action S E A
  ok_or_throw none e s = err e
  ok_or_throw (some a) e s = ok (a, s)

  -- A computation that leaves the state alone.
  abbrev pub lift : {A : Type 0} → Outcome E A → Action S E A
  lift (ok a) s = ok (a, s)
  lift (err e) s = err e
  lift panic s = panic

  abbrev pub view : {A : Type 0} → (S → Outcome E A) → Action S E A
  view f s = lift (f s) s

  abbrev pub gets : {A : Type 0} → (S → A) → Action S E A
  gets f s = ok (f s, s)

  abbrev pub modify : (S → S) → Action S E (Unit {0})
  modify f s = ok (tt, f s)

  abbrev pub when : Bool → Action S E (Unit {0}) → Action S E (Unit {0})
  when true m = m
  when false m = pure tt

  abbrev pub ◌>>=◌ : {A B : Type 0} → Action S E A → (A → Action S E B) → Action S E B
  ◌>>=◌ m f s = elim (m s) [ ok (a, s') ↦ f a s' | err e ↦ err e | panic ↦ panic ]

  abbrev pub ◌>>◌ : {A B : Type 0} → Action S E A → Action S E B → Action S E B
  m >> k = m >>= λ _. k

  -- Inversion of a successful sequence, handing the parts on.
  pub bind-elim :
      {A B C : Type 0} (m : Action S E A) (f : A → Action S E B) {s : S} {r : B × S}
      → (m >>= f) s ≡ ok r
      → ((a : A) (s' : S) → m s ≡ ok (a, s') → f a s' ≡ ok r → C)
      → C
  bind-elim {A} {B} {C} m f {s} {r} e k = go (m s) refl e
    where
      go :
          (o : Outcome E (A × S))
          → m s ≡ o
          → elim o [ ok (a, s') ↦ f a s' | err x ↦ err x | panic ↦ panic ] ≡ ok r
          → C
      go (ok (a, s')) p q = k a s' p q
      go (err x) p q = absurd (cc)
      go panic p q = absurd (cc)

  -- What a sequence does behind a first part that succeeds or panics.
  pub bind-ok :
      {A B : Type 0} (m : Action S E A) (f : A → Action S E B) {s s' : S} {a : A}
      → m s ≡ ok (a, s')
      → (m >>= f) s ≡ f a s'
  bind-ok m f e = ap (λ o. elim o [ ok (a, s') ↦ f a s' | err x ↦ err x | panic ↦ panic ]) e

  pub bind-panic :
      {A B : Type 0} (m : Action S E A) (f : A → Action S E B) {s : S}
      → m s ≡ panic
      → (m >>= f) s ≡ panic
  bind-panic m f e = ap (λ o. elim o [ ok (a, s') ↦ f a s' | err x ↦ err x | panic ↦ panic ]) e

  -- What a successful read has read; none of them changes the state.
  pub gets-eq-ok :
      {A : Type 0} (f : S → A) {s s' : S} {a : A} → gets f s ≡ ok (a, s') → (a ≡ f s) × (s' ≡ s)
  gets-eq-ok f e = (cc, cc)

  pub view-eq-ok :
      {A : Type 0} (f : S → Outcome E A) {s s' : S} {a : A}
      → view f s ≡ ok (a, s')
      → (f s ≡ ok a) × (s' ≡ s)
  view-eq-ok {A} f {s} {s'} {a} e = go (f s) refl e
    where
      go : (o : Outcome E A) → f s ≡ o → lift o s ≡ ok (a, s') → (f s ≡ ok a) × (s' ≡ s)
      go (ok b) p q = (cc, cc)
      go (err x) p q = absurd (cc)
      go panic p q = absurd (cc)

  pub ok_or_throw-eq-ok :
      {A : Type 0} (o : Option A) (x : E) {s s' : S} {a : A}
      → ok_or_throw o x s ≡ ok (a, s')
      → (o ≡ some a) × (s' ≡ s)
  ok_or_throw-eq-ok none x e = absurd (cc)
  ok_or_throw-eq-ok (some b) x e = (cc, cc)

  -- Inversion of a successful sequence that begins with a read or a test: the state is the same behind it.
  pub view-elim :
      {A B C : Type 0} (g : S → Outcome E A) (f : A → Action S E B) {s : S} {r : B × S}
      → (view g >>= f) s ≡ ok r
      → ((a : A) → g s ≡ ok a → f a s ≡ ok r → C)
      → C
  view-elim {A} {B} {C} g f {s} {r} e k = go (g s) refl e
    where
      go : (o : Outcome E A) → g s ≡ o → (lift o >>= f) s ≡ ok r → C
      go (ok a) p q = k a p q
      go (err x) p q = absurd (cc)
      go panic p q = absurd (cc)

  pub ok_or_throw-elim :
      {A B C : Type 0} (o : Option A) (x : E) (f : A → Action S E B) {s : S} {r : B × S}
      → (ok_or_throw o x >>= f) s ≡ ok r
      → ((a : A) → o ≡ some a → f a s ≡ ok r → C)
      → C
  ok_or_throw-elim none x f e k = absurd (cc)
  ok_or_throw-elim (some a) x f e k = k a refl e

  pub throw_if-elim :
      {B C : Type 0} (b : Bool) (x : E) (f : Unit {0} → Action S E B) {s : S} {r : B × S}
      → (throw_if b x >>= f) s ≡ ok r
      → (b ≡ false → f tt s ≡ ok r → C)
      → C
  throw_if-elim true x f e k = absurd (cc)
  throw_if-elim false x f e k = k refl e

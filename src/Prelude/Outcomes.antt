-- ===== src/Prelude/Outcomes.antt =====
-- How a call ends: with a value, with an error of the program's own, or with a panic. A panic traps
-- the contract; an `Err` that a message returns makes the runtime drop what the call has written, so
-- neither carries a state.
use mathlib.Core.Path.{◌≡◌, refl}
use mathlib.Core.Bool.{Bool, true, false}
use mathlib.Core.Option.{Option, none, some}

pub data Outcome (E A : Type 0) : Type 0 where
  ok : A → Outcome E A
  err : E → Outcome E A
  panic : Outcome E A

infixl 5 ◌>>=◌ ◌>>◌
abbrev pub ◌>>=◌ : {E A B : Type 0} → Outcome E A → (A → Outcome E B) → Outcome E B
panic >>= k = panic
err e >>= k = err e
ok a >>= k = k a

abbrev pub ◌>>◌ : {E A B : Type 0} → Outcome E A → Outcome E B → Outcome E B
m >> k = m >>= λ _. k

-- `ok_or(e)?`
abbrev pub ok_or : {E A : Type 0} → Option A → E → Outcome E A
ok_or none e = err e
ok_or (some a) e = ok a

-- `map_err(f)`, also the conversion that `?` makes.
abbrev pub map_err : {E F A : Type 0} → (E → F) → Outcome E A → Outcome F A
map_err f (ok a) = ok a
map_err f (err e) = err (f e)
map_err f panic = panic

-- `unwrap()`
abbrev pub unwrap : {E F A : Type 0} → Outcome E A → Outcome F A
unwrap (ok a) = ok a
unwrap (err e) = panic
unwrap panic = panic

-- `if b { return Err(e) }`
abbrev pub fail_if : {E : Type 0} → Bool → E → Outcome E (Unit {0})
fail_if true e = err e
fail_if false e = ok tt

-- A bind that succeeds, taken apart: its parts are handed on.
pub >>=-elim :
    {E A B C : Type 0} (o : Outcome E A) (k : A → Outcome E B) {v : B}
    → (o >>= k) ≡ ok v
    → ((x : A) → o ≡ ok x → k x ≡ ok v → C)
    → C
>>=-elim panic k h use_parts = absurd (cc)
>>=-elim (err x) k h use_parts = absurd (cc)
>>=-elim (ok x) k h use_parts = use_parts x refl h

-- The parts as a tuple.
pub >>=-eq-ok :
    {E A B : Type 0} (o : Outcome E A) (k : A → Outcome E B) {v : B} (h : (o >>= k) ≡ ok v)
    → (x : A) × (o ≡ ok x) × (k x ≡ ok v)
>>=-eq-ok o k h = >>=-elim o k h λ x p q. (x, p, q)

pub ok-injective : {E A : Type 0} {a b : A} → ◌≡◌ {A = Outcome E A} (ok a) (ok b) → a ≡ b
ok-injective h = cc

pub map_err-eq-ok :
    {E F A : Type 0} (f : E → F) (o : Outcome E A) {a : A} → map_err f o ≡ ok a → o ≡ ok a
map_err-eq-ok f panic e = absurd (cc)
map_err-eq-ok f (err x) e = absurd (cc)
map_err-eq-ok f (ok b) e = cc

pub ok_or-eq-ok : {E A : Type 0} (o : Option A) (x : E) {a : A} → ok_or o x ≡ ok a → o ≡ some a
ok_or-eq-ok none x e = absurd (cc)
ok_or-eq-ok (some b) x e = cc

pub some-injective : {A : Type 0} {a b : A} → some a ≡ some b → a ≡ b
some-injective h = cc

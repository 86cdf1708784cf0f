-- ===== src/Words.antt =====
-- Machine words. `U256` of the crate primitive_types panics on overflow, on a negative difference
-- and on a division by zero, and its `as_u128` panics on a value that does not fit. `u128` is
-- compiled with `overflow-checks = false` (logics/Cargo.toml), so its `+` and `-` wrap.
-- A word is a natural number; where its range matters, that is a hypothesis or part of an invariant.
use starlay_protocol_wasm.Prelude.{
  ℕ, ◌+◌, ◌-◌, ◌*◌, ◌/◌, ◌%◌, ◌^◌, ◌≤◌, ◌<◌, ◌≡◌, arith, ltb, ◌==◌, if◌then◌else◌, Outcome, ok,
  panic, le→ltb,
}

abbrev pub u128_mod : ℕ
u128_mod = 2 ^ 128

abbrev pub u256_mod : ℕ
u256_mod = 2 ^ 256

-- `u128::MAX` and `U256::MAX`
abbrev pub u128_max : ℕ
u128_max = 2 ^ 128 - 1

abbrev pub u256_max : ℕ
u256_max = 2 ^ 256 - 1

unfoldable pub add128 : ℕ → ℕ → ℕ
add128 a b = (a + b) % u128_mod

unfoldable pub sub128 : ℕ → ℕ → ℕ
sub128 a b = (a + u128_mod - b) % u128_mod

unfoldable pub add256 : {E : Type 0} → ℕ → ℕ → Outcome E ℕ
add256 a b = if ltb (a + b) u256_mod then ok (a + b) else panic

unfoldable pub sub256 : {E : Type 0} → ℕ → ℕ → Outcome E ℕ
sub256 a b = if ltb a b then panic else ok (a - b)

unfoldable pub mul256 : {E : Type 0} → ℕ → ℕ → Outcome E ℕ
mul256 a b = if ltb (a * b) u256_mod then ok (a * b) else panic

unfoldable pub div256 : {E : Type 0} → ℕ → ℕ → Outcome E ℕ
div256 a b = if b == 0 then panic else ok (a / b)

unfoldable pub as_u128 : {E : Type 0} → ℕ → Outcome E ℕ
as_u128 a = if ltb a u128_mod then ok a else panic

-- `U256::pow` and the wrapping `u128::pow`
unfoldable pub pow256 : {E : Type 0} → ℕ → ℕ → Outcome E ℕ
pow256 a n = if ltb (a ^ n) u256_mod then ok (a ^ n) else panic

unfoldable pub pow128 : ℕ → ℕ → ℕ
pow128 a n = a ^ n % u128_mod

-- Inside the range the operations are those of the natural numbers.
module _ {E : Type 0} where
  pub sub256_ok : (a b : ℕ) → b ≤ a → sub256 {E = E} a b ≡ ok (a - b)
  unfolding sub256
  sub256_ok a b h = rw (le→ltb _ _ h)

pub add128_exact : (a b : ℕ) → a + b < u128_mod → add128 a b ≡ a + b
unfolding add128
add128_exact a b h = omega arith

pub sub128_exact : (a b : ℕ) → b ≤ a → a < u128_mod → sub128 a b ≡ a - b
unfolding sub128
sub128_exact a b h k = omega arith

pub sub128_wraps : (a b : ℕ) → a < b → b < u128_mod → sub128 a b ≡ u128_mod + a - b
unfolding sub128
sub128_wraps a b h k = omega arith

pub add256-eq-ok : {E : Type 0} (a b : ℕ) {c : ℕ} → add256 {E = E} a b ≡ ok c → c ≡ a + b
unfolding add256
add256-eq-ok a b e = ground arith

-- Rounding down is monotone.
pub div_le : (n m d : ℕ) → n ≤ m → n / d ≤ m / d
div_le n m d h = grind arith

pub mul_div_le : (u v k d : ℕ) → u ≤ v → u * k / d ≤ v * k / d
mul_div_le u v k d h = div_le (u * k) (v * k) d (grind arith)

-- ===== src/Math/Rounding.antt =====
-- Division that rounds half up, and the overflow tests that come before it.
use starlay_protocol_wasm.Prelude.{
  ℕ, ◌+◌, ◌-◌, ◌*◌, ◌/◌, ◌≤◌, ◌<◌, ◌≡◌, arith, Outcome, ok, err, panic, ◌>>=◌,
}
use starlay_protocol_wasm.Words.{u256_mod, u256_max}
use starlay_protocol_wasm.Math.Exp.{exp_scale, Exp, exp, Ray, ray}
use starlay_protocol_wasm.Math.WadRay.{
  Error, math_multiplication_overflow, math_division_by_zero, ray_scale, half_ray, ray_mul, ray_div,
  wad_div,
}
use starlay_protocol_wasm.Math.Percent.{percent_mul, percentage_factor, half_percent}

-- `q` is the integer nearest to `n / d`; a tie goes up.
abbrev pub IsNearest : ℕ → ℕ → ℕ → Type 0
IsNearest n d q = (q * d ≤ n + d / 2) × (n + d / 2 < q * d + d)

-- What a rounding division may return: the nearest integer if all fits in 256 bits, the overflow
-- error exactly if it does not, the division error exactly at a zero divisor, and never a panic.
abbrev pub Rounds : ℕ → ℕ → Outcome Error ℕ → Type 0
Rounds n d (ok q) = (0 < d) × (n + d / 2 < u256_mod) × IsNearest n d q
Rounds n d (err math_multiplication_overflow) = (0 < d) × (u256_mod ≤ n + d / 2)
Rounds n d (err math_division_by_zero) = d ≡ 0
Rounds n d panic = ⊥

pub lt_of_div-lt : (n b a : ℕ) → 0 < b → n / b < a → n < a * b
lt_of_div-lt n b a h k = grind arith

pub le_of_not_div-lt : (n b a : ℕ) → 0 < b → a ≤ n / b → a * b ≤ n
le_of_not_div-lt n b a h k = grind arith

div_le_self : (n b : ℕ) → n / b ≤ n
div_le_self n b = grind arith

add_div-le : (a b n : ℕ) → 0 < b → a + n / b ≤ a * b + n
add_div-le a b n h = grind (arith, div_le_self n b)

pub div-IsNearest : (n d : ℕ) → 0 < d → IsNearest n d ((n + d / 2) / d)
div-IsNearest n d h = grind arith

abbrev pub ray_mantissa : {E : Type 0} → Outcome E Ray → Outcome E ℕ
ray_mantissa r = r >>= λ x. ok x.mantissa

abbrev pub exp_mantissa : {E : Type 0} → Outcome E Exp → Outcome E ℕ
exp_mantissa r = r >>= λ x. ok x.mantissa

-- `Ray::ray_div` returns the integer nearest to a * 10^27 / b, an overflow error exactly when the
-- rounded numerator does not fit in 256 bits, and a division error exactly for a zero divisor; it
-- never panics.
pub ray_div-Rounds :
    (a b : ℕ) → b < u256_mod → Rounds (a * ray_scale) b (ray_mantissa (ray_div (ray a) (ray b)))
unfolding ray_div
ray_div-Rounds a b h = ground (arith, div-IsNearest (a * ray_scale) b)

pub wad_div-Rounds :
    (a b : ℕ) → b < u256_mod → Rounds (a * exp_scale) b (exp_mantissa (wad_div (exp a) (exp b)))
unfolding wad_div
wad_div-Rounds a b h = ground (arith, div-IsNearest (a * exp_scale) b)

pub ray_mul-Rounds : (a b : ℕ) → Rounds (a * b) ray_scale (ray_mantissa (ray_mul (ray a) (ray b)))
unfolding ray_mul
ray_mul-Rounds a b =
    ground
      (arith, lt_of_div-lt (u256_max - half_ray) b a, le_of_not_div-lt (u256_max - half_ray) b a)

pub percent_mul-Rounds :
    (p v : ℕ) → Rounds (v * p) percentage_factor (percent_mul (record { percentage = p }) v)
unfolding percent_mul
percent_mul-Rounds p v = ground (
  arith,
  lt_of_div-lt (u256_max - half_percent) p v,
  le_of_not_div-lt (u256_max - half_percent) p v,
)

-- ===== src/Pool/Scaled/RoundTrip.antt =====
-- A balance that is scaled down by an index and up again: `scaled_amount_of` and
-- `from_scaled_amount` of logics/impls/pool/utils.rs.
use starlay_protocol_wasm.Prelude.{ℕ, ◌+◌, ◌*◌, ◌≤◌, ◌<◌, ◌≡◌, arith, ok}
use starlay_protocol_wasm.Words.{as_u128, u128_mod}
use starlay_protocol_wasm.Math.Exp.{exp_ray_ratio, exp_scale, exp, to_ray}
use starlay_protocol_wasm.Math.WadRay.{ray_scale}
use starlay_protocol_wasm.Math.Rounding.{IsNearest, ray_mul-Rounds, ray_div-Rounds}
use starlay_protocol_wasm.Pool.Scaled.{scaled_amount_of, from_scaled_amount}

-- A scaled amount is the integer nearest to amount * 10^18 / index; the index is not zero.
pub scaled_amount_of-IsNearest :
    {E : Type 0} (a i : ℕ) {s : ℕ}
    → scaled_amount_of {E = E} a (exp i) ≡ ok s
    → (0 < i) × (s < u128_mod) × IsNearest (a * ray_scale) (i * exp_ray_ratio) s
unfolding scaled_amount_of to_ray as_u128
scaled_amount_of-IsNearest a i e = ground (arith, ray_div-Rounds a (i * exp_ray_ratio))

-- An amount is the integer nearest to scaled * index / 10^18.
pub from_scaled_amount-IsNearest :
    {E : Type 0} (s i : ℕ) {a : ℕ}
    → from_scaled_amount {E = E} s (exp i) ≡ ok a
    → (a < u128_mod) × IsNearest (i * exp_ray_ratio * s) ray_scale a
unfolding from_scaled_amount to_ray as_u128
from_scaled_amount-IsNearest s i e = ground (arith, ray_mul-Rounds (i * exp_ray_ratio) s)

-- Scaling an amount down by an index and up again gives it back up to half of (index / 10^18 + 1),
-- the rounding of one unit at that index and of the amount.
pub from_scaled_amount-scaled_amount_of :
    {E : Type 0} (a i : ℕ) {s b : ℕ}
    → scaled_amount_of {E = E} a (exp i) ≡ ok s
    → from_scaled_amount {E = E} s (exp i) ≡ ok b
    → (2 * exp_scale * b ≤ 2 * exp_scale * a + (i + exp_scale))
      × (2 * exp_scale * a ≤ 2 * exp_scale * b + (i + exp_scale))
from_scaled_amount-scaled_amount_of a i {s} {b} p q =
    let down = scaled_amount_of-IsNearest a i p in
    let up = from_scaled_amount-IsNearest s i q in (grind arith, grind arith)

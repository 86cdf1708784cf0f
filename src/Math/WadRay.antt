-- ===== src/Math/WadRay.antt =====
-- logics/impls/wad_ray_math.rs.
use starlay_protocol_wasm.Prelude.{
  ℕ, ◌/◌, ◌^◌, ◌||◌, ltb, ◌==◌, if◌then◌else◌, Outcome, ok, err, fail_if, ◌>>=◌, ◌>>◌,
}
use starlay_protocol_wasm.Words.{u256_max, add256, sub256, mul256, div256}
use starlay_protocol_wasm.Math.Exp.{exp_scale, half_exp_scale, exp_ray_ratio, Exp, exp, Ray, ray}

pub data Error : Type 0 where
  math_multiplication_overflow math_division_by_zero : Error

abbrev pub ray_scale : ℕ
ray_scale = 10 ^ 27

abbrev pub half_ray : ℕ
half_ray = ray_scale / 2

unfoldable pub wad_mul : Exp → Exp → Outcome Error Exp
unfolding add256 sub256 mul256 div256
wad_mul x y =
    let a = x.mantissa in
    let b = y.mantissa in
    if a == 0 || b == 0 then ok (exp 0) else do
      h ← div256 half_exp_scale b
      room ← sub256 u256_max h
      fail_if (ltb room a) math_multiplication_overflow
      p ← mul256 a b
      s ← add256 p half_exp_scale
      q ← div256 s exp_scale
      ok (exp q)

unfoldable pub wad_div : Exp → Exp → Outcome Error Exp
unfolding add256 sub256 mul256 div256
wad_div x y =
    let a = x.mantissa in
    let b = y.mantissa in
    if b == 0 then err math_division_by_zero else do
      half_another ← div256 b 2
      d ← sub256 u256_max half_another
      room ← div256 d exp_scale
      fail_if (ltb room a) math_multiplication_overflow
      p ← mul256 a exp_scale
      s ← add256 p half_another
      q ← div256 s b
      ok (exp q)

unfoldable pub fraction : {E : Type 0} → ℕ → ℕ → Outcome E Ray
unfolding mul256 div256
fraction one another = do p ← mul256 one ray_scale; q ← div256 p another; ok (ray q)

module _ {E : Type 0} where
  -- `Ray::_op`
  abbrev op : (ℕ → ℕ → Outcome E ℕ) → Ray → Ray → Outcome E Ray
  op f x y = do m ← f x.mantissa y.mantissa; ok (ray m)

  unfoldable pub add : Ray → Ray → Outcome E Ray
  unfolding add256
  add x y = op add256 x y

  unfoldable pub sub : Ray → Ray → Outcome E Ray
  unfolding sub256
  sub x y = op sub256 x y

  unfoldable pub to_exp : Ray → Outcome E Exp
  unfolding add256 div256
  to_exp x = do
    half_ratio ← div256 exp_ray_ratio 2
    s ← add256 half_ratio x.mantissa
    q ← div256 s exp_ray_ratio
    ok (exp q)

unfoldable pub ray_mul : Ray → Ray → Outcome Error Ray
unfolding add256 sub256 mul256 div256
ray_mul x y =
    let a = x.mantissa in
    let b = y.mantissa in
    if a == 0 || b == 0 then ok (ray 0) else do
      d ← sub256 u256_max half_ray
      room ← div256 d b
      fail_if (ltb room a) math_multiplication_overflow
      p ← mul256 a b
      s ← add256 p half_ray
      q ← div256 s ray_scale
      ok (ray q)

unfoldable pub ray_div : Ray → Ray → Outcome Error Ray
unfolding add256 sub256 mul256 div256
ray_div x y =
    let a = x.mantissa in
    let b = y.mantissa in
    if b == 0 then err math_division_by_zero else do
      half_another ← div256 b 2
      d ← sub256 u256_max half_another
      room ← div256 d ray_scale
      fail_if (ltb room a) math_multiplication_overflow
      p ← mul256 a ray_scale
      s ← add256 p half_another
      q ← div256 s b
      ok (ray q)

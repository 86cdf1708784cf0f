-- ===== src/Math/Exp.antt =====
-- logics/impls/exp_no_err.rs. An `Exp` is its mantissa, scaled by 10^18; `WrappedU256` of
-- logics/traits/types.rs is the number that it wraps, and the conversions are the identity.
use starlay_protocol_wasm.Prelude.{ℕ, ◌/◌, ◌^◌, Bool, ltb, leb, ◌==◌, Outcome, ok, ◌>>=◌}
use starlay_protocol_wasm.Words.{add256, sub256, mul256, div256}

abbrev pub exp_scale : ℕ
exp_scale = 10 ^ 18

abbrev pub half_exp_scale : ℕ
half_exp_scale = exp_scale / 2

abbrev pub mantissa_one : ℕ
mantissa_one = exp_scale

pub record Exp : Type 0 where
  pub mantissa : ℕ

-- Defined in wad_ray_math.rs, and used by both files.
abbrev pub exp_ray_ratio : ℕ
exp_ray_ratio = 10 ^ 9

pub record Ray : Type 0 where
  pub mantissa : ℕ

abbrev pub exp : ℕ → Exp
exp m = record { mantissa = m }

abbrev pub ray : ℕ → Ray
ray m = record { mantissa = m }

module _ {E : Type 0} where
  -- `_op`
  abbrev op : (ℕ → ℕ → Outcome E ℕ) → Exp → Exp → Outcome E Exp
  op f x y = do m ← f x.mantissa y.mantissa; ok (exp m)

  unfoldable pub add : Exp → Exp → Outcome E Exp
  unfolding add256
  add x y = op add256 x y

  unfoldable pub sub : Exp → Exp → Outcome E Exp
  unfolding sub256
  sub x y = op sub256 x y

  unfoldable pub to_ray : Exp → Outcome E Ray
  unfolding mul256
  to_ray x = do m ← mul256 x.mantissa exp_ray_ratio; ok (ray m)

  unfoldable pub mul : Exp → Exp → Outcome E Exp
  unfolding mul256 div256
  mul x y = op (λ o v. do p ← mul256 o v; div256 p exp_scale) x y

  unfoldable pub mul_scalar : Exp → ℕ → Outcome E Exp
  unfolding mul256
  mul_scalar x s = do m ← mul256 x.mantissa s; ok (exp m)

  unfoldable pub div : Exp → Exp → Outcome E Exp
  unfolding mul256 div256
  div x y = op (λ o v. do p ← mul256 o exp_scale; div256 p v) x y

  -- `_trunc`
  unfoldable pub truncate : Exp → Outcome E ℕ
  unfolding div256
  truncate x = div256 x.mantissa exp_scale

  unfoldable pub mul_scalar_truncate : Exp → ℕ → Outcome E ℕ
  unfolding mul_scalar truncate
  mul_scalar_truncate x s = do product ← mul_scalar x s; truncate product

  unfoldable pub mul_scalar_truncate_add_uint : Exp → ℕ → ℕ → Outcome E ℕ
  unfolding mul_scalar_truncate add256
  mul_scalar_truncate_add_uint x s addend = do t ← mul_scalar_truncate x s; add256 t addend

pub lt : Exp → Exp → Bool
lt x y = ltb x.mantissa y.mantissa

pub le : Exp → Exp → Bool
le x y = leb x.mantissa y.mantissa

pub gt : Exp → Exp → Bool
gt x y = ltb y.mantissa x.mantissa

pub ge : Exp → Exp → Bool
ge x y = leb y.mantissa x.mantissa

pub is_zero : Exp → Bool
is_zero x = x.mantissa == 0

-- ===== src/Pool/Interest.antt =====
-- Interest, logics/impls/pool/utils.rs.
pub mod Growth
use starlay_protocol_wasm.Prelude.{
  ℕ, ◌-◌, ◌*◌, ◌/◌, ◌^◌, ltb, ◌==◌, if◌then◌else◌, Outcome, ok, fail_if, unwrap, ◌>>=◌, ◌>>◌,
}
use starlay_protocol_wasm.Words.{add128, add256, sub256, mul256, div256, as_u128}
use starlay_protocol_wasm.Math.Exp.{
  exp_scale, exp_ray_ratio, Exp, exp, to_ray, mul_scalar_truncate, mul_scalar_truncate_add_uint,
}
use starlay_protocol_wasm.Math.WadRay.{ray_mul}
use starlay_protocol_wasm.Pool.Errors.{Error, borrow_rate_is_absurdly_high}

abbrev pub borrow_rate_max_mantissa : ℕ
borrow_rate_max_mantissa = exp_scale * 5 / (1000 * 100)

abbrev pub reserve_factor_max_mantissa : ℕ
reserve_factor_max_mantissa = exp_scale

pub record CalculateInterestInput : Type 0 where
  pub total_borrows : ℕ
  pub total_reserves : ℕ
  pub borrow_index : ℕ
  pub borrow_rate : ℕ
  pub old_block_timestamp : ℕ
  pub new_block_timestamp : ℕ
  pub reserve_factor_mantissa : ℕ

pub record CalculateInterestOutput : Type 0 where
  pub borrow_index : ℕ
  pub total_borrows : ℕ
  pub total_reserves : ℕ
  pub interest_accumulated : ℕ

-- The three terms of the binomial series of (1 + rate) ^ delta - 1.
unfoldable pub compound_interest : {E : Type 0} → Exp → ℕ → Outcome E Exp
unfolding add256 sub256 mul256 div256 to_ray
compound_interest rate delta = if delta == 0 then ok (exp 0) else do
  delta_minus_one ← sub256 delta 1
  delta_minus_two ← if ltb 2 delta then sub256 delta 2 else ok 0
  r ← to_ray rate
  base_power_two ← unwrap (ray_mul r r)
  base_power_three ← unwrap (ray_mul base_power_two r)
  a ← mul256 delta delta_minus_one
  b ← mul256 a base_power_two.mantissa
  second_term_ray ← div256 b 2
  c ← mul256 a delta_minus_two
  d ← mul256 c base_power_three.mantissa
  third_term_ray ← div256 d 6
  first ← mul256 rate.mantissa delta
  second ← div256 second_term_ray exp_ray_ratio
  third ← div256 third_term_ray exp_ray_ratio
  s ← add256 first second
  t ← add256 s third
  ok (exp t)

-- `u64::abs_diff`
abbrev pub abs_diff : ℕ → ℕ → ℕ
abs_diff a b = if ltb a b then b - a else a - b

unfoldable pub calculate_interest :
    {P : Type 0} → CalculateInterestInput → Outcome (Error P) CalculateInterestOutput
calculate_interest input = do
  fail_if (ltb borrow_rate_max_mantissa input.borrow_rate) borrow_rate_is_absurdly_high
  let delta = abs_diff input.new_block_timestamp input.old_block_timestamp
  factor ← compound_interest (exp input.borrow_rate) delta
  interest ← mul_scalar_truncate factor input.total_borrows
  interest_accumulated ← as_u128 interest
  let total_borrows_new = add128 interest_accumulated input.total_borrows
  reserves ←
      mul_scalar_truncate_add_uint (exp input.reserve_factor_mantissa) interest input.total_reserves
  index ← mul_scalar_truncate_add_uint factor input.borrow_index input.borrow_index
  total_reserves_new ← as_u128 reserves
  ok (record {
    borrow_index = index;
    total_borrows = total_borrows_new;
    total_reserves = total_reserves_new;
    interest_accumulated = interest_accumulated;
  })

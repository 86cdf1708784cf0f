-- ===== src/Pool/Interest/Growth.antt =====
-- How interest moves the totals of a pool: `compound_interest` and `calculate_interest` of
-- logics/impls/pool/utils.rs.
use starlay_protocol_wasm.Prelude.{
  ℕ, ◌+◌, ◌*◌, ◌/◌, ◌≤◌, ◌<◌, ◌≡◌, arith, ltb, ok, fail_if, >>=-eq-ok,
}
use starlay_protocol_wasm.Words.{add128, add128_exact, as_u128, mul_div_le, u128_mod}
use starlay_protocol_wasm.Math.Exp.{
  exp_scale, Exp, exp, mul_scalar_truncate, mul_scalar_truncate_add_uint,
}
use starlay_protocol_wasm.Pool.Errors.{Error, borrow_rate_is_absurdly_high}
use starlay_protocol_wasm.Pool.Interest.{
  CalculateInterestInput, CalculateInterestOutput, compound_interest, calculate_interest, abs_diff,
  borrow_rate_max_mantissa,
}

compound_interest-ge :
    {E : Type 0} (rate : Exp) (delta : ℕ) {f : Exp}
    → compound_interest {E = E} rate delta ≡ ok f
    → rate.mantissa * delta ≤ f.mantissa
unfolding compound_interest
compound_interest-ge rate delta e = ground arith

mul_scalar_truncate-eq-ok :
    {E : Type 0} (x : Exp) (s : ℕ) {r : ℕ}
    → mul_scalar_truncate {E = E} x s ≡ ok r
    → r ≡ x.mantissa * s / exp_scale
unfolding mul_scalar_truncate
mul_scalar_truncate-eq-ok x s e = ground arith

mul_scalar_truncate_add_uint-eq-ok :
    {E : Type 0} (x : Exp) (s c : ℕ) {r : ℕ}
    → mul_scalar_truncate_add_uint {E = E} x s c ≡ ok r
    → r ≡ x.mantissa * s / exp_scale + c
unfolding mul_scalar_truncate_add_uint
mul_scalar_truncate_add_uint-eq-ok x s c e = ground arith

as_u128-eq-ok : {E : Type 0} (a : ℕ) {b : ℕ} → as_u128 {E = E} a ≡ ok b → (b ≡ a) × (a < u128_mod)
unfolding as_u128
as_u128-eq-ok a e = ground arith

-- What a successful run has done, in terms of one growth factor.
abbrev Grows : CalculateInterestInput → CalculateInterestOutput → ℕ → Type 0
Grows i o f =
    (i.borrow_rate * abs_diff i.new_block_timestamp i.old_block_timestamp ≤ f)
    × (o.interest_accumulated ≡ f * i.total_borrows / exp_scale)
    × (o.interest_accumulated < u128_mod)
    × (o.total_borrows ≡ add128 o.interest_accumulated i.total_borrows)
    × (o.total_reserves
        ≡ i.reserve_factor_mantissa * o.interest_accumulated / exp_scale + i.total_reserves)
    × (o.borrow_index ≡ f * i.borrow_index / exp_scale + i.borrow_index)
    × (i.borrow_rate ≤ borrow_rate_max_mantissa)

calculate_interest-Grows :
    {P : Type 0} (i : CalculateInterestInput) {o : CalculateInterestOutput}
    → calculate_interest {P = P} i ≡ ok o
    → (f : ℕ) × Grows i o f
unfolding calculate_interest
calculate_interest-Grows {P} i {o} e =
    let delta = abs_diff i.new_block_timestamp i.old_block_timestamp in
    let rf = exp i.reserve_factor_mantissa in
    let (_, low, e1) =
      >>=-eq-ok
        (fail_if {E = Error P} (ltb borrow_rate_max_mantissa i.borrow_rate)
          borrow_rate_is_absurdly_high)
        _ e in
    let (f, ef, e2) = >>=-eq-ok (compound_interest (exp i.borrow_rate) delta) _ e1 in
    let (n, en, e3) = >>=-eq-ok (mul_scalar_truncate f i.total_borrows) _ e2 in
    let (m, em, e4) = >>=-eq-ok (as_u128 n) _ e3 in
    let (r, er, e5) = >>=-eq-ok (mul_scalar_truncate_add_uint rf n i.total_reserves) _ e4 in
    let (x, ex, e6) =
      >>=-eq-ok (mul_scalar_truncate_add_uint f i.borrow_index i.borrow_index) _ e5 in
    let (t, et, e7) = >>=-eq-ok (as_u128 r) _ e6 in
    (
      f.mantissa,
      ground (
        arith,
        compound_interest-ge (exp i.borrow_rate) delta ef,
        mul_scalar_truncate-eq-ok f i.total_borrows en,
        as_u128-eq-ok n em,
        mul_scalar_truncate_add_uint-eq-ok rf n i.total_reserves er,
        mul_scalar_truncate_add_uint-eq-ok f i.borrow_index i.borrow_index ex,
        as_u128-eq-ok r et,
      ),
    )

-- A successful accrual charges at least the simple interest on the debt and on the index, adds to
-- the reserves exactly their share of the interest, and, where interest and debt together fit in
-- 128 bits, adds exactly the interest to the debt. The rate it used is within the allowed maximum.
pub calculate_interest_grows :
    {P : Type 0} (i : CalculateInterestInput) {o : CalculateInterestOutput}
    → calculate_interest {P = P} i ≡ ok o
    → o.interest_accumulated + i.total_borrows < u128_mod
    → let simple = i.borrow_rate * abs_diff i.new_block_timestamp i.old_block_timestamp in
      (i.borrow_rate ≤ borrow_rate_max_mantissa)
      × (simple * i.total_borrows / exp_scale ≤ o.interest_accumulated)
      × (o.total_borrows ≡ i.total_borrows + o.interest_accumulated)
      × (o.total_reserves
          ≡ i.total_reserves + i.reserve_factor_mantissa * o.interest_accumulated / exp_scale)
      × (i.borrow_index + simple * i.borrow_index / exp_scale ≤ o.borrow_index)
calculate_interest_grows i {o} e fits =
    let simple = i.borrow_rate * abs_diff i.new_block_timestamp i.old_block_timestamp in
    let (f, g) = calculate_interest-Grows i e in
    let exact = add128_exact o.interest_accumulated i.total_borrows fits in
    let debt = mul_div_le simple f i.total_borrows exp_scale g.0 in
    let index = mul_div_le simple f i.borrow_index exp_scale g.0 in
    (g.6, omega arith, omega arith, omega arith, omega arith)

pub calculate_interest-index_grows :
    {P : Type 0} (i : CalculateInterestInput) {o : CalculateInterestOutput}
    → calculate_interest {P = P} i ≡ ok o
    → i.borrow_index ≤ o.borrow_index
calculate_interest-index_grows i e = let (f, g) = calculate_interest-Grows i e in omega arith

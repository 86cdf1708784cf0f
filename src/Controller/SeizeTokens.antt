-- ===== src/Controller/SeizeTokens.antt =====
-- How many collateral tokens a repayment buys, logics/impls/controller/utils.rs.
use starlay_protocol_wasm.Prelude.{ℕ, ◌*◌, ◌/◌, ◌^◌, ◌≤◌, ◌≡◌, arith, Outcome, ok, ◌>>=◌, >>=-elim}
use native.Mathlib.Nat.{div-mul-le_self, mul-le-mul, le_refl}
use mathlib.Core.Path.{ap₂, ◌∙◌}
use starlay_protocol_wasm.Words.{mul256, div256, pow256, as_u128}
use starlay_protocol_wasm.Math.Exp.{exp_scale, Exp, exp, mul, div, mul_scalar_truncate}

pub record LiquidateCalculateSeizeTokensInput : Type 0 where
  pub price_borrowed_mantissa : ℕ
  pub decimals_borrowed : ℕ
  pub price_collateral_mantissa : ℕ
  pub decimals_collateral : ℕ
  pub exchange_rate_mantissa : ℕ
  pub liquidation_incentive_mantissa : ℕ
  pub actual_repay_amount : ℕ

unfoldable pub liquidate_calculate_seize_tokens :
    {E : Type 0} → LiquidateCalculateSeizeTokensInput → Outcome E ℕ
liquidate_calculate_seize_tokens input = do
  numerator ← mul (exp input.liquidation_incentive_mantissa) (exp input.price_borrowed_mantissa)
  denominator ← mul (exp input.price_collateral_mantissa) (exp input.exchange_rate_mantissa)
  ratio ← div numerator denominator
  up ← pow256 10 input.decimals_collateral
  a ← mul256 input.actual_repay_amount up
  down ← pow256 10 input.decimals_borrowed
  b ← div256 a down
  seize_tokens ← mul_scalar_truncate ratio b
  as_u128 seize_tokens

mul-eq-ok :
    {E : Type 0} (x y : Exp) {z : Exp}
    → mul {E = E} x y ≡ ok z
    → z.mantissa ≡ x.mantissa * y.mantissa / exp_scale
unfolding mul
mul-eq-ok x y e = ground arith

div-eq-ok :
    {E : Type 0} (x y : Exp) {z : Exp}
    → div {E = E} x y ≡ ok z
    → z.mantissa * y.mantissa ≤ x.mantissa * exp_scale
unfolding div
div-eq-ok x y e = ground (arith, div-mul-le_self (x.mantissa * exp_scale) y.mantissa)

rescaled-eq-ok :
    {E : Type 0} (n up down : ℕ) {a b : ℕ}
    → mul256 {E = E} n up ≡ ok a
    → div256 {E = E} a down ≡ ok b
    → b ≡ n * up / down
unfolding mul256 div256
rescaled-eq-ok n up down p q = ground arith

pow256-eq-ok : {E : Type 0} (a n : ℕ) {b : ℕ} → pow256 {E = E} a n ≡ ok b → b ≡ a ^ n
unfolding pow256
pow256-eq-ok a n e = ground arith

tokens-eq-ok :
    {E : Type 0} (x : Exp) (s : ℕ) {r t : ℕ}
    → mul_scalar_truncate {E = E} x s ≡ ok r
    → as_u128 {E = E} r ≡ ok t
    → t * exp_scale ≤ x.mantissa * s
unfolding mul_scalar_truncate as_u128
tokens-eq-ok x s e f = ground arith

chain_le : (t r s d n : ℕ) → t * exp_scale ≤ r * s → r * d ≤ n * exp_scale → t * d ≤ n * s
chain_le t r s d n h k =
    let first : t * d * exp_scale ≤ r * d * s = grind (arith, mul-le-mul h (le_refl d)) in
    let second : r * d * s ≤ n * s * exp_scale = grind (arith, mul-le-mul k (le_refl s)) in
    omega arith

-- The seized tokens, at the collateral's price and exchange rate, are worth at most the repaid
-- amount at its price with the liquidation incentive, both prices rounded down to 10^-18 and the
-- repayment rescaled from the borrowed asset's decimals to the collateral's.
pub liquidate_calculate_seize_tokens-le :
    {E : Type 0} (i : LiquidateCalculateSeizeTokensInput) {t : ℕ}
    → liquidate_calculate_seize_tokens {E = E} i ≡ ok t
    → t * (i.price_collateral_mantissa * i.exchange_rate_mantissa / exp_scale)
      ≤ i.liquidation_incentive_mantissa
        * i.price_borrowed_mantissa
        / exp_scale
        * (i.actual_repay_amount * 10 ^ i.decimals_collateral / 10 ^ i.decimals_borrowed)
unfolding liquidate_calculate_seize_tokens
liquidate_calculate_seize_tokens-le {E} i {t} e =
    let dc = i.decimals_collateral in
    let db = i.decimals_borrowed in
    >>=-elim (mul {E = E} _ _) _ e λ num en e1. >>=-elim (mul {E = E} _ _) _ e1 λ den ed e2.
      >>=-elim (div num den) _ e2 λ ratio er e3. >>=-elim (pow256 10 dc) _ e3 λ up eu e4.
        >>=-elim (mul256 i.actual_repay_amount up) _ e4 λ a ea e5.
          >>=-elim (pow256 10 db) _ e5 λ down ew e6. >>=-elim (div256 a down) _ e6 λ b eb e7.
            >>=-elim (mul_scalar_truncate ratio b) _ e7 λ s es e8.
              worth num den ratio up down b (mul-eq-ok _ _ en) (mul-eq-ok _ _ ed)
                (div-eq-ok num den er) (pow256-eq-ok 10 dc eu) (pow256-eq-ok 10 db ew)
                (rescaled-eq-ok _ up down ea eb) (tokens-eq-ok ratio b es e8)
  where
    worth :
        (num den ratio : Exp) (up down b : ℕ)
        → num.mantissa ≡ i.liquidation_incentive_mantissa * i.price_borrowed_mantissa / exp_scale
        → den.mantissa ≡ i.price_collateral_mantissa * i.exchange_rate_mantissa / exp_scale
        → ratio.mantissa * den.mantissa ≤ num.mantissa * exp_scale
        → up ≡ 10 ^ i.decimals_collateral
        → down ≡ 10 ^ i.decimals_borrowed
        → b ≡ i.actual_repay_amount * up / down
        → t * exp_scale ≤ ratio.mantissa * b
        → t * (i.price_collateral_mantissa * i.exchange_rate_mantissa / exp_scale)
          ≤ i.liquidation_incentive_mantissa
            * i.price_borrowed_mantissa
            / exp_scale
            * (i.actual_repay_amount * 10 ^ i.decimals_collateral / 10 ^ i.decimals_borrowed)
    worth num den ratio up down b en ed er eu ew eb et =
        let le = chain_le t ratio.mantissa b den.mantissa num.mantissa et er in
        let eb' : b
            ≡ i.actual_repay_amount * 10 ^ i.decimals_collateral / 10 ^ i.decimals_borrowed =
          eb ∙ ap₂ (λ u d. i.actual_repay_amount * u / d) eu ew in
        rw (← en, ← ed, ← eb') le

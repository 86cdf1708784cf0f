-- ===== src/Controller/Liquidity/Laws.antt =====
-- The loop of `get_hypothetical_account_liquidity` computes two sums over the account's assets.
use starlay_protocol_wasm.Prelude.{
  ℕ, ◌+◌, ◌*◌, ◌/◌, ◌^◌, ◌%◌, ◌≡◌, inl, inr, Bool-cases, Option, List, [], ◌∷◌, arith,
  if◌then◌else◌, ok, >>=-elim,
}
use starlay_protocol_wasm.Words.{u128_mod, pow128, add256, add256-eq-ok}
use starlay_protocol_wasm.Math.Exp.{
  exp_scale, Exp, mul, mul_scalar_truncate, mul_scalar_truncate_add_uint,
}
use starlay_protocol_wasm.Controller.Liquidity.{
  HypotheticalAccountLiquidityCalculationParam, GetHypotheticalAccountLiquidityInput, is_modified,
  to_flatten, get_hypothetical_account_liquidity_per_asset, add_effects, add_asset, add_assets,
  get_hypothetical_account_liquidity,
}

abbrev Param : Type 0
Param = HypotheticalAccountLiquidityCalculationParam

-- The mathematical counterparts, over unbounded numbers; each quotient is rounded down.
abbrev pub scaled : ℕ → ℕ → ℕ
scaled a b = a * b / exp_scale

abbrev pub flattened : (decimals volume : ℕ) → ℕ
flattened d v = v * exp_scale / (10 ^ d % u128_mod)

abbrev pub denom : HypotheticalAccountLiquidityCalculationParam → ℕ
denom p =
    scaled (scaled p.collateral_factor_mantissa.mantissa p.exchange_rate_mantissa.mantissa)
      p.oracle_price_mantissa.mantissa

abbrev pub collateral : HypotheticalAccountLiquidityCalculationParam → ℕ
collateral p = flattened p.decimals (scaled (denom p) p.token_balance)

abbrev pub debt : HypotheticalAccountLiquidityCalculationParam → ℕ
debt p = flattened p.decimals (scaled p.oracle_price_mantissa.mantissa p.borrow_balance)

abbrev pub effect : HypotheticalAccountLiquidityCalculationParam → (redeem borrow : ℕ) → ℕ
effect p redeem borrow =
    scaled (denom p) (flattened p.decimals redeem)
    + scaled p.oracle_price_mantissa.mantissa (flattened p.decimals borrow)

pub sum_collateral : List HypotheticalAccountLiquidityCalculationParam → ℕ
sum_collateral [] = 0
sum_collateral (p ∷ ps) = collateral p + sum_collateral ps

pub sum_debt :
    Option ℕ → (redeem borrow : ℕ) → List HypotheticalAccountLiquidityCalculationParam → ℕ
sum_debt t redeem borrow [] = 0
sum_debt t redeem borrow (p ∷ ps) =
    debt p
    + (if is_modified t p.asset then effect p redeem borrow else 0)
    + sum_debt t redeem borrow ps

add_effects-eq-ok :
    {E : Type 0} (p : HypotheticalAccountLiquidityCalculationParam) (x : Exp) (r b s : ℕ) {n : ℕ}
    → add_effects {E = E} p x r b s ≡ ok n
    → n
      ≡ s
        + (scaled x.mantissa (flattened p.decimals r)
            + scaled p.oracle_price_mantissa.mantissa (flattened p.decimals b))
unfolding add_effects mul_scalar_truncate_add_uint to_flatten pow128
add_effects-eq-ok p x r b s e = ground arith

per_asset-eq-ok :
    {E : Type 0} (p : HypotheticalAccountLiquidityCalculationParam) {r : Exp × ℕ × ℕ}
    → get_hypothetical_account_liquidity_per_asset {E = E} p.token_balance p.borrow_balance
        p.decimals p.exchange_rate_mantissa p.collateral_factor_mantissa p.oracle_price_mantissa
      ≡ ok r
    → (r.0.mantissa ≡ denom p) × (r.1 ≡ collateral p) × (r.2 ≡ debt p)
unfolding get_hypothetical_account_liquidity_per_asset mul mul_scalar_truncate to_flatten pow128
per_asset-eq-ok p e = ground arith

add_asset-eq-ok :
    {E : Type 0} (t : Option ℕ) (r b : ℕ) (p : HypotheticalAccountLiquidityCalculationParam)
    (s : ℕ × ℕ) {n : ℕ × ℕ}
    → add_asset {E = E} t r b p s ≡ ok n
    → (n.0 ≡ s.0 + collateral p)
      × (n.1 ≡ s.1 + (debt p + (if is_modified t p.asset then effect p r b else 0)))
unfolding add_asset
add_asset-eq-ok {E} t r b p s {n} e =
    >>=-elim
      (get_hypothetical_account_liquidity_per_asset {E = E} p.token_balance p.borrow_balance
        p.decimals p.exchange_rate_mantissa p.collateral_factor_mantissa p.oracle_price_mantissa)
      _ e
      λ x ex e1. >>=-elim (add256 s.0 x.1) _ e1 λ c ec e2. >>=-elim (add256 s.1 x.2) _ e2 λ d ed e3.
        let values = per_asset-eq-ok p ex in
        let left = add256-eq-ok s.0 x.1 ec in
        let right = add256-eq-ok s.1 x.2 ed in
        elim (Bool-cases (is_modified t p.asset)) [
          | inl m ↦
              >>=-elim (add_effects {E = E} p x.0 r b d) _ (rw m at e3)
                λ f ef e4. let effects = add_effects-eq-ok p x.0 r b d ef in rw (m) (ground arith)
          | inr m ↦ let done : ok (c, d) ≡ ok n = rw m at e3 in rw (m) (ground arith)
        ]

-- The two sums of a successful run.
add_assets-eq-ok :
    {E : Type 0} (t : Option ℕ) (r b : ℕ) (ps : List HypotheticalAccountLiquidityCalculationParam)
    (s : ℕ × ℕ) {n : ℕ × ℕ}
    → add_assets {E = E} t r b ps s ≡ ok n
    → (n.0 ≡ s.0 + sum_collateral ps) × (n.1 ≡ s.1 + sum_debt t r b ps)
unfolding add_assets sum_collateral sum_debt
add_assets-eq-ok t r b [] s e = ground arith
add_assets-eq-ok {E} t r b (p ∷ ps) s e = >>=-elim (add_asset {E = E} t r b p s) _ e λ m em e1.
    let first = add_asset-eq-ok t r b p s em in
    let rest = add_assets-eq-ok t r b ps m e1 in (omega arith, omega arith)

-- When the run succeeds, the collateral side is the sum of the assets' collateral values, whatever
-- is redeemed or borrowed, and the debt side is the sum of their debts and, for each entry of the
-- modified asset, the effect of the redeemed and the borrowed amount.
pub get_hypothetical_account_liquidity_sums :
    {E : Type 0} (i : GetHypotheticalAccountLiquidityInput) {c b : ℕ}
    → get_hypothetical_account_liquidity {E = E} i ≡ ok (c, b)
    → (c ≡ sum_collateral i.asset_params)
      × (b ≡ sum_debt i.token_modify i.redeem_tokens i.borrow_amount i.asset_params)
unfolding get_hypothetical_account_liquidity
get_hypothetical_account_liquidity_sums i e =
    let sums =
      add_assets-eq-ok i.token_modify i.redeem_tokens i.borrow_amount i.asset_params (0, 0) e in
    (omega arith, omega arith)

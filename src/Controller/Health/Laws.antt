-- ===== src/Controller/Health/Laws.antt =====
-- What the health factor and the decision of `balance_decrease_allowed` mean.
use starlay_protocol_wasm.Prelude.{
  ℕ, ◌+◌, ◌-◌, ◌*◌, ◌/◌, ◌≤◌, ◌<◌, ◌≡◌, ◌≢◌, refl, ◌⊎◌, inl, inr, Bool-cases, true, arith, Outcome,
  ok, err, panic, ◌==◌,
}
use starlay_protocol_wasm.Words.{u256_max, u256_mod}
use starlay_protocol_wasm.Math.Exp.{exp_scale, Exp, exp}
use starlay_protocol_wasm.Math.WadRay.{Error, wad_div}
use starlay_protocol_wasm.Math.Percent.{percent_mul, percentage_factor, half_percent}
use starlay_protocol_wasm.Math.Rounding.{Rounds, percent_mul-Rounds, wad_div-Rounds}
use starlay_protocol_wasm.Controller.Health.{
  or_else, percent, calculate_health_factor_from_balances, price_precision,
  health_factor_liquidation_threshold, BalanceDecreaseAllowedParam, balance_decrease_allowed,
}

or_else_total :
    {E F A B : Type 0} (r : Outcome F A) (o : B) (f : A → Outcome E B)
    → r ≢ panic
    → ((a : A) → (b : B) × (f a ≡ ok b))
    → (b : B) × (or_else r o f ≡ ok b)
or_else_total (ok a) o f h k = k a
or_else_total (err e) o f h k = (o, refl)
or_else_total panic o f h k = absurd (h refl)

or_else-eq-ok :
    {E F A B : Type 0} (r : Outcome F A) (o : B) (f : A → Outcome E B) {b : B}
    → or_else r o f ≡ ok b
    → (b ≡ o) ⊎ ((a : A) × (r ≡ ok a) × (f a ≡ ok b))
or_else-eq-ok (ok a) o f e = inr (a, refl, e)
or_else-eq-ok (err e) o f h = inl (cc)
or_else-eq-ok panic o f h = absurd (cc)

percent_mul-ne-panic : (p v : ℕ) → percent_mul (record { percentage = p }) v ≢ panic
percent_mul-ne-panic p v e = ground (arith, percent_mul-Rounds p v)

wad_div-ne-panic : (a b : ℕ) → b < u256_mod → wad_div (exp a) (exp b) ≢ panic
wad_div-ne-panic a b h e = ground (arith, wad_div-Rounds a b h)

-- The health factor is always computed: for a debt of 256 bits no collateral and no threshold makes
-- it panic or fail.
pub calculate_health_factor_from_balances_total :
    {E : Type 0} (collateral debt threshold : ℕ)
    → debt < u256_mod
    → (h : ℕ) × (calculate_health_factor_from_balances {E = E} collateral debt threshold ≡ ok h)
unfolding calculate_health_factor_from_balances
calculate_health_factor_from_balances_total c d t h = elim (Bool-cases (d == 0)) [
  | inl e ↦ (u256_max, rw e)
  | inr e ↦ rw e (
      or_else_total (percent_mul (percent t) c) 0 _ (percent_mul-ne-panic t c) λ m.
        or_else_total (wad_div (exp m) (exp d)) 0 _ (wad_div-ne-panic m d h)
          λ w. (w.mantissa, refl))
]

health_factor-eq-ok :
    {E : Type 0} (c d t : ℕ) {h : ℕ}
    → calculate_health_factor_from_balances {E = E} c d t ≡ ok h
    → (d ≡ 0)
      ⊎ ((h ≡ 0)
          ⊎ ((m : ℕ) × (percent_mul (percent t) c ≡ ok m)
              × (w : Exp) × (wad_div (exp m) (exp d) ≡ ok w)
              × (h ≡ w.mantissa)))
unfolding calculate_health_factor_from_balances
health_factor-eq-ok {E} c d t {h} e = elim (Bool-cases (d == 0)) [
  | inl z ↦ inl (ground arith)
  | inr z ↦ inr (elim (or_else-eq-ok {E = E} (percent_mul (percent t) c) 0 _ (rw z at e)) [
    | inl no_product ↦ inl no_product
    | inr (m, em, e1) ↦ elim (or_else-eq-ok {E = E} (wad_div (exp m) (exp d)) 0 _ e1) [
      | inl no_quotient ↦ inl no_quotient
      | inr (w, ew, e2) ↦ inr (m, em, w, ew, cc)
    ]
  ])
]

-- A health factor of at least one means that the collateral, weighted by the threshold and rounded
-- to whole units, covers the debt up to one part in 2 * 10^18 of the debt.
pub calculate_health_factor_from_balances-covers :
    {E : Type 0} (collateral debt threshold : ℕ) {h : ℕ}
    → debt < u256_mod
    → calculate_health_factor_from_balances {E = E} collateral debt threshold ≡ ok h
    → health_factor_liquidation_threshold ≤ h
    → 2 * exp_scale * debt
      ≤ 2 * exp_scale * ((collateral * threshold + half_percent) / percentage_factor) + debt
calculate_health_factor_from_balances-covers c d t {h} b e k = elim (health_factor-eq-ok c d t e) [
  | inl zero_debt ↦ omega arith
  | inr (inl zero_health) ↦ absurd (omega arith)
  | inr (inr (m, em, w, ew, e2)) ↦
      let product : Rounds (c * t) percentage_factor (ok m) = rw em at (percent_mul-Rounds t c) in
      let quotient : Rounds (m * exp_scale) d (ok w.mantissa) = rw ew at (wad_div-Rounds m d b) in
      let enough : exp_scale * d ≤ w.mantissa * d = grind arith in omega arith
]

-- The health factor at which a decrease is judged: that of the collateral and the average threshold
-- that remain.
abbrev pub Passes : BalanceDecreaseAllowedParam → Type 0
Passes p =
    let amount = p.asset_price * p.amount_in_base_currency_unit / price_precision in
    let total = p.total_collateral_in_base_currency in
    let left = total - amount in
    (amount < total)
    × (amount * p.liquidation_threshold ≤ total * p.avg_liquidation_threshold)
    × ((h : ℕ) × (calculate_health_factor_from_balances {E = Error} left
            p.total_debt_in_base_currency
            ((total * p.avg_liquidation_threshold - amount * p.liquidation_threshold) / left)
          ≡ ok h)
        × (health_factor_liquidation_threshold ≤ h))

-- A decrease is allowed only if some collateral remains, the weighted thresholds do not go below
-- zero, and the health factor of what remains is at least one.
pub balance_decrease_allowed-Passes :
    (p : BalanceDecreaseAllowedParam)
    → p.total_debt_in_base_currency < u256_mod
    → balance_decrease_allowed {E = Error} p ≡ ok true
    → Passes p
unfolding balance_decrease_allowed
balance_decrease_allowed-Passes p small e =
    let amount = p.asset_price * p.amount_in_base_currency_unit / price_precision in
    let total = p.total_collateral_in_base_currency in
    let weighted = total * p.avg_liquidation_threshold - amount * p.liquidation_threshold in
    let left = total - amount in
    let (h, eh) =
      calculate_health_factor_from_balances_total {E = Error} left p.total_debt_in_base_currency
        (weighted / left) small in
    (ground arith, ground arith, (h, eh, ground arith))

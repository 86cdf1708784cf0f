-- ===== src/Leverager/Views/Laws/Leaving.antt =====
-- The health factor that a withdrawal leaves behind, logics/impls/leverager.rs.
use starlay_protocol_wasm.Prelude.{
  ℕ, ◌+◌, ◌-◌, ◌*◌, ◌/◌, ◌≤◌, ◌<◌, ◌≡◌, sym, ap, ◌∙◌, arith, false, ◌==◌, ok, ok-injective,
}
use native.Mathlib.Nat.{div-mul-le_self}
use starlay_protocol_wasm.Words.{
  u128_mod, u256_mod, u256_max, add256, mul256, div256, sub256, div_le,
}
use starlay_protocol_wasm.Math.Exp.{exp_scale, exp}
use starlay_protocol_wasm.Math.Percent.{percent_mul, percentage_factor, half_percent}
use starlay_protocol_wasm.Math.WadRay.{wad_div}
use starlay_protocol_wasm.Controller.Account.{AccountData}
use starlay_protocol_wasm.Controller.Health.{
  price_precision, or_else, calculate_health_factor_from_balances,
}
use starlay_protocol_wasm.Controller.Health.Laws.{calculate_health_factor_from_balances_total}
use starlay_protocol_wasm.Leverager.Views.{health_after}

-- What a health factor reads of the collateral that a withdrawal leaves.
record Leaves (a : AccountData) (threshold price n : ℕ) : Type 0 where
  pub collateral : ℕ
  pub collateral_is : collateral + price * n / price_precision ≡ a.total_collateral_in_base_currency
  pub some_left : 0 < collateral
  pub fits : price * n < u256_mod
  pub weighs : a.avg_liquidation_threshold * a.total_collateral_in_base_currency < u256_mod
  pub withdraws :
      threshold * (price * n / price_precision)
      ≤ a.avg_liquidation_threshold * a.total_collateral_in_base_currency

abbrev threshold_after : (a : AccountData) (threshold price n collateral : ℕ) → ℕ
threshold_after a threshold price n collateral =
    (a.avg_liquidation_threshold * a.total_collateral_in_base_currency
      - threshold * (price * n / price_precision))
    / collateral

health_after-Leaves :
    {E : Type 0} (a : AccountData) (threshold price n : ℕ) {h : ℕ}
    → health_after {E = E} a threshold price n ≡ ok h
    → Leaves a threshold price n
unfolding health_after mul256 div256 sub256
health_after-Leaves a threshold price n e = record {
  collateral = a.total_collateral_in_base_currency - price * n / price_precision;
  collateral_is = ground arith;
  some_left = ground arith;
  fits = ground arith;
  weighs = ground arith;
  withdraws = ground arith;
}

Leaves-health_after :
    {E : Type 0} (a : AccountData) (threshold price n : ℕ) (l : Leaves a threshold price n)
    → health_after {E = E} a threshold price n
      ≡ calculate_health_factor_from_balances l.collateral a.total_debt_in_base_currency
          (threshold_after a threshold price n l.collateral)
unfolding health_after mul256 div256 sub256
Leaves-health_after a threshold price n l =
    ground (arith, l.collateral_is, l.some_left, l.fits, l.weighs, l.withdraws)

-- A smaller withdrawal leaves more.
Leaves-less :
    (a : AccountData) (threshold price n m : ℕ)
    → m ≤ n
    → Leaves a threshold price n
    → Leaves a threshold price m
Leaves-less a threshold price n m h l =
    let cheaper : price * m ≤ price * n = grind arith in
    let less : price * m / price_precision ≤ price * n / price_precision = omega arith in
    let weighs_less : threshold * (price * m / price_precision)
        ≤ threshold * (price * n / price_precision) =
      grind arith in
    record {
      collateral = a.total_collateral_in_base_currency - price * m / price_precision;
      collateral_is = omega (arith, l.collateral_is);
      some_left = omega (arith, l.collateral_is, l.some_left);
      fits = omega (arith, l.fits);
      weighs = l.weighs;
      withdraws = omega (arith, l.withdraws);
    }

-- A withdrawal that is smaller than one with a health factor has one too.
pub health_after_below :
    {E : Type 0} (a : AccountData) (threshold price n m : ℕ) {h : ℕ}
    → a.total_debt_in_base_currency < u256_mod
    → health_after {E = E} a threshold price n ≡ ok h
    → m ≤ n
    → (k : ℕ) × (health_after {E = E} a threshold price m ≡ ok k)
health_after_below {E} a threshold price n m small e le =
    let l = Leaves-less a threshold price n m le (health_after-Leaves a threshold price n e) in
    let (k, ek) =
      calculate_health_factor_from_balances_total {E = E} l.collateral a.total_debt_in_base_currency
        (threshold_after a threshold price m l.collateral) small in
    (k, Leaves-health_after a threshold price m l ∙ ek)

-- The parts of a health factor, for numbers of 128 bits.
le_div : (n a b : ℕ) → 0 < b → a * b ≤ n → a ≤ n / b
le_div n a b h k = grind arith

weighted_value :
    (c t : ℕ)
    → c * t < u128_mod
    → percent_mul (record { percentage = t }) c ≡ ok ((c * t + half_percent) / percentage_factor)
unfolding percent_mul add256 sub256 mul256 div256
weighted_value c t fits = ground (arith, le_div (u256_max - half_percent) c t)

ratio_value :
    (m d : ℕ)
    → m < u128_mod
    → 0 < d
    → d < u128_mod
    → wad_div (exp m) (exp d) ≡ ok (exp ((m * exp_scale + d / 2) / d))
unfolding wad_div add256 sub256 mul256 div256
ratio_value m d fits pos small = ground arith

health_factor_value :
    {E : Type 0} (c d t : ℕ)
    → 0 < d
    → d < u128_mod
    → c * t < u128_mod
    → calculate_health_factor_from_balances {E = E} c d t
      ≡ ok (((c * t + half_percent) / percentage_factor * exp_scale + d / 2) / d)
unfolding calculate_health_factor_from_balances
health_factor_value {E} c d t pos small fits =
    let some_debt : (d == 0) ≡ false = ground arith in
    let m = (c * t + half_percent) / percentage_factor in
    rw some_debt (
      ap (λ o. or_else {E = E} o 0 (λ m. or_else (wad_div (exp m) (exp d)) 0 λ w. ok w.mantissa))
        (weighted_value c t fits)
      ∙ ap (λ o. or_else {E = E} o 0 (λ w. ok w.mantissa))
          (ratio_value m d (omega arith) pos small))

-- The weighted collateral that is left, rounded down.
Leaves-le :
    (a : AccountData) (threshold price n : ℕ) (l : Leaves a threshold price n)
    → l.collateral * threshold_after a threshold price n l.collateral
      ≤ a.avg_liquidation_threshold * a.total_collateral_in_base_currency
Leaves-le a threshold price n l =
    let rest =
      a.avg_liquidation_threshold * a.total_collateral_in_base_currency
      - threshold * (price * n / price_precision) in
    let down = div-mul-le_self rest l.collateral in
    let turned : l.collateral * (rest / l.collateral) ≡ rest / l.collateral * l.collateral =
      grind arith in
    omega arith

exact : (c g : ℕ) → 0 < c → c * (g * c / c) ≡ g * c
exact c g h = grind arith

Leaves-all :
    (a : AccountData) (threshold price : ℕ) (l : Leaves a threshold price 0)
    → l.collateral * threshold_after a threshold price 0 l.collateral
      ≡ a.avg_liquidation_threshold * a.total_collateral_in_base_currency
Leaves-all a threshold price l =
    let total : l.collateral ≡ a.total_collateral_in_base_currency =
      omega (arith, l.collateral_is) in
    let free : price * 0 / price_precision ≡ 0 = omega arith in
    let nothing : threshold * (price * 0 / price_precision) ≡ 0 = rw free (omega arith) in
    let whole : a.avg_liquidation_threshold * a.total_collateral_in_base_currency
          - threshold * (price * 0 / price_precision)
        ≡ a.avg_liquidation_threshold * a.total_collateral_in_base_currency =
      omega arith in
    rw (whole, total)
      (exact a.total_collateral_in_base_currency a.avg_liquidation_threshold
        (omega (arith, total, l.some_left)))

-- No withdrawal leaves more health than none at all.
pub health_after-le :
    {E : Type 0} (a : AccountData) (threshold price n : ℕ) {h k : ℕ}
    → 0 < a.total_debt_in_base_currency
    → a.total_debt_in_base_currency < u128_mod
    → a.avg_liquidation_threshold * a.total_collateral_in_base_currency < u128_mod
    → health_after {E = E} a threshold price 0 ≡ ok h
    → health_after {E = E} a threshold price n ≡ ok k
    → k ≤ h
health_after-le {E} a threshold price n {h} {k} pos small fits eh ek =
    let debt = a.total_debt_in_base_currency in
    let l0 = health_after-Leaves a threshold price 0 eh in
    let l = health_after-Leaves a threshold price n ek in
    let t0 = threshold_after a threshold price 0 l0.collateral in
    let t = threshold_after a threshold price n l.collateral in
    let all : l0.collateral * t0
        ≡ a.avg_liquidation_threshold * a.total_collateral_in_base_currency =
      Leaves-all a threshold price l0 in
    let less : l.collateral * t
        ≤ a.avg_liquidation_threshold * a.total_collateral_in_base_currency =
      Leaves-le a threshold price n l in
    let v0 =
      sym (
        Leaves-health_after a threshold price 0 l0
        ∙ health_factor_value {E = E} l0.collateral debt t0 pos small (omega arith))
      ∙ eh in
    let v =
      sym (
        Leaves-health_after a threshold price n l
        ∙ health_factor_value {E = E} l.collateral debt t pos small (omega arith))
      ∙ ek in
    let rounded : (l.collateral * t + half_percent) / percentage_factor
        ≤ (l0.collateral * t0 + half_percent) / percentage_factor =
      div_le _ _ percentage_factor (omega arith) in
    let below =
      div_le ((l.collateral * t + half_percent) / percentage_factor * exp_scale + debt / 2)
        ((l0.collateral * t0 + half_percent) / percentage_factor * exp_scale + debt / 2) debt
        (omega (arith, rounded)) in
    omega (arith, ok-injective v0, ok-injective v, below)

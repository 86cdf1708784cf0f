-- ===== src/Leverager/Views/Laws.antt =====
-- What the leverager's health factors mean to the controller, and what its search for an amount finds,
-- logics/impls/leverager.rs.
pub mod Withdrawing
pub mod Leaving
pub mod Searching
use starlay_protocol_wasm.Prelude.{
  ℕ, ◌-◌, ◌*◌, ◌/◌, ◌≤◌, ◌<◌, ◌≡◌, ◌⊎◌, inl, inr, ◌∙◌, arith, false, ◌||◌, leb, ◌==◌, if◌then◌else◌,
  zero, suc, Outcome, ok, ◌>>=◌, >>=-elim, ok-injective, Bool-cases,
}
use mathlib.Core.Path.{subst}
use starlay_protocol_wasm.Words.{mul256, div256, sub256, as_u128}
use starlay_protocol_wasm.Controller.Account.{AccountData}
use starlay_protocol_wasm.Controller.Errors.{Error}
use starlay_protocol_wasm.Controller.Health.{
  health_factor_liquidation_threshold, BalanceDecreaseAllowedParam, balance_decrease_allowed,
}
use starlay_protocol_wasm.Leverager.Views.{
  health_factor_limit, health_after, shrink, liquidation_threshold,
}

-- A withdrawal as the controller judges it.
abbrev pub decrease_of : AccountData → (threshold price amount : ℕ) → BalanceDecreaseAllowedParam
decrease_of a threshold price amount = record {
  asset_price = price;
  amount_in_base_currency_unit = amount;
  total_collateral_in_base_currency = a.total_collateral_in_base_currency;
  avg_liquidation_threshold = a.avg_liquidation_threshold;
  liquidation_threshold = threshold;
  total_debt_in_base_currency = a.total_debt_in_base_currency;
}

-- Where the leverager finds a health factor, the controller's decision on the same withdrawal is whether
-- this health factor is at least one.
pub health_after_agrees :
    (a : AccountData) (threshold price amount : ℕ) {h : ℕ}
    → health_after {E = Error} a threshold price amount ≡ ok h
    → balance_decrease_allowed {E = Error} (decrease_of a threshold price amount)
      ≡ ok (leb health_factor_liquidation_threshold h)
unfolding health_after balance_decrease_allowed mul256 div256 sub256
health_after_agrees a threshold price amount e = ground arith

pub as_u128-eq-ok : {E : Type 0} (n : ℕ) {m : ℕ} → as_u128 {E = E} n ≡ ok m → m ≡ n
unfolding as_u128
as_u128-eq-ok n e = ground arith

shorter :
    {E : Type 0} (amount : ℕ) {x less : ℕ}
    → mul256 {E = E} amount 95 ≡ ok x
    → div256 {E = E} x 100 ≡ ok less
    → less ≤ amount
unfolding mul256 div256
shorter amount e f = ground arith

found :
    {E : Type 0} (health : ℕ → Outcome E ℕ) (amount h : ℕ) {v : ℕ}
    → health amount ≡ ok h
    → leb h health_factor_limit ≡ false
    → amount ≡ v
    → (v ≤ amount) × ((k : ℕ) × (health v ≡ ok k) × (health_factor_limit < k))
found health amount h eh high same =
    subst (λ u. (u ≤ amount) × ((k : ℕ) × (health u ≡ ok k) × (health_factor_limit < k))) same
      (omega arith, (h, eh, ground arith))

-- The search ends with an amount that is not larger, and whose health factor is above the limit.
pub shrink-eq-ok :
    {E : Type 0} (health : ℕ → Outcome E ℕ) (rounds amount h : ℕ) {v : ℕ}
    → health amount ≡ ok h
    → shrink health rounds amount h ≡ ok v
    → (v ≤ amount) × ((k : ℕ) × (health v ≡ ok k) × (health_factor_limit < k))
unfolding shrink
shrink-eq-ok health zero amount h {v} eh e = elim (Bool-cases (leb h health_factor_limit)) [
  | inl low ↦ absurd (cc (rw (low, shrink) at e))
  | inr high ↦ found health amount h eh high (ok-injective (rw (high, shrink) at e))
]
shrink-eq-ok health (suc rounds) amount h {v} eh e = elim (Bool-cases (leb h health_factor_limit)) [
  | inr high ↦ found health amount h eh high (ok-injective (rw (high, shrink) at e))
  | inl low ↦ >>=-elim (mul256 amount 95) _ (rw (low, shrink) at e) λ x ex e1.
      >>=-elim (div256 x 100) _ e1 λ less el e2. >>=-elim (as_u128 less) _ e2 λ w ew e3.
        >>=-elim (health w) _ e3 λ k ek e4.
          let same = as_u128-eq-ok less ew in
          let smaller = shorter amount ex el in
          let (le, rest) =
            shrink-eq-ok health rounds less k (subst (λ u. health u ≡ ok k) same ek) e4 in
          (omega arith, rest)
]

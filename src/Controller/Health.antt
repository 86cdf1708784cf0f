-- ===== src/Controller/Health.antt =====
-- Health factors and what they allow, logics/impls/controller/utils.rs.
pub mod Laws
use starlay_protocol_wasm.Prelude.{
  ℕ, ◌^◌, Bool, false, ltb, leb, ◌==◌, if◌then◌else◌, Outcome, ok, err, panic, ◌>>=◌,
}
use starlay_protocol_wasm.Words.{u256_max, sub256, mul256, div256}
use starlay_protocol_wasm.Math.Exp.{exp}
use starlay_protocol_wasm.Math.WadRay.{wad_div}
use starlay_protocol_wasm.Math.Percent.{Percent, percent_mul}

abbrev pub health_factor_liquidation_threshold : ℕ
health_factor_liquidation_threshold = 10 ^ 18

-- `PRICE_PRECISION` of logics/impls/price_oracle.rs
abbrev pub price_precision : ℕ
price_precision = 10 ^ 18

abbrev percent : ℕ → Percent
percent p = record { percentage = p }

-- `is_err()` and an early return of `otherwise`, then `unwrap()`.
abbrev pub or_else : {E F A B : Type 0} → Outcome F A → B → (A → Outcome E B) → Outcome E B
or_else (ok a) otherwise f = f a
or_else (err e) otherwise f = ok otherwise
or_else panic otherwise f = panic

module _ {E : Type 0} where
  unfoldable pub calculate_health_factor_from_balances :
      (total_collateral total_debt liquidation_threshold : ℕ) → Outcome E ℕ
  calculate_health_factor_from_balances total_collateral total_debt liquidation_threshold =
      if total_debt == 0
      then ok u256_max
      else or_else (percent_mul (percent liquidation_threshold) total_collateral) 0
          λ m. or_else (wad_div (exp m) (exp total_debt)) 0 λ w. ok w.mantissa

  pub calculate_available_borrow_in_base_currency :
      (total_collateral total_debt ltv : ℕ) → Outcome E ℕ
  unfolding sub256
  calculate_available_borrow_in_base_currency total_collateral total_debt ltv =
      or_else (percent_mul (percent ltv) total_collateral) 0
        λ available. if ltb available total_debt then ok 0 else sub256 available total_debt

pub record BalanceDecreaseAllowedParam : Type 0 where
  pub asset_price : ℕ
  pub amount_in_base_currency_unit : ℕ
  pub total_collateral_in_base_currency : ℕ
  pub avg_liquidation_threshold : ℕ
  pub liquidation_threshold : ℕ
  pub total_debt_in_base_currency : ℕ

unfoldable pub balance_decrease_allowed :
    {E : Type 0} → BalanceDecreaseAllowedParam → Outcome E Bool
unfolding sub256 mul256 div256
balance_decrease_allowed param = do
  v ← mul256 param.asset_price param.amount_in_base_currency_unit
  amount ← div256 v price_precision
  let total = param.total_collateral_in_base_currency
  if ltb total amount then ok false else do
    collateral_after ← sub256 total amount
    if collateral_after == 0 then ok false else do
      a ← mul256 total param.avg_liquidation_threshold
      b ← mul256 amount param.liquidation_threshold
      d ← sub256 a b
      threshold_after ← div256 d collateral_after
      health ←
          calculate_health_factor_from_balances collateral_after param.total_debt_in_base_currency
            threshold_after
      ok (leb health_factor_liquidation_threshold health)

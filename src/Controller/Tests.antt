-- ===== src/Controller/Tests.antt =====
-- Runs of the controller's calculations at concrete numbers, for logics/impls/controller/utils.rs.
pub mod Allowed
pub mod Markets
use starlay_protocol_wasm.Prelude.{ℕ, ◌+◌, ◌*◌, ◌/◌, ◌^◌, ◌≤◌, ◌≡◌, refl, arith, ◌∷◌}
use starlay_protocol_wasm.Math.Exp.{exp_scale, mul, div, mul_scalar_truncate}
use starlay_protocol_wasm.Math.WadRay.{wad_div}
use starlay_protocol_wasm.Words.{mul256, div256, pow256, as_u128}
use starlay_protocol_wasm.Math.Percent.{percentage_factor, half_percent, percent_mul}
use starlay_protocol_wasm.Controller.Errors.{Error}
use starlay_protocol_wasm.Controller.Health.{
  BalanceDecreaseAllowedParam, calculate_health_factor_from_balances, balance_decrease_allowed,
}
use starlay_protocol_wasm.Controller.Health.Laws.{
  Passes, calculate_health_factor_from_balances-covers, balance_decrease_allowed-Passes,
}
use starlay_protocol_wasm.Controller.SeizeTokens.{
  LiquidateCalculateSeizeTokensInput, liquidate_calculate_seize_tokens,
  liquidate_calculate_seize_tokens-le,
}

calculate_health_factor_from_balances-covers_example :
    2 * exp_scale * 1000 ≤ 2 * exp_scale * ((3000 * 8000 + half_percent) / percentage_factor) + 1000
unfolding calculate_health_factor_from_balances percent_mul wad_div
calculate_health_factor_from_balances-covers_example =
    calculate_health_factor_from_balances-covers {E = Error} 3000 1000 8000 (omega arith) refl
      (omega arith)

abbrev decrease : ℕ → BalanceDecreaseAllowedParam
decrease amount = record {
  asset_price = exp_scale;
  amount_in_base_currency_unit = amount;
  total_collateral_in_base_currency = 3000;
  avg_liquidation_threshold = 8000;
  liquidation_threshold = 8000;
  total_debt_in_base_currency = 1000;
}

balance_decrease_allowed-Passes_example : Passes (decrease 1000)
unfolding balance_decrease_allowed calculate_health_factor_from_balances percent_mul wad_div
balance_decrease_allowed-Passes_example =
    balance_decrease_allowed-Passes (decrease 1000) (omega arith) refl

abbrev liquidation : LiquidateCalculateSeizeTokensInput
liquidation = record {
  price_borrowed_mantissa = 3 * exp_scale;
  decimals_borrowed = 6;
  price_collateral_mantissa = 2 * exp_scale;
  decimals_collateral = 8;
  exchange_rate_mantissa = exp_scale;
  liquidation_incentive_mantissa = exp_scale * 108 / 100;
  actual_repay_amount = 1000000;
}

liquidate_calculate_seize_tokens-le_example :
    162000000 * (2 * exp_scale * exp_scale / exp_scale)
    ≤ exp_scale * 108 / 100 * (3 * exp_scale) / exp_scale * (1000000 * 10 ^ 8 / 10 ^ 6)
unfolding liquidate_calculate_seize_tokens mul div pow256 mul256 div256 mul_scalar_truncate as_u128
liquidate_calculate_seize_tokens-le_example =
    liquidate_calculate_seize_tokens-le {E = Error} liquidation refl

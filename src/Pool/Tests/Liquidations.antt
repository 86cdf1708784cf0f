-- ===== src/Pool/Tests/Liquidations.antt =====
-- A liquidation in a pool under the controller with two markets, for logics/impls/pool/mod.rs and
-- logics/impls/controller/mod.rs.
use starlay_protocol_wasm.Prelude.{refl, [], none, if◌then◌else◌, ◌==◌}
use starlay_protocol_wasm.Prelude.Lists.{mem}
use starlay_protocol_wasm.Words.{
  add128, sub128, add256, sub256, mul256, div256, pow128, pow256, as_u128,
}
use starlay_protocol_wasm.Math.Exp.{
  to_ray, truncate, mul, div, mul_scalar_truncate, mul_scalar_truncate_add_uint,
}
use starlay_protocol_wasm.Math.Percent.{percent_mul}
use starlay_protocol_wasm.Math.WadRay.{ray_div, ray_mul, wad_div}
use starlay_protocol_wasm.Controller.Health.{calculate_health_factor_from_balances}
use starlay_protocol_wasm.Controller.Liquidity.{
  to_flatten, add_effects, add_asset, get_hypothetical_account_liquidity_per_asset,
  get_hypothetical_account_liquidity,
}
use starlay_protocol_wasm.Controller.SeizeTokens.{liquidate_calculate_seize_tokens}
use starlay_protocol_wasm.Controller.Markets.{is_listed}
use starlay_protocol_wasm.Controller.Account.{
  add_collateral, add_debt, price_of, load_caller, add_position, add_market, add_markets, average,
  user_account_data, hypothetical_liquidity,
}
use starlay_protocol_wasm.Controller.Allowed.{
  debt_of, liquidate_borrow_allowed, repay_borrow_allowed, seize_allowed, side_of,
  calculate_seize_tokens,
}
use starlay_protocol_wasm.Controller.Tests.Allowed.{two_markets, crash}
use starlay_protocol_wasm.Pool.State.{State}
use starlay_protocol_wasm.Pool.Scaled.{scaled_amount_of, from_scaled_amount}
use starlay_protocol_wasm.Pool.Exchange.{exchange_rate, protocol_seize_amount}
use starlay_protocol_wasm.Pool.Views.{
  using_reserve_as_collateral, get_account_snapshot, exchange_rate_stored, pool_attributes,
  get_cash_prior, borrow_balance_stored, total_borrows, total_reserves,
}
use starlay_protocol_wasm.Pool.Accrual.{accrue_reward, assert_fresh, transfer_underlying_from}
use starlay_protocol_wasm.Pool.Lending.{repay_borrow_inner, increase_debt}
use starlay_protocol_wasm.Pool.Liquidation.{
  raise_reserves, lower_supply, seize_inner, check_liquidation, seize_here, liquidate_borrow_inner,
}
use starlay_protocol_wasm.Pool.Governed.{governed}
use starlay_protocol_wasm.Pool.Governed.Liquidations.{
  LiquidationIsSafe, liquidate_borrow_inner-LiquidationIsSafe,
}
use starlay_protocol_wasm.Pool.Tests.World.{lib, contracts, ctx, pool_data}

-- Account 5 owes 500, and its collateral of the other pool has lost half its value. It has 1000 tokens of
-- this pool too, which it does not use as collateral.
abbrev short : State lib (governed contracts (λ w c. two_markets) (λ w. crash))
short = record {
  pool = pool_data;
  token = record { total = 1000500; balances = λ u. if u == 5 then 1000 else 0 };
  name = none;
  symbol = none;
  decimals = 6;
  world = tt;
  events = [];
}

liquidate_borrow_inner-LiquidationIsSafe_example :
    LiquidationIsSafe lib contracts ctx (λ w c. two_markets) (λ w. crash) 6 5 200 10 short
unfolding liquidate_borrow_inner check_liquidation seize_here seize_inner raise_reserves
    lower_supply repay_borrow_inner increase_debt transfer_underlying_from protocol_seize_amount
    liquidate_borrow_allowed repay_borrow_allowed seize_allowed debt_of side_of
    calculate_seize_tokens liquidate_calculate_seize_tokens is_listed mem hypothetical_liquidity
    accrue_reward get_account_snapshot using_reserve_as_collateral exchange_rate_stored
    exchange_rate pool_attributes assert_fresh get_cash_prior borrow_balance_stored total_borrows
    total_reserves scaled_amount_of from_scaled_amount to_ray ray_div ray_mul as_u128 add128 sub128
    user_account_data load_caller add_collateral add_debt price_of add_market add_markets
    add_position average calculate_health_factor_from_balances add256 sub256 mul256 div256
    percent_mul wad_div get_hypothetical_account_liquidity add_asset
    get_hypothetical_account_liquidity_per_asset mul div truncate mul_scalar_truncate to_flatten
    pow128 pow256 add_effects mul_scalar_truncate_add_uint
liquidate_borrow_inner-LiquidationIsSafe_example =
    liquidate_borrow_inner-LiquidationIsSafe lib contracts ctx (λ w c. two_markets) (λ w. crash) 6 5
      200 10 short _ refl

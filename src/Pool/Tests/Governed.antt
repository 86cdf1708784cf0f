-- ===== src/Pool/Tests/Governed.antt =====
-- Runs of a pool under the controller with two markets, for logics/impls/pool/mod.rs and
-- logics/impls/controller/mod.rs.
use starlay_protocol_wasm.Prelude.{refl, arith, [], true, none, some, if◌then◌else◌, ◌==◌}
use starlay_protocol_wasm.Words.{add128, sub128, add256, sub256, mul256, div256, pow128, as_u128}
use starlay_protocol_wasm.Math.Exp.{to_ray, mul, mul_scalar_truncate, mul_scalar_truncate_add_uint}
use starlay_protocol_wasm.Math.Percent.{percent_mul}
use starlay_protocol_wasm.Math.WadRay.{ray_div, ray_mul, wad_div}
use starlay_protocol_wasm.Controller.Health.{
  calculate_health_factor_from_balances, balance_decrease_allowed,
}
use starlay_protocol_wasm.Controller.Liquidity.{
  to_flatten, add_effects, add_asset, get_hypothetical_account_liquidity_per_asset,
  get_hypothetical_account_liquidity,
}
use starlay_protocol_wasm.Controller.Account.{
  add_collateral, add_debt, price_of, load_caller, add_position, add_market, add_markets, average,
  user_account_data, hypothetical_liquidity,
}
use starlay_protocol_wasm.Controller.Allowed.{
  redeem_allowed, market_state, check_borrow_cap, borrow_allowed,
}
use starlay_protocol_wasm.Controller.Tests.Allowed.{two_markets, peers}
use starlay_protocol_wasm.Pool.State.{State}
use starlay_protocol_wasm.Pool.Scaled.{scaled_amount_of, from_scaled_amount}
use starlay_protocol_wasm.Pool.Exchange.{exchange_rate}
use starlay_protocol_wasm.Pool.Views.{
  using_reserve_as_collateral, get_account_snapshot, exchange_rate_stored, pool_attributes,
  get_cash_prior, borrow_balance_stored, total_borrows, total_reserves, balance_of,
  principal_balance_of,
}
use starlay_protocol_wasm.Pool.Accrual.{accrue_reward, assert_fresh, transfer_underlying}
use starlay_protocol_wasm.Pool.Lending.{
  consent_to_borrow, consent_to_redeem, redeem_checked, borrow_inner, increase_debt,
}
use starlay_protocol_wasm.Pool.Governed.{governed}
use starlay_protocol_wasm.Pool.Governed.Laws.{
  LoanIsSafe, RedemptionIsSafe, borrow_inner-LoanIsSafe, redeem_checked-RedemptionIsSafe,
}
use starlay_protocol_wasm.Pool.Tests.World.{lib, contracts, ctx, pool_data}

abbrev here : State lib (governed contracts (λ w c. two_markets) (λ w. peers))
here = record {
  pool = pool_data;
  token = record { total = 0; balances = λ u. 0 };
  name = none;
  symbol = none;
  decimals = 6;
  world = tt;
  events = [];
}

borrow_inner-LoanIsSafe_example :
    LoanIsSafe lib contracts ctx (λ w c. two_markets) (λ w. peers) 5 90 here
unfolding borrow_inner consent_to_borrow borrow_allowed market_state check_borrow_cap sub128
    hypothetical_liquidity accrue_reward get_account_snapshot using_reserve_as_collateral
    exchange_rate_stored exchange_rate pool_attributes assert_fresh get_cash_prior
    transfer_underlying borrow_balance_stored total_borrows total_reserves increase_debt
    scaled_amount_of from_scaled_amount to_ray ray_div ray_mul as_u128 add128 user_account_data
    load_caller add_collateral add_debt price_of add_market add_markets add_position average
    calculate_health_factor_from_balances add256 mul256 div256 percent_mul wad_div sub256
    get_hypothetical_account_liquidity add_asset get_hypothetical_account_liquidity_per_asset mul
    mul_scalar_truncate to_flatten pow128 add_effects mul_scalar_truncate_add_uint
borrow_inner-LoanIsSafe_example =
    borrow_inner-LoanIsSafe lib contracts ctx (λ w c. two_markets) (λ w. peers) 5 90 true here _
      (λ w c p. omega arith) refl

-- Account 5 has 1000 of the pool's tokens, which are worth one unit each, as collateral.
abbrev deposited : State lib (governed contracts (λ w c. two_markets) (λ w. peers))
deposited = record here {
  pool = record pool_data { using_reserve_as_collateral = λ u. some true };
  token = record { total = 1000500; balances = λ u. if u == 5 then 1000 else 0 };
}

redeem_checked-RedemptionIsSafe_example :
    RedemptionIsSafe lib contracts ctx (λ w c. two_markets) (λ w. peers) 5 100 deposited
unfolding redeem_checked consent_to_redeem redeem_allowed balance_decrease_allowed balance_of
    principal_balance_of accrue_reward get_account_snapshot using_reserve_as_collateral
    exchange_rate_stored exchange_rate pool_attributes assert_fresh get_cash_prior
    transfer_underlying borrow_balance_stored total_borrows total_reserves increase_debt
    scaled_amount_of from_scaled_amount to_ray ray_div ray_mul as_u128 add128 user_account_data
    load_caller add_collateral add_debt price_of add_market add_markets add_position average
    calculate_health_factor_from_balances add256 mul256 div256 percent_mul wad_div sub256
    get_hypothetical_account_liquidity add_asset get_hypothetical_account_liquidity_per_asset mul
    mul_scalar_truncate to_flatten pow128 add_effects mul_scalar_truncate_add_uint
redeem_checked-RedemptionIsSafe_example =
    redeem_checked-RedemptionIsSafe lib contracts ctx (λ w c. two_markets) (λ w. peers) 5 100
      deposited _ refl

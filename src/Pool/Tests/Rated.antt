-- ===== src/Pool/Tests/Rated.antt =====
-- The rates of a pool behind its deployment and a first loan, for logics/impls/pool/mod.rs and
-- logics/impls/interest_rate_model.rs.
use starlay_protocol_wasm.Prelude.{ℕ, ◌≤◌, ◌≡◌, refl, arith, ok, some, []}
use starlay_protocol_wasm.Words.{add128, as_u128, add256, sub256, mul256, div256}
use starlay_protocol_wasm.Math.Exp.{to_ray}
use starlay_protocol_wasm.Math.WadRay.{ray_div, ray_mul}
use starlay_protocol_wasm.Rates.{Model, utilization_rate, rate_up_to_kink, borrow_rate}
use starlay_protocol_wasm.Pool.State.{State}
use starlay_protocol_wasm.Pool.Calls.{Call, run, History}
use starlay_protocol_wasm.Pool.Scaled.{scaled_amount_of, from_scaled_amount}
use starlay_protocol_wasm.Pool.Exchange.{exchange_rate}
use starlay_protocol_wasm.Pool.Views.{
  using_reserve_as_collateral, get_account_snapshot, exchange_rate_stored, pool_attributes,
  get_cash_prior, borrow_balance_stored, borrow_rate_per_msec, total_borrows, total_reserves,
}
use starlay_protocol_wasm.Pool.Queries.{supply_rate_per_msec}
use starlay_protocol_wasm.Pool.Accrual.{
  accrue_interest, accrue_interest_at, accrue_reward, assert_fresh, transfer_underlying,
}
use starlay_protocol_wasm.Pool.Lending.{consent_to_borrow, borrow_inner, borrow, increase_debt}
use starlay_protocol_wasm.Pool.Deployment.{
  check_accounts, fresh, initialize, new_from_asset, default,
}
use starlay_protocol_wasm.Pool.Deployment.Laws.{Made}
use starlay_protocol_wasm.Pool.Rated.{get_supply_rate, rated}
use starlay_protocol_wasm.Pool.Rated.Laws.{deployed_rates_ordered}
use starlay_protocol_wasm.Pool.Tests.Deployment as Deployment
use starlay_protocol_wasm.Pool.Tests.World.{lib, contracts, ctx}

abbrev model : Model
model = record {
  multiplier_per_milli_second_slope_1 = 4000000;
  multiplier_per_milli_second_slope_2 = 60000000;
  base_rate_per_milli_second = 1000000;
  kink = 800000000000000000;
}

abbrev models : Unit {0} → (account : ℕ) → Model
models w account = model

abbrev made : State lib (rated contracts models)
made = record {
  pool = Deployment.made.pool;
  token = Deployment.no_tokens;
  name = Deployment.made.name;
  symbol = Deployment.made.symbol;
  decimals = 6;
  world = tt;
  events = [];
}

made_from_asset :
    Made lib (rated contracts models) Deployment.no_tokens tt ctx Deployment.arguments made
unfolding new_from_asset check_accounts initialize fresh default
made_from_asset = Made.from_asset (λ u. some "Token") (λ u. some "TKN") (λ u. 6) refl

abbrev lent : State lib (rated contracts models)
lent = record made { pool = Deployment.lent.pool; events = Deployment.lent.events }

loan-History : History lib (rated contracts models) made lent
unfolding run borrow accrue_interest accrue_interest_at borrow_inner consent_to_borrow accrue_reward
    get_account_snapshot using_reserve_as_collateral exchange_rate_stored exchange_rate
    pool_attributes assert_fresh get_cash_prior transfer_underlying borrow_balance_stored
    total_borrows total_reserves increase_debt scaled_amount_of from_scaled_amount to_ray ray_div
    ray_mul as_u128 add128
loan-History = History.called ctx (Call.borrow 200) History.here refl

deployed_rates_ordered_example :
    (paid : ℕ) × (supply_rate_per_msec lib
        (rated contracts models)
        ctx
        (get_supply_rate contracts models)
        lent
      ≡ ok paid)
    × (paid ≤ 1000799)
unfolding borrow_rate_per_msec get_cash_prior total_borrows total_reserves from_scaled_amount to_ray
    ray_mul as_u128 add256 sub256 mul256 div256 utilization_rate rate_up_to_kink borrow_rate
deployed_rates_ordered_example =
    deployed_rates_ordered lib contracts models Deployment.no_tokens tt ctx ctx Deployment.arguments
      made lent 0 1000799 made_from_asset loan-History refl (omega arith) refl (omega arith)

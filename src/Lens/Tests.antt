-- ===== src/Lens/Tests.antt =====
-- The lens of contracts/lens/lib.rs over a controller with one market, in a world that counts accruals.
use starlay_protocol_wasm.Prelude.{
  ℕ, ◌+◌, ◌≡◌, refl, true, false, none, some, [], ◌∷◌, ◌==◌, if◌then◌else◌, ok, panic,
}
use starlay_protocol_wasm.Prelude.Lists.{mem}
use starlay_protocol_wasm.Controller.Markets.{Data, is_listed}
use starlay_protocol_wasm.Controller.Tests.Markets.{one_market, list-History}
use starlay_protocol_wasm.Lens.{
  PoolMetadata, Peers, collect, market_of, underlying_of, pools, pool_metadata, pool_metadata_all,
  pool_underlying_price_all,
}
use starlay_protocol_wasm.Lens.Prices.{HasNoPrice, pool_underlying_price_all-traps}
use starlay_protocol_wasm.Lens.Laws.{Keeps, Reports, controllers_of, deployed-Reports}

abbrev stored : ℕ → (controller : ℕ) → Data
stored w c = one_market.controller

-- Pools of the controller 30 and the token 20; the oracle knows no price but that of the token 21.
abbrev peers : Peers ℕ
peers = record {
  PoolError = Unit {0};
  controller = λ w pool. some 30;
  underlying = λ w pool. some (pool + 10);
  get_cash_prior = λ w pool. 500;
  total_borrows = λ w pool. ok 100;
  total_reserves = λ w pool. ok 0;
  supply_rate_per_msec = λ w pool. ok 7;
  borrow_rate_per_msec = λ w pool. ok 9;
  reserve_factor_mantissa = λ w pool. 0;
  exchange_rate_current = λ pool w. ok (1000, w + 1);
  borrow_balance_current = λ pool account w. ok (0, w + 1);
  token_decimals = λ w token. 18;
  token_symbol = λ w token. some "DOT";
  total_supply = λ w token. ok 600;
  balance_of = λ w token account. ok 0;
  allowance = λ w token owner spender. 0;
  get_price = λ w oracle asset. if asset == 21 then some 5 else none;
}

abbrev metadata : PoolMetadata
metadata = record {
  pool = 10;
  pool_decimals = 18;
  underlying_asset_address = some 20;
  underlying_decimals = 18;
  underlying_symbol = "DOT";
  is_listed = true;
  total_cash = 500;
  total_supply = 600;
  total_borrows = 100;
  total_reserves = 0;
  exchange_rate_current = 1000;
  supply_rate_per_msec = 7;
  borrow_rate_per_msec = 9;
  collateral_factor_mantissa = 800000000000000000;
  reserve_factor_mantissa = 0;
  borrow_cap = some 0;
  mint_guardian_paused = false;
  borrow_guardian_paused = false;
}

keeps : Keeps stored peers 30 one_market.controller
keeps = record { linked = λ w pool h l. refl; accrues = λ w w' pool x h e. refl }

deployed-Reports_example :
    (10 ∷ [] ≡ one_market.controller.markets)
    × Reports one_market.controller (10 ∷ []) (metadata ∷ [])
unfolding pools pool_metadata_all collect pool_metadata market_of underlying_of is_listed mem
deployed-Reports_example =
    deployed-Reports stored peers 30 one_market.controller keeps {E = Unit {0}} 1 one_market 0 0 1
      (10 ∷ []) (metadata ∷ []) list-History refl refl refl refl

no_price : HasNoPrice (controllers_of stored) peers 0 10
no_price = record {
  controller = 30;
  asset = 20;
  oracle = 3;
  controller_is = refl;
  asset_is = refl;
  oracle_is = refl;
  no_price = refl;
}

pool_underlying_price_all-traps_example :
    pool_underlying_price_all (controllers_of stored) peers {E = Unit {0}} (11 ∷ 10 ∷ []) 0 ≡ panic
unfolding mem
pool_underlying_price_all-traps_example =
    pool_underlying_price_all-traps (controllers_of stored) peers (11 ∷ 10 ∷ []) 0 10 refl no_price

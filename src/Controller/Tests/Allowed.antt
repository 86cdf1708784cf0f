-- ===== src/Controller/Tests/Allowed.antt =====
-- Runs of the controller's checks on two markets, for logics/impls/controller/mod.rs.
use starlay_protocol_wasm.Prelude.{
  ℕ, refl, false, some, none, [], ◌∷◌, ◌*◌, ◌^◌, ◌==◌, if◌then◌else◌, ok,
}
use starlay_protocol_wasm.Words.{add256, mul256, div256}
use starlay_protocol_wasm.Math.Exp.{exp}
use starlay_protocol_wasm.Math.Percent.{percent_mul}
use starlay_protocol_wasm.Math.WadRay.{wad_div}
use starlay_protocol_wasm.Controller.Health.{calculate_health_factor_from_balances}
use starlay_protocol_wasm.Controller.Markets.{Data}
use starlay_protocol_wasm.Controller.Account.{
  Peers, AccountCollateralData, Param, add_collateral, add_debt, price_of, load_caller,
  add_position, add_market, add_markets, average, user_account_data,
}
use starlay_protocol_wasm.Controller.Account.Laws.{Sums, user_account_data-Sums}
use starlay_protocol_wasm.Pool.Environment.{PoolAttributes}

-- Pools 10 and 11 with the tokens 20 and 21, oracle 3.
abbrev pub two_markets : Data
two_markets = record {
  markets = 10 ∷ 11 ∷ [];
  markets_pair = λ u. none;
  collateral_factor_mantissa = λ p. some (8 * 10 ^ 17);
  mint_guardian_paused = λ p. some false;
  borrow_guardian_paused = λ p. some false;
  seize_guardian_paused = false;
  transfer_guardian_paused = false;
  oracle = some 3;
  close_factor_mantissa = 5 * 10 ^ 17;
  liquidation_incentive_mantissa = 11 * 10 ^ 17;
  borrow_caps = λ p. some 600;
  manager = some 1;
  flashloan_gateway = none;
}

-- Account 5 has a deposit of 1000 in pool 11 and nothing elsewhere.
abbrev prices : ℕ → Peers
prices price = record {
  get_account_snapshot = λ pool account. ok (if pool == 11 then 1000 else 0, 0, 10 ^ 18);
  metadata = λ pool. record { underlying = some 21; decimals = 6; liquidation_threshold = 8500 };
  borrow_balance_stored = λ pool account. ok 0;
  total_borrows = λ pool. ok 0;
  token_decimals = λ pool. 6;
  get_price = λ oracle asset. some (if asset == 21 then price else 10 ^ 18);
  get_underlying_price = λ oracle pool. some (10 ^ 18);
}

abbrev attributes : ℕ → PoolAttributes
attributes borrowed = record {
  pool = some 10;
  underlying = some 20;
  decimals = 6;
  liquidation_threshold = 8500;
  account_balance = 100;
  account_borrow_balance = borrowed;
  exchange_rate = 10 ^ 18;
  total_borrows = 300;
}

abbrev pub peers : Peers
peers = prices (10 ^ 18)

-- The value of the other deposit has halved.
abbrev pub crash : Peers
crash = prices (5 * 10 ^ 17)

-- What the account 5 has, at one unit of the base currency for each unit of a token.
abbrev totals : AccountCollateralData
totals = record {
  total_collateral_in_base_currency = 1100;
  total_debt_in_base_currency = 200;
  avg_ltv = 8 * 10 ^ 17;
  avg_liquidation_threshold = 8500;
  asset_price = 10 ^ 18;
  liquidation_threshold = 8500;
  health_factor = 4675 * 10 ^ 15;
}

abbrev position : (pool balance borrowed : ℕ) → Param
position pool balance borrowed = record {
  asset = pool;
  decimals = 6;
  token_balance = balance;
  borrow_balance = borrowed;
  exchange_rate_mantissa = exp (10 ^ 18);
  collateral_factor_mantissa = exp (8 * 10 ^ 17);
  oracle_price_mantissa = exp (10 ^ 18);
}

user_account_data-Sums_example : Sums totals (position 10 100 200 ∷ position 11 1000 0 ∷ [])
unfolding user_account_data load_caller add_collateral add_debt price_of add_market add_markets
    add_position average calculate_health_factor_from_balances add256 mul256 div256 percent_mul
    wad_div
user_account_data-Sums_example =
    user_account_data-Sums two_markets peers 10 5 (some (attributes 200)) none refl

-- ===== src/Controller/Peers.antt =====
-- What the controller asks of the pools and of the price oracle, and what it knows of an account,
-- logics/traits/controller.rs and logics/traits/pool.rs.
use starlay_protocol_wasm.Prelude.{ℕ, Option, Outcome}
use starlay_protocol_wasm.Controller.Errors.{Error}
use starlay_protocol_wasm.Controller.Liquidity.{HypotheticalAccountLiquidityCalculationParam}

-- `PoolMetaData`, logics/traits/pool.rs
pub record PoolMetaData : Type 0 where
  pub underlying : Option ℕ
  pub decimals : ℕ
  pub liquidation_threshold : ℕ

-- What the controller asks of the pools and of the price oracle. The first account of a call is the
-- contract that is called; a call that traps is a panic.
pub record Peers : Type 0 where
  pub get_account_snapshot : (pool account : ℕ) → Outcome Error (ℕ × ℕ × ℕ)
  pub metadata : (pool : ℕ) → PoolMetaData
  pub borrow_balance_stored : (pool account : ℕ) → Outcome Error ℕ
  pub total_borrows : (pool : ℕ) → Outcome Error ℕ
  pub token_decimals : (pool : ℕ) → ℕ
  pub get_price : (oracle asset : ℕ) → Option ℕ
  pub get_underlying_price : (oracle pool : ℕ) → Option ℕ

-- `AccountCollateralData` and `AccountData`, logics/traits/controller.rs
pub record AccountCollateralData : Type 0 where
  pub total_collateral_in_base_currency : ℕ
  pub total_debt_in_base_currency : ℕ
  pub avg_ltv : ℕ
  pub avg_liquidation_threshold : ℕ
  pub asset_price : ℕ
  pub liquidation_threshold : ℕ
  pub health_factor : ℕ

pub record AccountData : Type 0 where
  pub total_collateral_in_base_currency : ℕ
  pub total_debt_in_base_currency : ℕ
  pub avg_ltv : ℕ
  pub avg_liquidation_threshold : ℕ
  pub health_factor : ℕ

-- The four sums that `_calculate_user_account_data` carries along.
pub record Totals : Type 0 where
  pub collateral : ℕ
  pub ltv : ℕ
  pub threshold : ℕ
  pub debt : ℕ

abbrev pub no_totals : Totals
no_totals = record { collateral = 0; ltv = 0; threshold = 0; debt = 0 }

abbrev pub Param : Type 0
Param = HypotheticalAccountLiquidityCalculationParam

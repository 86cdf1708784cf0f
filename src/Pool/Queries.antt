-- ===== src/Pool/Queries.antt =====
-- The messages of a pool that answer with what its storage holds or with what an accrual now makes of it,
-- logics/impls/pool/mod.rs. The supply rate of the interest rate model is a parameter.
use starlay_protocol_wasm.Prelude.{ℕ, none, some, Outcome, ok, unwrap, ◌>>=◌}
use starlay_protocol_wasm.Prelude.Actions
use starlay_protocol_wasm.Controller.Peers.{PoolMetaData}
use starlay_protocol_wasm.Pool.Errors.{Error}
use starlay_protocol_wasm.Pool.Environment.{TokenLibrary, Contracts, Context}
use starlay_protocol_wasm.Pool.State.{State, Message}
use starlay_protocol_wasm.Pool.Views.{
  total_borrows, total_reserves, borrow_balance_stored, get_cash_prior, exchange_rate_stored,
}
use starlay_protocol_wasm.Pool.Accrual.{accrue_interest}

-- `PoolStatus` of logics/traits/pool.rs
pub record PoolStatus : Type 0 where
  pub total_supply : ℕ
  pub total_borrows : ℕ
  pub exchange_rate : ℕ

module _ (lib : TokenLibrary) (contracts : Contracts lib.Psp22Error) (ctx : Context) where
  unfoldable pub exchange_rate_current : Message lib contracts ℕ
  exchange_rate_current =
      Actions.◌>>◌ (accrue_interest lib contracts ctx)
        (Actions.view (exchange_rate_stored lib contracts ctx))

  unfoldable pub borrow_balance_current : (account : ℕ) → Message lib contracts ℕ
  borrow_balance_current account =
      Actions.◌>>◌ (accrue_interest lib contracts ctx)
        (Actions.view λ s. borrow_balance_stored s.pool account)

  -- `supply_rate_per_msec` and `_supply_rate_per_msec`
  unfoldable pub supply_rate_per_msec :
      (get_supply_rate : contracts.World
        → (model cash borrows reserves factor : ℕ) → Outcome (Unit {0}) ℕ)
      → State lib contracts
      → Outcome (Error lib.Psp22Error) ℕ
  supply_rate_per_msec get_supply_rate s = do
    let cash = get_cash_prior lib contracts ctx s
    borrows ← total_borrows s.pool
    reserves ← total_reserves s.pool
    elim s.pool.rate_model [
      | some m ↦
          unwrap (get_supply_rate s.world m cash borrows reserves s.pool.reserve_factor_mantissa)
      | none ↦ ok 0
    ]

  unfoldable pub metadata : State lib contracts → PoolMetaData
  metadata s = record {
    underlying = s.pool.underlying;
    decimals = s.decimals;
    liquidation_threshold = s.pool.liquidation_threshold;
  }

  unfoldable pub status : State lib contracts → Outcome (Error lib.Psp22Error) PoolStatus
  status s = do
    borrows ← total_borrows s.pool
    rate ← exchange_rate_stored lib contracts ctx s
    ok (record { total_supply = lib.supply s.token; total_borrows = borrows; exchange_rate = rate })

-- ===== src/Lens.antt =====
-- The lens, contracts/lens/lib.rs: it collects what pools, tokens, the controller and the price oracle
-- answer. Two of its calls accrue interest in the pool that they ask, so a report may change the world.
pub mod Laws
pub mod Prices
pub mod Tests
use Prim.Native.String.{String}
use starlay_protocol_wasm.Prelude.{
  ℕ, Bool, true, false, Option, none, some, List, [], ◌∷◌, Outcome, ok, err, panic, unwrap,
  unwrap_or,
}
use starlay_protocol_wasm.Prelude.Actions.{Action, pure, view, gets, ◌>>=◌}

pub record PoolMetadata : Type 0 where
  pub pool : ℕ
  pub pool_decimals : ℕ
  pub underlying_asset_address : Option ℕ
  pub underlying_decimals : ℕ
  pub underlying_symbol : String
  pub is_listed : Bool
  pub total_cash : ℕ
  pub total_supply : ℕ
  pub total_borrows : ℕ
  pub total_reserves : ℕ
  pub exchange_rate_current : ℕ
  pub supply_rate_per_msec : ℕ
  pub borrow_rate_per_msec : ℕ
  pub collateral_factor_mantissa : ℕ
  pub reserve_factor_mantissa : ℕ
  pub borrow_cap : Option ℕ
  pub mint_guardian_paused : Bool
  pub borrow_guardian_paused : Bool

pub record PoolBalances : Type 0 where
  pub pool : ℕ
  pub balance_of : ℕ
  pub borrow_balance_current : ℕ
  pub token_balance : ℕ
  pub token_allowance : ℕ

pub record PoolUnderlyingPrice : Type 0 where
  pub pool : ℕ
  pub underlying_price : ℕ

pub record Configuration : Type 0 where
  pub manager : Option ℕ
  pub oracle : Option ℕ
  pub seize_guardian_paused : Bool
  pub transfer_guardian_paused : Bool
  pub liquidation_incentive_mantissa : ℕ
  pub close_factor_mantissa : ℕ

-- The controllers that the lens asks; the first account is the controller.
pub record Controllers (W : Type 0) : Type 0 where
  pub markets : W → (controller : ℕ) → List ℕ
  pub manager : W → (controller : ℕ) → Option ℕ
  pub oracle : W → (controller : ℕ) → Option ℕ
  pub seize_guardian_paused : W → (controller : ℕ) → Bool
  pub transfer_guardian_paused : W → (controller : ℕ) → Bool
  pub liquidation_incentive_mantissa : W → (controller : ℕ) → ℕ
  pub close_factor_mantissa : W → (controller : ℕ) → ℕ
  pub is_listed : W → (controller pool : ℕ) → Bool
  pub collateral_factor_mantissa : W → (controller pool : ℕ) → Option ℕ
  pub borrow_cap : W → (controller pool : ℕ) → Option ℕ
  pub mint_guardian_paused : W → (controller pool : ℕ) → Option Bool
  pub borrow_guardian_paused : W → (controller pool : ℕ) → Option Bool

-- The pools, the tokens and the price oracle. A call that traps is a panic, and traps the lens; an `Err` of
-- a message leaves the world as it was.
pub record Peers (W : Type 0) : Type 1 where
  pub PoolError : Type 0
  pub controller : W → (pool : ℕ) → Option ℕ
  pub underlying : W → (pool : ℕ) → Option ℕ
  pub get_cash_prior : W → (pool : ℕ) → ℕ
  pub total_borrows : W → (pool : ℕ) → Outcome (Unit {0}) ℕ
  pub total_reserves : W → (pool : ℕ) → Outcome (Unit {0}) ℕ
  pub supply_rate_per_msec : W → (pool : ℕ) → Outcome (Unit {0}) ℕ
  pub borrow_rate_per_msec : W → (pool : ℕ) → Outcome (Unit {0}) ℕ
  pub reserve_factor_mantissa : W → (pool : ℕ) → ℕ
  pub exchange_rate_current : (pool : ℕ) → W → Outcome PoolError (ℕ × W)
  pub borrow_balance_current : (pool account : ℕ) → W → Outcome PoolError (ℕ × W)
  pub token_decimals : W → (token : ℕ) → ℕ
  pub token_symbol : W → (token : ℕ) → Option String
  pub total_supply : W → (token : ℕ) → Outcome (Unit {0}) ℕ
  pub balance_of : W → (token account : ℕ) → Outcome (Unit {0}) ℕ
  pub allowance : W → (token owner spender : ℕ) → ℕ
  pub get_price : W → (oracle asset : ℕ) → Option ℕ

module _ {W : Type 0} {E : Type 0} where
  -- A call that only reads.
  abbrev pub ask : {A : Type 0} → (W → Outcome (Unit {0}) A) → Action W E A
  ask f = view λ w. unwrap (f w)

  -- `unwrap_or_default()` of a message that may write.
  abbrev pub or_default : {X : Type 0} → (W → Outcome X (ℕ × W)) → Action W E ℕ
  or_default f w = elim (f w) [ ok r ↦ ok r | err x ↦ ok (0, w) | panic ↦ panic ]

  -- `iter().map(f).collect()`
  unfoldable pub collect : {A B : Type 0} → (A → Action W E B) → List A → Action W E (List B)
  collect f [] = pure []
  collect f (a ∷ as') = do b ← f a; bs ← collect f as'; pure (b ∷ bs)

module _ {W : Type 0} (controllers : Controllers W) where
  -- Whether a pool is listed, its collateral factor, its cap and its two pause flags: the answers of its
  -- controller, and fixed ones for a pool that has none.
  unfoldable pub market_of : (pool : ℕ) → Option ℕ → W → Bool × ℕ × Option ℕ × Bool × Bool
  market_of pool none w = (false, 0, some 0, true, true)
  market_of pool (some controller) w = (
    controllers.is_listed w controller pool,
    unwrap_or (controllers.collateral_factor_mantissa w controller pool) 0,
    controllers.borrow_cap w controller pool,
    unwrap_or (controllers.mint_guardian_paused w controller pool) false,
    unwrap_or (controllers.borrow_guardian_paused w controller pool) false,
  )

unfoldable pub underlying_of : {W : Type 0} (peers : Peers W) → Option ℕ → W → ℕ × String
underlying_of peers none w = (0, "")
underlying_of peers (some asset) w =
    (peers.token_decimals w asset, unwrap_or (peers.token_symbol w asset) "")

module _ {W : Type 0} (controllers : Controllers W) (peers : Peers W) {E : Type 0} where
  unfoldable pub pools : (controller : ℕ) → Action W E (List ℕ)
  pools controller = gets λ w. controllers.markets w controller

  -- `_pool_metadata`; the fields are evaluated in the order in which they are written, so that the call for
  -- the current exchange rate accrues interest behind the totals and before the rates.
  unfoldable pub pool_metadata : (pool : ℕ) → Action W E PoolMetadata
  pool_metadata pool = do
    controller ← gets (λ w. peers.controller w pool)
    asset ← gets (λ w. peers.underlying w pool)
    (underlying_decimals, underlying_symbol) ← gets (underlying_of peers asset)
    market ← gets (market_of controllers pool controller)
    decimals ← gets (λ w. peers.token_decimals w pool)
    cash ← gets (λ w. peers.get_cash_prior w pool)
    supply ← ask (λ w. peers.total_supply w pool)
    borrows ← ask (λ w. peers.total_borrows w pool)
    reserves ← ask (λ w. peers.total_reserves w pool)
    rate ← or_default (peers.exchange_rate_current pool)
    supply_rate ← ask (λ w. peers.supply_rate_per_msec w pool)
    borrow_rate ← ask (λ w. peers.borrow_rate_per_msec w pool)
    reserve_factor ← gets (λ w. peers.reserve_factor_mantissa w pool)
    pure (record {
      pool = pool;
      pool_decimals = decimals;
      underlying_asset_address = asset;
      underlying_decimals = underlying_decimals;
      underlying_symbol = underlying_symbol;
      is_listed = market.0;
      total_cash = cash;
      total_supply = supply;
      total_borrows = borrows;
      total_reserves = reserves;
      exchange_rate_current = rate;
      supply_rate_per_msec = supply_rate;
      borrow_rate_per_msec = borrow_rate;
      collateral_factor_mantissa = market.1;
      reserve_factor_mantissa = reserve_factor;
      borrow_cap = market.2;
      mint_guardian_paused = market.3;
      borrow_guardian_paused = market.4;
    })

  unfoldable pub pool_metadata_all : (pools : List ℕ) → Action W E (List PoolMetadata)
  pool_metadata_all = collect pool_metadata

  -- The balance and the allowance of the underlying token, `_pool_balances`.
  unfoldable pub token_side : (pool account : ℕ) → Option ℕ → Action W E (ℕ × ℕ)
  token_side pool account none = pure (0, 0)
  token_side pool account (some asset) = do
    balance ← ask (λ w. peers.balance_of w asset account)
    allowance ← gets (λ w. peers.allowance w asset account pool)
    pure (balance, allowance)

  unfoldable pub pool_balances : (pool account : ℕ) → Action W E PoolBalances
  pool_balances pool account = do
    asset ← gets (λ w. peers.underlying w pool)
    (token_balance, token_allowance) ← token_side pool account asset
    balance ← ask (λ w. peers.balance_of w pool account)
    borrowed ← or_default (peers.borrow_balance_current pool account)
    pure (record {
      pool = pool;
      balance_of = balance;
      borrow_balance_current = borrowed;
      token_balance = token_balance;
      token_allowance = token_allowance;
    })

  unfoldable pub pool_balances_all : (pools : List ℕ) (account : ℕ) → Action W E (List PoolBalances)
  pool_balances_all pools account = collect (λ pool. pool_balances pool account) pools

  unfoldable pub underlying_balance : (pool account : ℕ) → Action W E ℕ
  underlying_balance pool account = do
    asset ← gets (λ w. peers.underlying w pool)
    elim asset [ some asset ↦ ask (λ w. peers.balance_of w asset account) | none ↦ pure 0 ]

  unfoldable pub underlying_balance_all : (pools : List ℕ) (account : ℕ) → Action W E (List ℕ)
  underlying_balance_all pools account = collect (λ pool. underlying_balance pool account) pools

  -- `_pool_underlying_price`: zero where a link to the price is missing, but a trap where the oracle has
  -- no price.
  unfoldable pub price_of : (controller asset : Option ℕ) → W → Outcome E ℕ
  price_of none asset w = ok 0
  price_of (some controller) none w = ok 0
  price_of (some controller) (some asset) w = elim (controllers.oracle w controller) [
    | none ↦ ok 0
    | some oracle ↦ elim (peers.get_price w oracle asset) [ none ↦ panic | some price ↦ ok price ]
  ]

  unfoldable pub pool_underlying_price : (pool : ℕ) → Action W E PoolUnderlyingPrice
  pool_underlying_price pool = do
    price ← view (λ w. price_of (peers.controller w pool) (peers.underlying w pool) w)
    pure (record { pool = pool; underlying_price = price })

  unfoldable pub pool_underlying_price_all :
      (pools : List ℕ) → Action W E (List PoolUnderlyingPrice)
  pool_underlying_price_all = collect pool_underlying_price

  unfoldable pub configuration : (controller : ℕ) → Action W E Configuration
  configuration controller = gets λ w. record {
    manager = controllers.manager w controller;
    oracle = controllers.oracle w controller;
    seize_guardian_paused = controllers.seize_guardian_paused w controller;
    transfer_guardian_paused = controllers.transfer_guardian_paused w controller;
    liquidation_incentive_mantissa = controllers.liquidation_incentive_mantissa w controller;
    close_factor_mantissa = controllers.close_factor_mantissa w controller;
  }

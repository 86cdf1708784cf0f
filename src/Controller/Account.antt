-- ===== src/Controller/Account.antt =====
-- The data of an account over all listed markets, logics/impls/controller/mod.rs.
pub mod Laws
use starlay_protocol_wasm.Prelude.{
  ℕ, not, ◌&&◌, ◌||◌, Option, some, none, List, [], ◌∷◌, ◌++◌, ltb, ◌==◌, if◌then◌else◌, Outcome,
  ok, ok_or, fail_if, ◌>>=◌, ◌>>◌,
}
use starlay_protocol_wasm.Words.{add256, sub256, mul256, div256}
use starlay_protocol_wasm.Math.Exp.{exp}
use starlay_protocol_wasm.Controller.Errors.{
  Error, price_error, invalid_collateral_factor, underlying_is_not_set, pool_is_not_set,
  oracle_is_not_set,
}
use starlay_protocol_wasm.Controller.Health.{price_precision, calculate_health_factor_from_balances}
use starlay_protocol_wasm.Controller.Liquidity.{is_modified, get_hypothetical_account_liquidity}
pub use starlay_protocol_wasm.Controller.Peers.{
  PoolMetaData, Peers, AccountCollateralData, AccountData, Totals, no_totals, Param,
}
use starlay_protocol_wasm.Controller.Markets.{Data}
use starlay_protocol_wasm.Pool.Environment.{PoolAttributes}

-- The two blocks on the balance and on the loan, which occur once for the caller's pool and once in the
-- loop.
unfoldable pub add_collateral : (price balance ltv threshold : ℕ) → Totals → Outcome Error Totals
add_collateral price balance ltv threshold totals = if balance == 0 then ok totals else do
  v ← mul256 price balance
  liquidity ← div256 v price_precision
  collateral ← add256 totals.collateral liquidity
  weighted_ltv ← mul256 liquidity ltv
  l ← add256 totals.ltv weighted_ltv
  weighted_threshold ← mul256 liquidity threshold
  t ← add256 totals.threshold weighted_threshold
  ok (record totals { collateral = collateral; ltv = l; threshold = t })

unfoldable pub add_debt : (price borrowed : ℕ) → Totals → Outcome Error Totals
add_debt price borrowed totals = if borrowed == 0 then ok totals else do
  v ← mul256 price borrowed
  loan ← div256 v price_precision
  debt ← add256 totals.debt loan
  ok (record totals { debt = debt })

-- The price of an asset, which must be there and not zero.
unfoldable pub price_of : Peers → (oracle asset : ℕ) → Outcome Error ℕ
price_of peers oracle asset = do
  price ← ok_or (peers.get_price oracle asset) price_error
  fail_if (price == 0) price_error
  ok price

-- What is known after the caller's own pool: the sums, the assets, its price and threshold, and the pool
-- that the loop leaves out.
pub record Start : Type 0 where
  pub totals : Totals
  pub params : List Param
  pub asset_price : ℕ
  pub liquidation_threshold : ℕ
  pub skip_pool : ℕ

module _ (d : Data) (peers : Peers) (caller : ℕ) where
  -- The attributes of a calling pool stand in for a call of that pool.
  unfoldable pub load_caller : (oracle : ℕ) → Option PoolAttributes → Outcome Error Start
  load_caller oracle none = ok (record {
    totals = no_totals;
    params = [];
    asset_price = 0;
    liquidation_threshold = 0;
    skip_pool = caller;
  })
  load_caller oracle (some attrs) = do
    underlying ← ok_or attrs.underlying underlying_is_not_set
    pool ← ok_or attrs.pool pool_is_not_set
    factor ← ok_or (d.collateral_factor_mantissa pool) invalid_collateral_factor
    price ← price_of peers oracle underlying
    totals ← add_collateral price attrs.account_balance factor attrs.liquidation_threshold no_totals
    totals' ← add_debt price attrs.account_borrow_balance totals
    ok (record {
      totals = totals';
      params =
          record {
            asset = pool;
            decimals = attrs.decimals;
            token_balance = attrs.account_balance;
            borrow_balance = attrs.account_borrow_balance;
            exchange_rate_mantissa = exp attrs.exchange_rate;
            collateral_factor_mantissa = exp factor;
            oracle_price_mantissa = exp price;
          }
          ∷ [];
      asset_price = price;
      liquidation_threshold = attrs.liquidation_threshold;
      skip_pool = pool;
    })

  -- The rest of the loop's body, for a market in which the account has a position.
  unfoldable pub add_position :
      (oracle asset balance borrowed rate : ℕ)
      → Totals × List Param
      → Outcome Error (Totals × List Param)
  add_position oracle asset balance borrowed rate (totals, params) = do
    let meta = peers.metadata asset
    underlying ← ok_or meta.underlying underlying_is_not_set
    price ← price_of peers oracle underlying
    factor ← ok_or (d.collateral_factor_mantissa asset) invalid_collateral_factor
    totals' ← add_collateral price balance factor meta.liquidation_threshold totals
    totals'' ← add_debt price borrowed totals'
    ok (
      totals'',
      params
          ++ record {
            asset = asset;
            decimals = meta.decimals;
            token_balance = balance;
            borrow_balance = borrowed;
            exchange_rate_mantissa = exp rate;
            collateral_factor_mantissa = exp factor;
            oracle_price_mantissa = exp price;
          }
            ∷ [],
    )

  -- One round of the loop over the markets.
  unfoldable pub add_market :
      (oracle account : ℕ) (token_modify : Option ℕ) (skip_pool asset : ℕ)
      → Totals × List Param
      → Outcome Error (Totals × List Param)
  add_market oracle account token_modify skip_pool asset sums =
      if asset == skip_pool then ok sums else do
        (balance, borrowed, rate) ← peers.get_account_snapshot asset account
        if balance == 0 && borrowed == 0 && not (is_modified token_modify asset)
            then ok sums
            else add_position oracle asset balance borrowed rate sums

  unfoldable pub add_markets :
      (oracle account : ℕ) (token_modify : Option ℕ) (skip_pool : ℕ)
      → List ℕ
      → Totals × List Param
      → Outcome Error (Totals × List Param)
  add_markets oracle account token_modify skip_pool [] sums = ok sums
  add_markets oracle account token_modify skip_pool (asset ∷ assets) sums =
      add_market oracle account token_modify skip_pool asset sums
      >>= add_markets oracle account token_modify skip_pool assets

  -- `if total.is_zero() { 0 } else { sum.div(total) }`
  unfoldable pub average : (sum total : ℕ) → Outcome Error ℕ
  average sum total = if total == 0 then ok 0 else div256 sum total

  -- `_calculate_user_account_data`
  unfoldable pub user_account_data :
      (account : ℕ)
      → Option PoolAttributes
      → (token_modify : Option ℕ) → Outcome Error (AccountCollateralData × List Param)
  user_account_data account attributes token_modify = do
    oracle ← ok_or d.oracle oracle_is_not_set
    start ← load_caller oracle attributes
    (totals, params) ←
        add_markets oracle account token_modify start.skip_pool d.markets
          (start.totals, start.params)
    avg_ltv ← average totals.ltv totals.collateral
    avg_threshold ← average totals.threshold totals.collateral
    health ← calculate_health_factor_from_balances totals.collateral totals.debt avg_threshold
    ok (
      record {
        total_collateral_in_base_currency = totals.collateral;
        total_debt_in_base_currency = totals.debt;
        avg_ltv = avg_ltv;
        avg_liquidation_threshold = avg_threshold;
        asset_price = start.asset_price;
        liquidation_threshold = start.liquidation_threshold;
        health_factor = health;
      },
      params,
    )

  -- The message `calculate_user_account_data`
  unfoldable pub calculate_user_account_data :
      (account : ℕ) → Option PoolAttributes → Outcome Error AccountData
  calculate_user_account_data account attributes = do
    (data', params) ← user_account_data account attributes none
    ok (record {
      total_collateral_in_base_currency = data'.total_collateral_in_base_currency;
      total_debt_in_base_currency = data'.total_debt_in_base_currency;
      avg_ltv = data'.avg_ltv;
      avg_liquidation_threshold = data'.avg_liquidation_threshold;
      health_factor = data'.health_factor;
    })

  -- `_get_hypothetical_account_liquidity`: what is left, and what is missing.
  unfoldable pub hypothetical_liquidity :
      (account : ℕ) (token_modify : Option ℕ) (redeem_tokens borrow_amount : ℕ)
      → Option PoolAttributes
      → Outcome Error (ℕ × ℕ)
  hypothetical_liquidity account token_modify redeem_tokens borrow_amount attributes = do
    (_, params) ← user_account_data account attributes token_modify
    (sum_collateral, sum_borrow) ← get_hypothetical_account_liquidity (record {
      asset_params = params;
      token_modify = token_modify;
      redeem_tokens = redeem_tokens;
      borrow_amount = borrow_amount;
    })
    if ltb sum_borrow sum_collateral
        then (do left ← sub256 sum_collateral sum_borrow; ok (left, 0))
        else (do missing ← sub256 sum_borrow sum_collateral; ok (0, missing))

  -- `_account_assets`
  unfoldable pub account_assets_of :
      (account : ℕ) (token_modify : Option ℕ) → List ℕ → Outcome Error (List ℕ)
  account_assets_of account token_modify [] = ok []
  account_assets_of account token_modify (pool ∷ pools) =
      if pool == caller
      then account_assets_of account token_modify pools
      else if is_modified token_modify pool
      then (do rest ← account_assets_of account token_modify pools; ok (pool ∷ rest))
      else do
        (balance, borrowed, rate) ← peers.get_account_snapshot pool account
        rest ← account_assets_of account token_modify pools
        ok (if ltb 0 balance || ltb 0 borrowed then pool ∷ rest else rest)

  unfoldable pub account_assets : (account : ℕ) → Outcome Error (List ℕ)
  account_assets account = account_assets_of account none d.markets

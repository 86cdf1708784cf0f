-- ===== src/Controller/Allowed.antt =====
-- What the controller allows the pools to do, logics/impls/controller/mod.rs. The `…_verify` messages of
-- that file do nothing.
pub mod Laws
pub mod Liquidation
use starlay_protocol_wasm.Prelude.{
  ℕ, Bool, true, not, ◌&&◌, ◌||◌, Option, some, none, ltb, ◌==◌, if◌then◌else◌, unwrap_or, Outcome,
  ok, ok_or, fail_if, ◌>>=◌, ◌>>◌,
}
use starlay_protocol_wasm.Words.{sub128}
use starlay_protocol_wasm.Math.Exp.{exp, mul_scalar_truncate}
use starlay_protocol_wasm.Controller.Errors.{
  Error, mint_is_paused, borrow_is_paused, seize_is_paused, transfer_is_paused, market_not_listed,
  price_error, too_much_repay, borrow_cap_reached, insufficient_liquidity, insufficient_shortfall,
  underlying_is_not_set, oracle_is_not_set, balance_decrease_not_allowed,
}
use starlay_protocol_wasm.Controller.Health.{balance_decrease_allowed}
use starlay_protocol_wasm.Controller.Liquidity.{get_hypothetical_account_liquidity}
use starlay_protocol_wasm.Controller.SeizeTokens.{liquidate_calculate_seize_tokens}
use starlay_protocol_wasm.Controller.Markets.{Data, is_listed, no_price}
use starlay_protocol_wasm.Controller.Account.{
  Peers, price_of, user_account_data, hypothetical_liquidity,
}
use starlay_protocol_wasm.Pool.Environment.{PoolAttributes, PoolAttributesForSeizeCalculation}

-- `Some(true) | None`
abbrev pub is_paused : Option Bool → Bool
is_paused none = true
is_paused (some b) = b

module _ (d : Data) (peers : Peers) (caller : ℕ) where
  unfoldable pub mint_allowed : (pool minter amount : ℕ) → Outcome Error (Unit {0})
  mint_allowed pool minter amount = fail_if (is_paused (d.mint_guardian_paused pool)) mint_is_paused

  unfoldable pub redeem_allowed :
      (pool redeemer redeem_amount : ℕ) → Option PoolAttributes → Outcome Error (Unit {0})
  redeem_allowed pool redeemer redeem_amount attributes = do
    (account, params) ← user_account_data d peers caller redeemer attributes (some pool)
    (sum_collateral, sum_borrow) ← get_hypothetical_account_liquidity (record {
      asset_params = params;
      token_modify = some pool;
      redeem_tokens = redeem_amount;
      borrow_amount = 0;
    })
    fail_if (ltb sum_collateral sum_borrow) insufficient_liquidity
    if account.total_debt_in_base_currency == 0 then ok tt else do
      allowed ← balance_decrease_allowed (record {
        total_collateral_in_base_currency = account.total_collateral_in_base_currency;
        total_debt_in_base_currency = account.total_debt_in_base_currency;
        avg_liquidation_threshold = account.avg_liquidation_threshold;
        amount_in_base_currency_unit = redeem_amount;
        asset_price = account.asset_price;
        liquidation_threshold = account.liquidation_threshold;
      })
      fail_if (not allowed) balance_decrease_not_allowed

  -- The price and the total debt that a loan is checked with.
  unfoldable pub market_state :
      (oracle pool : ℕ) → Option PoolAttributes → Outcome Error (Option ℕ × ℕ)
  market_state oracle pool none = do
    borrows ← peers.total_borrows pool
    ok (peers.get_underlying_price oracle pool, borrows)
  market_state oracle pool (some attrs) = do
    underlying ← ok_or attrs.underlying underlying_is_not_set
    ok (peers.get_price oracle underlying, attrs.total_borrows)

  unfoldable pub check_borrow_cap : (pool borrow_amount total_borrow : ℕ) → Outcome Error (Unit {0})
  check_borrow_cap pool borrow_amount total_borrow =
      let borrow_cap = unwrap_or (d.borrow_caps pool) 0 in
      fail_if
        (not (borrow_cap == 0)
          && (ltb borrow_cap borrow_amount || ltb (sub128 borrow_cap borrow_amount) total_borrow))
        borrow_cap_reached

  unfoldable pub borrow_allowed :
      (pool borrower borrow_amount : ℕ) → Option PoolAttributes → Outcome Error (Unit {0})
  borrow_allowed pool borrower borrow_amount attributes = do
    fail_if (is_paused (d.borrow_guardian_paused pool)) borrow_is_paused
    oracle ← ok_or d.oracle oracle_is_not_set
    (price, total_borrow) ← market_state oracle pool attributes
    fail_if (no_price price) price_error
    check_borrow_cap pool borrow_amount total_borrow
    (_, shortfall) ←
        hypothetical_liquidity d peers caller borrower (some pool) 0 borrow_amount attributes
    fail_if (not (shortfall == 0)) insufficient_liquidity

  unfoldable pub repay_borrow_allowed :
      (pool payer borrower repay_amount : ℕ) → Outcome Error (Unit {0})
  repay_borrow_allowed pool payer borrower repay_amount = ok tt

  -- The debt of the borrower in the pool of the loan.
  unfoldable pub debt_of : (pool borrower : ℕ) → Option PoolAttributes → Outcome Error ℕ
  debt_of pool borrower none = peers.borrow_balance_stored pool borrower
  debt_of pool borrower (some attrs) = ok attrs.account_borrow_balance

  unfoldable pub liquidate_borrow_allowed :
      (pool_borrowed pool_collateral liquidator borrower repay_amount : ℕ)
      → Option PoolAttributes
      → Outcome Error (Unit {0})
  liquidate_borrow_allowed pool_borrowed pool_collateral liquidator borrower repay_amount
        attributes =
      do
        fail_if (not (is_listed d pool_borrowed) || not (is_listed d pool_collateral))
            market_not_listed
        borrow_balance ← debt_of pool_borrowed borrower attributes
        (_, shortfall) ← hypothetical_liquidity d peers caller borrower none 0 0 attributes
        fail_if (shortfall == 0) insufficient_shortfall
        max_close ← mul_scalar_truncate (exp d.close_factor_mantissa) borrow_balance
        fail_if (ltb max_close repay_amount) too_much_repay

  unfoldable pub seize_allowed :
      (pool_collateral pool_borrowed liquidator borrower seize_tokens : ℕ)
      → Outcome Error (Unit {0})
  seize_allowed pool_collateral pool_borrowed liquidator borrower seize_tokens = do
    fail_if d.seize_guardian_paused seize_is_paused
    fail_if (not (is_listed d pool_collateral) || not (is_listed d pool_borrowed)) market_not_listed

  unfoldable pub transfer_allowed :
      (pool src dst transfer_tokens : ℕ) → Option PoolAttributes → Outcome Error (Unit {0})
  transfer_allowed pool src dst transfer_tokens attributes = do
    fail_if d.transfer_guardian_paused transfer_is_paused
    redeem_allowed pool src transfer_tokens attributes

  -- The price and the decimals of one side of a liquidation.
  unfoldable pub side_of :
      (oracle pool : ℕ) → Option PoolAttributesForSeizeCalculation → Outcome Error (ℕ × ℕ)
  side_of oracle pool none = do
    price ← ok_or (peers.get_underlying_price oracle pool) price_error
    fail_if (price == 0) price_error
    ok (price, peers.token_decimals pool)
  side_of oracle pool (some attrs) = do
    underlying ← ok_or attrs.underlying underlying_is_not_set
    price ← price_of peers oracle underlying
    ok (price, attrs.decimals)

  -- `_liquidate_calculate_seize_tokens`
  unfoldable pub calculate_seize_tokens :
      (pool_borrowed pool_collateral exchange_rate repay_amount : ℕ)
      → (borrowed collateral : Option PoolAttributesForSeizeCalculation) → Outcome Error ℕ
  calculate_seize_tokens pool_borrowed pool_collateral rate repay_amount borrowed collateral = do
    oracle ← ok_or d.oracle oracle_is_not_set
    (price_borrowed, decimals_borrowed) ← side_of oracle pool_borrowed borrowed
    (price_collateral, decimals_collateral) ← side_of oracle pool_collateral collateral
    liquidate_calculate_seize_tokens (record {
      price_borrowed_mantissa = price_borrowed;
      decimals_borrowed = decimals_borrowed;
      price_collateral_mantissa = price_collateral;
      decimals_collateral = decimals_collateral;
      exchange_rate_mantissa = rate;
      liquidation_incentive_mantissa = d.liquidation_incentive_mantissa;
      actual_repay_amount = repay_amount;
    })

  -- `_balance_decrease_allowed`
  unfoldable pub decrease_allowed : PoolAttributes → (account amount : ℕ) → Outcome Error (Unit {0})
  decrease_allowed attributes account amount = do
    oracle ← ok_or d.oracle oracle_is_not_set
    (account_data, _) ← user_account_data d peers caller account (some attributes) none
    if account_data.total_debt_in_base_currency == 0 then ok tt else do
      underlying ← ok_or attributes.underlying underlying_is_not_set
      price ← price_of peers oracle underlying
      allowed ← balance_decrease_allowed (record {
        total_collateral_in_base_currency = account_data.total_collateral_in_base_currency;
        total_debt_in_base_currency = account_data.total_debt_in_base_currency;
        avg_liquidation_threshold = account_data.avg_liquidation_threshold;
        amount_in_base_currency_unit = amount;
        asset_price = price;
        liquidation_threshold = attributes.liquidation_threshold;
      })
      fail_if (not allowed) balance_decrease_not_allowed

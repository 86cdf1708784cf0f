-- ===== src/Pool/Views.antt =====
-- The view functions of logics/impls/pool/mod.rs.
use starlay_protocol_wasm.Prelude.{
  ℕ, Bool, false, none, some, ◌==◌, if◌then◌else◌, Outcome, ok, unwrap, unwrap_or, ok_or, ◌>>=◌,
}
use starlay_protocol_wasm.Math.Exp.{exp}
use starlay_protocol_wasm.Pool.Errors.{Error, interest_rate_model_is_not_set}
use starlay_protocol_wasm.Pool.Environment.{TokenLibrary, Contracts, Context, PoolAttributes}
use starlay_protocol_wasm.Pool.State.{Data, State}
use starlay_protocol_wasm.Pool.Interest.{CalculateInterestOutput, calculate_interest}
use starlay_protocol_wasm.Pool.Scaled.{from_scaled_amount}
use starlay_protocol_wasm.Pool.Exchange.{exchange_rate}

module _ {E : Type 0} where
  unfoldable pub total_borrows : Data → Outcome E ℕ
  total_borrows d =
      if d.borrows_scaled == 0
      then ok 0
      else from_scaled_amount d.borrows_scaled (exp d.borrow_index)

  unfoldable pub total_reserves : Data → Outcome E ℕ
  total_reserves d = from_scaled_amount d.reserves_scaled (exp d.borrow_index)

  -- The two matches of the source: an absent or zero balance is zero.
  unfoldable pub borrow_balance_stored : Data → ℕ → Outcome E ℕ
  borrow_balance_stored d account = elim (d.account_borrows account) [
    | none ↦ ok 0
    | some value ↦ if value == 0 then ok 0 else from_scaled_amount value (exp d.borrow_index)
  ]

unfoldable pub delegate_allowance : Data → (owner delegatee : ℕ) → ℕ
delegate_allowance d owner delegatee = unwrap_or (d.delegate_allowance owner delegatee) 0

-- `_using_reserve_as_collateral(user).unwrap_or_default()`
unfoldable pub using_reserve_as_collateral : Data → (user : ℕ) → Bool
using_reserve_as_collateral d user = unwrap_or (d.using_reserve_as_collateral user) false

module _ (lib : TokenLibrary) (contracts : Contracts lib.Psp22Error) (ctx : Context) where
  unfoldable pub get_cash_prior : State lib contracts → ℕ
  get_cash_prior s = elim s.pool.underlying [
    | some underlying ↦ contracts.token_balance_of s.world underlying ctx.account_id
    | none ↦ 0
  ]

  unfoldable pub principal_balance_of : State lib contracts → ℕ → ℕ
  principal_balance_of s account = lib.balance_of s.token account

  unfoldable pub principal_total_supply : State lib contracts → ℕ
  principal_total_supply s = lib.supply s.token

  module _ {E : Type 0} where
    unfoldable pub exchange_rate_stored : State lib contracts → Outcome E ℕ
    exchange_rate_stored s = do
      borrows ← total_borrows s.pool
      reserves ← total_reserves s.pool
      exchange_rate (lib.supply s.token) (get_cash_prior s) borrows reserves
          s.pool.initial_exchange_rate_mantissa

    -- `Internal::_balance_of`, which is `_balance_of_underlying`
    unfoldable pub balance_of : State lib contracts → ℕ → Outcome E ℕ
    balance_of s account = do
      rate ← exchange_rate_stored s
      from_scaled_amount (principal_balance_of s account) (exp rate)

    unfoldable pub get_account_snapshot : State lib contracts → ℕ → Outcome E (ℕ × ℕ × ℕ)
    get_account_snapshot s account = do
      balance ← if using_reserve_as_collateral s.pool account then balance_of s account else ok 0
      borrowed ← borrow_balance_stored s.pool account
      rate ← exchange_rate_stored s
      ok (balance, borrowed, rate)

    -- The attributes that the messages hand to the controller, with the balance they put in.
    unfoldable pub pool_attributes :
        State lib contracts
        → (account_balance account_borrow_balance exchange_rate : ℕ) → Outcome E PoolAttributes
    pool_attributes s account_balance account_borrow_balance rate = do
      borrows ← total_borrows s.pool
      ok (record {
        pool = some ctx.account_id;
        underlying = s.pool.underlying;
        decimals = s.decimals;
        liquidation_threshold = s.pool.liquidation_threshold;
        account_balance = account_balance;
        account_borrow_balance = account_borrow_balance;
        exchange_rate = rate;
        total_borrows = borrows;
      })

  unfoldable pub get_interest_at :
      State lib contracts → ℕ → Outcome (Error lib.Psp22Error) CalculateInterestOutput
  get_interest_at s at = do
    let cash = get_cash_prior s
    borrows ← total_borrows s.pool
    reserves ← total_reserves s.pool
    rate_model ← ok_or s.pool.rate_model interest_rate_model_is_not_set
    borrow_rate ← unwrap (contracts.get_borrow_rate s.world rate_model cash borrows reserves)
    calculate_interest (record {
      total_borrows = borrows;
      total_reserves = reserves;
      borrow_index = s.pool.borrow_index;
      borrow_rate = borrow_rate;
      old_block_timestamp = s.pool.accrual_block_timestamp;
      new_block_timestamp = at;
      reserve_factor_mantissa = s.pool.reserve_factor_mantissa;
    })

  -- `Internal::_total_supply`, the `total_supply` of the token interface: the pool tokens at the
  -- exchange rate that an accrual now would give.
  unfoldable pub total_supply : State lib contracts → Outcome (Error lib.Psp22Error) ℕ
  total_supply s = do
    let supply = lib.supply s.token
    interest ← unwrap (get_interest_at s ctx.block_timestamp)
    rate ←
        exchange_rate supply (get_cash_prior s) interest.total_borrows interest.total_reserves
          s.pool.initial_exchange_rate_mantissa
    from_scaled_amount supply (exp rate)

  -- `Pool::borrow_rate_per_msec` and `_borrow_rate_per_msec`
  unfoldable pub borrow_rate_per_msec : State lib contracts → Outcome (Error lib.Psp22Error) ℕ
  borrow_rate_per_msec s = do
    borrows ← total_borrows s.pool
    reserves ← total_reserves s.pool
    elim s.pool.rate_model [
      | some m ↦ unwrap (contracts.get_borrow_rate s.world m (get_cash_prior s) borrows reserves)
      | none ↦ ok 0
    ]

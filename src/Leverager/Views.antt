-- ===== src/Leverager/Views.antt =====
-- What the leverager computes of an account without writing, logics/impls/leverager.rs.
pub mod Laws
use starlay_protocol_wasm.Prelude.{
  ℕ, ◌-◌, ◌*◌, ◌/◌, ◌^◌, true, false, not, ◌||◌, ltb, leb, ◌==◌, if◌then◌else◌, zero, suc, Option,
  none, some, unwrap_or, Outcome, ok, panic, ◌>>=◌,
}
use starlay_protocol_wasm.Words.{mul256, div256, sub256, as_u128}
use starlay_protocol_wasm.Controller.Account.{AccountData}
use starlay_protocol_wasm.Controller.Health.{
  price_precision, or_else, calculate_health_factor_from_balances,
  calculate_available_borrow_in_base_currency,
}
use starlay_protocol_wasm.Leverager.Environment.{Data, Contracts}

-- `AvailableBorrows` and `Withdrawable`, logics/traits/leverager.rs
pub record AvailableBorrows : Type 0 where
  pub total_collateral_in_base_currency : ℕ
  pub available_borrow_in_base_currency : ℕ
  pub price_eth : ℕ
  pub health_factor : ℕ
  pub ltv : ℕ

pub record Withdrawable : Type 0 where
  pub total_collateral_in_base_currency : ℕ
  pub total_debt_in_base_currency : ℕ
  pub current_liquidation_threshold : ℕ
  pub afford_in_base_currency : ℕ
  pub withdrawable_collateral_in_base_currency : ℕ
  pub withdrawable_collateral : ℕ
  pub withdraw_amount : ℕ

-- 1.01, the health factor that a withdrawal has to leave behind.
abbrev pub health_factor_limit : ℕ
health_factor_limit = 101 * 10 ^ 18 / 100

-- `if let Some(x) = o { … }` with a result for `None`.
abbrev pub if_some : {A B : Type 0} → Option A → B → (A → B) → B
if_some none otherwise f = otherwise
if_some (some x) otherwise f = f x

-- The health factor of what is left after a withdrawal. The second test of the code compares an unsigned
-- number with zero, so it always holds.
unfoldable pub health_after :
    {E : Type 0} → AccountData → (threshold price withdraw_amount : ℕ) → Outcome E ℕ
health_after account threshold price withdraw_amount = do
  v ← mul256 price withdraw_amount
  withdrawn ← div256 v price_precision
  let total = account.total_collateral_in_base_currency
  let after = if ltb withdrawn total then total - withdrawn else 0
  a ← mul256 account.avg_liquidation_threshold total
  b ← mul256 threshold withdrawn
  factor ← sub256 a b
  threshold_after ← if not (after == 0) || leb 0 factor then div256 factor after else ok 0
  calculate_health_factor_from_balances after account.total_debt_in_base_currency threshold_after

-- The loop of `_withdrawable`, over the rounds that the call's gas pays for: when it is used up the call
-- traps. The loop carries the amount and its health factor.
unfoldable pub shrink :
    {E : Type 0}
    → (health : ℕ → Outcome E ℕ) (rounds withdraw_amount health_factor : ℕ) → Outcome E ℕ
shrink health zero withdraw_amount health_factor =
    if leb health_factor health_factor_limit then panic else ok withdraw_amount
shrink health (suc rounds) withdraw_amount health_factor =
    elim (leb health_factor health_factor_limit) [
      | false ↦ ok withdraw_amount
      | true ↦ do
        v ← mul256 withdraw_amount 95
        less ← div256 v 100
        w ← as_u128 less
        h ← health w
        shrink health rounds less h
    ]

module _ {P : Type 0} (contracts : Contracts P) (d : Data) (w : contracts.World) where
  -- `_loan_to_value`, in hundredths of a percent
  unfoldable pub loan_to_value : {E : Type 0} → (asset : ℕ) → Outcome E ℕ
  loan_to_value asset = if_some d.controller (ok 0) λ controller.
      if_some (contracts.market_of_underlying w controller asset) (ok 0) λ pool.
        if_some (contracts.collateral_factor_mantissa w controller pool) (ok 0)
          λ factor. do v ← mul256 factor 10000; ltv ← div256 v price_precision; as_u128 ltv

  -- `_liquidation_threshold`
  unfoldable pub liquidation_threshold : (asset : ℕ) → ℕ
  liquidation_threshold asset = if_some d.controller 0 λ controller.
      if_some (contracts.market_of_underlying w controller asset) 0
        (contracts.liquidation_threshold w)

  -- `_get_available_borrows`
  unfoldable pub get_available_borrows :
      {E : Type 0} → (account : ℕ) → Outcome E (Option AvailableBorrows)
  get_available_borrows account = if_some d.controller (ok none) λ controller.
      or_else (contracts.calculate_user_account_data w controller account) none λ data'. do
        available ←
            calculate_available_borrow_in_base_currency data'.total_collateral_in_base_currency
              data'.total_debt_in_base_currency data'.avg_ltv
        let price_eth =
            if_some d.price_oracle 0
              λ oracle. if_some d.weth 0 λ weth. unwrap_or (contracts.get_price w oracle weth) 0
        ok (
            some (record {
              total_collateral_in_base_currency = data'.total_collateral_in_base_currency;
              available_borrow_in_base_currency = available;
              price_eth = price_eth;
              health_factor = data'.health_factor;
              ltv = data'.avg_ltv;
            }))

  -- `_get_health_factor`
  unfoldable pub get_health_factor :
      {E : Type 0} → (account asset withdraw_amount : ℕ) → Outcome E ℕ
  get_health_factor account asset withdraw_amount = if_some d.controller (ok 0) λ controller.
      or_else (contracts.calculate_user_account_data w controller account) 0 λ data'.
        if_some d.price_oracle (ok 0) λ oracle.
          if_some (contracts.get_price w oracle asset) (ok 0)
            λ price. health_after data' (liquidation_threshold asset) price withdraw_amount

  -- The two nested `if let` on the price oracle and on the price.
  abbrev priced : (asset : ℕ) → Option ℕ
  priced asset = if_some d.price_oracle none λ oracle. contracts.get_price w oracle asset

  -- `_withdrawable`, for the rounds that the gas allows.
  unfoldable pub withdrawable :
      {E : Type 0} → (rounds account asset : ℕ) → Outcome E (Option Withdrawable)
  withdrawable rounds account asset = if_some d.controller (ok none) λ controller.
      or_else (contracts.calculate_user_account_data w controller account) none λ data'. do
        a ← mul256 data'.total_collateral_in_base_currency data'.avg_liquidation_threshold
        b ← mul256 data'.total_debt_in_base_currency 10000
        afford ← sub256 a b
        free ← div256 afford (liquidation_threshold asset)
        if_some (priced asset) (ok none) λ price. do
          v ← mul256 free price_precision
          most ← div256 v price
          amount ← as_u128 most
          health ← get_health_factor account asset amount
          left ← shrink (get_health_factor account asset) rounds most health
          ok (
              some (record {
                total_collateral_in_base_currency = data'.total_collateral_in_base_currency;
                total_debt_in_base_currency = data'.total_debt_in_base_currency;
                current_liquidation_threshold = data'.avg_liquidation_threshold;
                afford_in_base_currency = afford;
                withdrawable_collateral_in_base_currency = free;
                withdrawable_collateral = most;
                withdraw_amount = left;
              }))

  -- `_withdrawable_amount`
  unfoldable pub withdrawable_amount : {E : Type 0} → (rounds account asset : ℕ) → Outcome E ℕ
  withdrawable_amount rounds account asset = do
    found ← withdrawable rounds account asset
    ok (if_some found 0 λ x. x.withdraw_amount)

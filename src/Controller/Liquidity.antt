-- ===== src/Controller/Liquidity.antt =====
-- Hypothetical account liquidity, logics/impls/controller/utils.rs.
pub mod Laws
use starlay_protocol_wasm.Prelude.{
  ℕ, ◌*◌, ◌/◌, Bool, false, Option, none, some, List, [], ◌∷◌, ◌==◌, if◌then◌else◌, Outcome, ok,
  ◌>>=◌,
}
use starlay_protocol_wasm.Words.{add256, mul256, div256, pow128}
use starlay_protocol_wasm.Math.Exp.{
  exp_scale, Exp, mul, mul_scalar_truncate, mul_scalar_truncate_add_uint,
}

abbrev pub collateral_factor_max_mantissa : ℕ
collateral_factor_max_mantissa = exp_scale * 90 / 100

pub record HypotheticalAccountLiquidityCalculationParam : Type 0 where
  pub asset : ℕ
  pub decimals : ℕ
  pub token_balance : ℕ
  pub borrow_balance : ℕ
  pub exchange_rate_mantissa : Exp
  pub collateral_factor_mantissa : Exp
  pub oracle_price_mantissa : Exp

pub record GetHypotheticalAccountLiquidityInput : Type 0 where
  pub asset_params : List HypotheticalAccountLiquidityCalculationParam
  pub token_modify : Option ℕ
  pub redeem_tokens : ℕ
  pub borrow_amount : ℕ

-- `token_modify.is_some() && asset == token_modify.unwrap()`
abbrev pub is_modified : Option ℕ → ℕ → Bool
is_modified none asset = false
is_modified (some t) asset = asset == t

module _ {E : Type 0} where
  -- The closure `to_flatten`, which occurs twice.
  unfoldable pub to_flatten : (decimals volume : ℕ) → Outcome E ℕ
  unfolding mul256 div256
  to_flatten decimals volume = do v ← mul256 volume exp_scale; div256 v (pow128 10 decimals)

  unfoldable pub get_hypothetical_account_liquidity_per_asset :
      (token_balance borrow_balance decimals : ℕ)
      (exchange_rate collateral_factor oracle_price : Exp)
      → Outcome E (Exp × ℕ × ℕ)
  get_hypothetical_account_liquidity_per_asset token_balance borrow_balance decimals exchange_rate
        collateral_factor oracle_price =
      do
        a ← mul collateral_factor exchange_rate
        token_to_denom ← mul a oracle_price
        collateral ← mul_scalar_truncate token_to_denom token_balance
        flatten_collateral ← to_flatten decimals collateral
        borrow_plus_effect ← mul_scalar_truncate oracle_price borrow_balance
        flatten_borrow_plus_effect ← to_flatten decimals borrow_plus_effect
        ok (token_to_denom, flatten_collateral, flatten_borrow_plus_effect)

  -- The effect of redeeming and borrowing on the debt side, in the loop's body.
  unfoldable pub add_effects :
      HypotheticalAccountLiquidityCalculationParam
      → (token_to_denom : Exp) → (redeem_tokens borrow_amount sum : ℕ) → Outcome E ℕ
  add_effects param token_to_denom redeem_tokens borrow_amount sum = do
    redeemed ← to_flatten param.decimals redeem_tokens
    with_redeem ← mul_scalar_truncate_add_uint token_to_denom redeemed sum
    borrowed ← to_flatten param.decimals borrow_amount
    mul_scalar_truncate_add_uint param.oracle_price_mantissa borrowed with_redeem

  -- One round of the loop over `asset_params`.
  unfoldable pub add_asset :
      Option ℕ
      → (redeem_tokens borrow_amount : ℕ) → HypotheticalAccountLiquidityCalculationParam
      → ℕ × ℕ
      → Outcome E (ℕ × ℕ)
  add_asset token_modify redeem_tokens borrow_amount param (sum_collateral, sum_borrow) = do
    (token_to_denom, collateral, borrow_plus_effect) ←
        get_hypothetical_account_liquidity_per_asset param.token_balance param.borrow_balance
          param.decimals param.exchange_rate_mantissa param.collateral_factor_mantissa
          param.oracle_price_mantissa
    c ← add256 sum_collateral collateral
    b ← add256 sum_borrow borrow_plus_effect
    b' ←
        if is_modified token_modify param.asset
        then add_effects param token_to_denom redeem_tokens borrow_amount b
        else ok b
    ok (c, b')

  pub add_assets :
      Option ℕ
      → (redeem_tokens borrow_amount : ℕ) → List HypotheticalAccountLiquidityCalculationParam
      → ℕ × ℕ
      → Outcome E (ℕ × ℕ)
  add_assets token_modify redeem_tokens borrow_amount [] sums = ok sums
  add_assets token_modify redeem_tokens borrow_amount (param ∷ params) sums =
      add_asset token_modify redeem_tokens borrow_amount param sums
      >>= add_assets token_modify redeem_tokens borrow_amount params

  unfoldable pub get_hypothetical_account_liquidity :
      GetHypotheticalAccountLiquidityInput → Outcome E (ℕ × ℕ)
  unfolding add_assets
  get_hypothetical_account_liquidity input =
      add_assets input.token_modify input.redeem_tokens input.borrow_amount input.asset_params
        (0, 0)

-- ===== src/Leverager/Looping/Laws.antt =====
-- What a finished call of `loop_asset` has checked and done, logics/impls/leverager.rs.
use starlay_protocol_wasm.Prelude.{
  ℕ, ◌+◌, ◌*◌, ◌≤◌, ◌<◌, ◌≡◌, arith, ◌||◌, ltb, leb, some, Outcome, ok, ok_or, map_err, fail_if,
  ◌>>=◌, >>=-elim, ok-injective, map_err-eq-ok, Option-cases, inl, inr,
}
use starlay_protocol_wasm.Words.{u128_max, mul256, div256, as_u128}
use starlay_protocol_wasm.Controller.Health.{price_precision}
use starlay_protocol_wasm.Controller.Liquidity.{collateral_factor_max_mantissa}
use starlay_protocol_wasm.Leverager.Environment.{
  Data, Error, Context, Contracts, controller_is_not_set, market_not_listed,
  inappropriate_borrow_rate, psp22,
}
use starlay_protocol_wasm.Leverager.Views.{loan_to_value}
use starlay_protocol_wasm.Leverager.Looping.{check_arguments, loop_asset}
use starlay_protocol_wasm.Leverager.Looping.Legs.{Leveraged, loop-Leveraged}

module _ {P : Type 0} (contracts : Contracts P) (d : Data) (ctx : Context) where
  -- What a call of `loop_asset` has checked and done.
  pub record Entered (asset amount ratio count : ℕ) (w w' : contracts.World) : Type 0 where
    pub ltv : ℕ
    pub ltv_known : loan_to_value contracts d w {E = Error P} asset ≡ ok ltv
    pub ratio_allowed : (0 < ratio) × (ratio ≤ ltv)
    pub count_allowed : (2 ≤ count) × (count ≤ 40)
    pub paid : contracts.World
    pub pays :
        contracts.transfer_from asset ctx.account_id ctx.caller ctx.account_id amount w ≡ ok paid
    pub approved : contracts.World
    pub leveraged : Leveraged contracts d ctx asset ratio amount approved w'

  check_arguments-eq-ok :
      (w : contracts.World) (asset ratio count : ℕ)
      → check_arguments contracts d ctx w asset ratio count ≡ ok tt
      → (ltv : ℕ) × (loan_to_value contracts d w {E = Error P} asset ≡ ok ltv)
        × (0 < ratio)
        × (ratio ≤ ltv)
        × (2 ≤ count)
        × (count ≤ 40)
  unfolding check_arguments
  check_arguments-eq-ok w asset ratio count e =
      >>=-elim (loan_to_value contracts d w asset) _ e λ ltv el e1.
        >>=-elim (fail_if (leb ratio 0 || ltb ltv ratio) inappropriate_borrow_rate) _ e1
          λ _ er e2. (ltv, el, ground arith, ground arith, ground arith, ground arith)

  -- A leveraged deposit that succeeds had a positive ratio of at most the asset's loan-to-value ratio and
  -- from 2 to 40 rounds, has taken the amount from the caller, and has then made deposits and loans of the
  -- caller only: the deposits are the amount and all that was borrowed, and the loans are at most the
  -- ratio's share of the deposits.
  pub loop_asset-Entered :
      (asset amount ratio count : ℕ) (w : contracts.World) {w' : contracts.World}
      → loop_asset contracts d ctx asset amount ratio count w ≡ ok w'
      → Entered asset amount ratio count w w'
  unfolding loop_asset
  loop_asset-Entered asset amount ratio count w {w'} e =
      >>=-elim (check_arguments contracts d ctx w asset ratio count) _ e λ _ ea e1.
        >>=-elim
          (map_err psp22
            (contracts.transfer_from asset ctx.account_id ctx.caller ctx.account_id amount w))
          _ e1
          λ w1 et e2. >>=-elim (ok_or d.controller controller_is_not_set) _ e2 λ controller ec e3.
            >>=-elim (ok_or (contracts.market_of_underlying w1 controller asset) market_not_listed)
              _ e3
              λ market em e4.
                >>=-elim (map_err psp22 (contracts.approve asset ctx.account_id market u128_max w1))
                  _ e4
                  λ w2 ep e5.
                    let (ltv, known, positive, within, least, most) =
                      check_arguments-eq-ok w asset ratio count ea in
                    record {
                      ltv = ltv;
                      ltv_known = known;
                      ratio_allowed = (positive, within);
                      count_allowed = (least, most);
                      paid = w1;
                      pays = map_err-eq-ok psp22 _ et;
                      approved = w2;
                      leveraged = loop-Leveraged contracts d ctx asset amount ratio count w2 e5;
                    }

  percent_le :
      {E : Type 0} (factor : ℕ) {ltv : ℕ}
      → factor ≤ collateral_factor_max_mantissa
      → ◌≡◌ {A = Outcome E ℕ}
          (do v ← mul256 factor 10000; n ← div256 v price_precision; as_u128 n)
          (ok ltv)
      → ltv ≤ 9000
  unfolding mul256 div256 as_u128
  percent_le factor bounded e = ground arith

  loan_to_value-le :
      (w : contracts.World) (asset : ℕ) {ltv : ℕ}
      → ((controller market factor : ℕ)
          → contracts.collateral_factor_mantissa w controller market ≡ some factor
          → factor ≤ collateral_factor_max_mantissa)
      → loan_to_value contracts d w {E = Error P} asset ≡ ok ltv
      → ltv ≤ 9000
  unfolding loan_to_value
  loan_to_value-le w asset bounded e = elim (Option-cases d.controller) [
    | inl n ↦ omega (arith, ok-injective (rw n at e))
    | inr (c, ec) ↦ elim (Option-cases (contracts.market_of_underlying w c asset)) [
      | inl n ↦ omega (arith, ok-injective (rw (ec, n) at e))
      | inr (market, em) ↦ elim (Option-cases (contracts.collateral_factor_mantissa w c market)) [
        | inl n ↦ omega (arith, ok-injective (rw (ec, em, n) at e))
        | inr (factor, ef) ↦ percent_le factor (bounded c market factor ef) (rw (ec, em, ef) at e)
      ]
    ]
  ]

  at_most_ten :
      (ratio amount deposited borrowed : ℕ)
      → deposited ≡ amount + borrowed
      → borrowed * 10000 ≤ ratio * deposited
      → ratio ≤ 9000
      → deposited ≤ 10 * amount
  at_most_ten ratio amount deposited borrowed balance kept small = grind arith

  -- While no collateral factor is above the controller's maximum of 90 %, a leveraged deposit that succeeds
  -- has made deposits of at most ten times the amount.
  pub loop_asset-le :
      (asset amount ratio count : ℕ) (w : contracts.World) {w' : contracts.World}
      → ((controller market factor : ℕ)
          → contracts.collateral_factor_mantissa w controller market ≡ some factor
          → factor ≤ collateral_factor_max_mantissa)
      → loop_asset contracts d ctx asset amount ratio count w ≡ ok w'
      → (entered : Entered asset amount ratio count w w') × (entered.leveraged.deposited
          ≤ 10 * amount)
  loop_asset-le asset amount ratio count w bounded e =
      let entered = loop_asset-Entered asset amount ratio count w e in
      let small = loan_to_value-le w asset bounded entered.ltv_known in
      (
        entered,
        at_most_ten ratio amount entered.leveraged.deposited entered.leveraged.borrowed
            entered.leveraged.balance entered.leveraged.ratio_kept
            (omega (arith, small, entered.ratio_allowed.1)),
      )

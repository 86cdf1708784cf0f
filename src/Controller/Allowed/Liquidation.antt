-- ===== src/Controller/Allowed/Liquidation.antt =====
-- When the controller allows a liquidation, and seizing, logics/impls/controller/mod.rs.
use starlay_protocol_wasm.Prelude.{
  ℕ, ◌*◌, ◌≤◌, ◌<◌, ◌≡◌, arith, true, false, not, ◌||◌, none, some, ltb, ◌==◌, ok, fail_if,
  >>=-elim,
}
use starlay_protocol_wasm.Math.Exp.{exp_scale, exp, mul_scalar_truncate}
use starlay_protocol_wasm.Controller.Errors.{
  market_not_listed, insufficient_shortfall, too_much_repay,
}
use starlay_protocol_wasm.Controller.Liquidity.Laws.{sum_collateral, sum_debt}
use starlay_protocol_wasm.Controller.Markets.{Data, is_listed}
use starlay_protocol_wasm.Controller.Account.{Peers, hypothetical_liquidity}
use starlay_protocol_wasm.Controller.Allowed.{debt_of, liquidate_borrow_allowed}
use starlay_protocol_wasm.Pool.Environment.{PoolAttributes}
use starlay_protocol_wasm.Controller.Allowed.Laws.{
  Positions, hypothetical_liquidity-eq-ok, fail_if-eq-ok,
}

module _ (d : Data) (peers : Peers) (caller : ℕ) where
  pub record LiquidationIsDue (borrowed collateral borrower amount : ℕ) (attrs : PoolAttributes)
      : Type 0 where
    pub listed : (is_listed d borrowed ≡ true) × (is_listed d collateral ≡ true)
    pub positions : Positions d peers caller borrower (some attrs) none
    pub short : sum_collateral positions.params < sum_debt none 0 0 positions.params
    pub within_close_factor :
        amount * exp_scale ≤ d.close_factor_mantissa * attrs.account_borrow_balance

  close-eq-ok :
      {E : Type 0} (f b amount : ℕ) {m : ℕ}
      → mul_scalar_truncate {E = E} (exp f) b ≡ ok m
      → ltb m amount ≡ false
      → amount * exp_scale ≤ f * b
  unfolding mul_scalar_truncate
  close-eq-ok f b amount e h = ground arith

  -- A liquidation that the controller allows is between listed markets, of an account whose debt exceeds
  -- its collateral, and repays at most the close factor's share of the debt in the pool.
  pub liquidate_borrow_allowed-LiquidationIsDue :
      (borrowed collateral liquidator borrower amount : ℕ) (attrs : PoolAttributes)
      → liquidate_borrow_allowed d peers caller borrowed collateral liquidator borrower amount
          (some attrs)
        ≡ ok tt
      → LiquidationIsDue borrowed collateral borrower amount attrs
  unfolding liquidate_borrow_allowed debt_of
  liquidate_borrow_allowed-LiquidationIsDue borrowed collateral liquidator borrower amount attrs e =
      >>=-elim
        (fail_if (not (is_listed d borrowed) || not (is_listed d collateral)) market_not_listed) _ e
        λ _ el e1.
          >>=-elim (hypothetical_liquidity d peers caller borrower none 0 0 (some attrs)) _ e1
            λ r er e2. >>=-elim (fail_if (r.1 == 0) insufficient_shortfall) _ e2 λ _ es e3.
              >>=-elim
                (mul_scalar_truncate (exp d.close_factor_mantissa) attrs.account_borrow_balance) _
                e3
                λ m em e4.
                  let (positions, left, missing) =
                    hypothetical_liquidity-eq-ok d peers caller borrower none 0 0 (some attrs) er in
                  let listed = fail_if-eq-ok d peers caller _ market_not_listed el in
                  let some_missing =
                    fail_if-eq-ok d peers caller (r.1 == 0) insufficient_shortfall es in
                  let within = fail_if-eq-ok d peers caller (ltb m amount) too_much_repay e4 in
                  let more : 0 < r.1 = ground arith in
                  record {
                    listed = ground arith;
                    positions = positions;
                    short = omega arith;
                    within_close_factor =
                        close-eq-ok d.close_factor_mantissa attrs.account_borrow_balance amount em
                          within;
                  }

-- ===== src/Leverager/Closing/Laws.antt =====
-- What a finished call of `close` has done, logics/impls/leverager.rs.
use starlay_protocol_wasm.Prelude.{
  ℕ, ◌≤◌, ◌≡◌, arith, ◌||◌, ltb, zero, suc, some, ok, ok_or, ok_or-eq-ok, map_err, >>=-elim,
  ok-injective, map_err-eq-ok, Bool-cases, inl, inr,
}
use mathlib.Core.Path.{subst}
use starlay_protocol_wasm.Words.{u128_max, sub128, as_u128}
use starlay_protocol_wasm.Leverager.Environment.{
  Data, Context, Contracts, controller_is_not_set, market_not_listed, pool, psp22,
}
use starlay_protocol_wasm.Leverager.Views.{withdrawable_amount}
use starlay_protocol_wasm.Leverager.Closing.{close_max_loops, move_back, close_rounds, close}

module _ {P : Type 0} (contracts : Contracts P) (d : Data) (ctx : Context) where
  -- Repayments of the caller's loan out of the caller's own deposit: before each one the debt is read, and
  -- the amount that moves back is not larger.
  pub data Repaid (market : ℕ) : contracts.World → contracts.World → Type 0 where
    done :
        {w w1 : contracts.World} {debt : ℕ}
        → contracts.borrow_balance_current market ctx.caller w ≡ ok (debt, w1)
        → Repaid market w w1
    final :
        {w w1 w2 : contracts.World} {debt : ℕ}
        → contracts.borrow_balance_current market ctx.caller w ≡ ok (debt, w1)
        → move_back contracts d ctx market debt w1 ≡ ok w2
        → Repaid market w w2
    repay :
        {w w1 w2 w3 : contracts.World} {debt : ℕ} (amount : ℕ)
        → contracts.borrow_balance_current market ctx.caller w ≡ ok (debt, w1)
        → amount ≤ debt
        → move_back contracts d ctx market amount w1 ≡ ok w2
        → Repaid market w2 w3
        → Repaid market w w3

  close_rounds-Repaid :
      (steps asset market gas withdraw_amount debt remains : ℕ) (w w1 : contracts.World)
      {w' : contracts.World}
      → contracts.borrow_balance_current market ctx.caller w ≡ ok (debt, w1)
      → close_rounds contracts d ctx steps asset market gas withdraw_amount debt remains w1 ≡ ok w'
      → Repaid market w w'
  unfolding close_rounds
  close_rounds-Repaid steps asset market zero amount debt remains w w1 {w'} eb e =
      elim (Bool-cases (ltb 0 remains || ltb 0 amount)) [
        | inl more ↦ absurd (cc (rw (more, close_rounds) at e))
        | inr over ↦ subst (Repaid market w) (ok-injective (rw (over, close_rounds) at e)) (done eb)
      ]
  close_rounds-Repaid steps asset market (suc gas) amount debt remains w w1 {w'} eb e =
      elim (Bool-cases (ltb 0 remains || ltb 0 amount)) [
        | inr over ↦ subst (Repaid market w) (ok-injective (rw (over, close_rounds) at e)) (done eb)
        | inl more ↦ elim (Bool-cases (ltb debt amount)) [
          | inl enough ↦ final eb (rw (more, enough, close_rounds) at e)
          | inr less ↦
              >>=-elim (move_back contracts d ctx market amount w1) _
                (rw (more, less, close_rounds) at e)
                λ w2 em e1.
                  >>=-elim (withdrawable_amount contracts d w2 steps ctx.caller asset) _ e1
                    λ most ew e2. >>=-elim (as_u128 most) _ e2 λ amount' ea e3.
                      >>=-elim
                        (map_err pool (contracts.borrow_balance_current market ctx.caller w2)) _ e3
                        λ r er e4. repay amount eb (ground arith) em (
                          close_rounds-Repaid steps asset market gas amount' r.0 (sub128 remains 1)
                            w2 r.1 (map_err-eq-ok pool _ er) e4)
        ]
      ]

  -- The approval and the repayments of a call of `close`.
  pub record Closed (asset : ℕ) (w w' : contracts.World) : Type 0 where
    pub controller : ℕ
    pub controller_set : d.controller ≡ some controller
    pub market : ℕ
    pub listed : contracts.market_of_underlying w controller asset ≡ some market
    pub approved : contracts.World
    pub approves : contracts.approve asset ctx.account_id market u128_max w ≡ ok approved
    pub repaid : Repaid market approved w'

  -- A call of `close` that succeeds has approved the market that the controller names for the asset, and has
  -- then done nothing but repay the caller's loan out of the caller's deposit in that market, each time by no more than the debt read just
  -- before.
  pub close-Closed :
      (steps gas asset : ℕ) (w : contracts.World) {w' : contracts.World}
      → close contracts d ctx steps gas asset w ≡ ok w'
      → Closed asset w w'
  unfolding close
  close-Closed steps gas asset w {w'} e =
      >>=-elim (ok_or d.controller controller_is_not_set) _ e λ controller ec e1.
        >>=-elim (ok_or (contracts.market_of_underlying w controller asset) market_not_listed) _ e1
          λ market em e2.
            >>=-elim (map_err psp22 (contracts.approve asset ctx.account_id market u128_max w)) _ e2
              λ w1 ea e3.
                >>=-elim (withdrawable_amount contracts d w1 steps ctx.caller asset) _ e3
                  λ most ew e4. >>=-elim (as_u128 most) _ e4 λ amount en e5.
                    >>=-elim (map_err pool (contracts.borrow_balance_current market ctx.caller w1))
                      _ e5
                      λ r er e6. record {
                        controller = controller;
                        controller_set = ok_or-eq-ok d.controller controller_is_not_set ec;
                        market = market;
                        listed =
                            ok_or-eq-ok (contracts.market_of_underlying w controller asset)
                              market_not_listed em;
                        approved = w1;
                        approves = map_err-eq-ok psp22 _ ea;
                        repaid =
                            close_rounds-Repaid steps asset market gas amount r.0 close_max_loops w1
                              r.1 (map_err-eq-ok pool _ er) e6;
                      }

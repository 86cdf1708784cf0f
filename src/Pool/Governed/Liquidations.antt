-- ===== src/Pool/Governed/Liquidations.antt =====
-- Liquidations of a pool under the controller, logics/impls/pool/mod.rs with
-- logics/impls/controller/mod.rs.
use starlay_protocol_wasm.Prelude.{
  ℕ, ◌<◌, ◌≡◌, ◌≢◌, refl, sym, ap, ◌∙◌, arith, not, ◌&&◌, ◌==◌, some, Outcome, ok,
}
use starlay_protocol_wasm.Prelude.Actions.{
  view, ok_or_throw, bind-elim, throw_if-elim, ok_or_throw-elim, view-eq-ok,
}
use starlay_protocol_wasm.Controller.Errors.{Error as ControllerError}
use starlay_protocol_wasm.Controller.Markets.{Data}
use starlay_protocol_wasm.Controller.Account.{Peers}
use starlay_protocol_wasm.Controller.Allowed.Liquidation.{
  LiquidationIsDue, liquidate_borrow_allowed-LiquidationIsDue,
}
use starlay_protocol_wasm.Pool.Errors.{
  controller_is_not_set, accrual_block_number_is_not_fresh, liquidate_liquidator_is_borrower,
}
use starlay_protocol_wasm.Pool.Environment.{TokenLibrary, Contracts, Context, PoolAttributes}
use starlay_protocol_wasm.Pool.State.{State, ask_controller}
use starlay_protocol_wasm.Pool.Views.{get_account_snapshot, pool_attributes}
use starlay_protocol_wasm.Pool.Accrual.{accrue_reward}
use starlay_protocol_wasm.Pool.Liquidation.{check_liquidation, liquidate_borrow_inner}
use starlay_protocol_wasm.Pool.Repayment.{accrue_reward_same}
use starlay_protocol_wasm.Pool.Runs.{assert_fresh-elim}
use starlay_protocol_wasm.Pool.Governed.{governed}
use starlay_protocol_wasm.Pool.Governed.Consent.{Consent, asked-eq-ok, asked-Consent}

module _ (lib : TokenLibrary) (contracts : Contracts lib.Psp22Error) (ctx : Context) where
  -- The question of a liquidation.
  abbrev pub to_liquidate :
      (liquidator borrower amount collateral : ℕ)
      → contracts.World
      → (controller : ℕ) → PoolAttributes
      → Outcome ControllerError (Unit {0})
  to_liquidate liquidator borrower amount collateral w controller attributes =
      contracts.liquidate_borrow_allowed w controller ctx.account_id collateral liquidator borrower
        amount (some attributes)

  -- The checks that the pool makes itself, and the controller's consent.
  pub record Checked (liquidator borrower amount collateral : ℕ) (s : State lib contracts)
      : Type 0 where
    pub consent :
        Consent lib contracts ctx (to_liquidate liquidator borrower amount collateral) borrower s
    pub fresh : s.pool.accrual_block_timestamp ≡ ctx.block_timestamp
    pub distinct : liquidator ≢ borrower
    pub some_amount : 0 < amount

  check_liquidation-Checked :
      (liquidator borrower amount collateral controller : ℕ) (s r t : State lib contracts)
      → r.pool ≡ s.pool
      → r.pool.controller ≡ some controller
      → check_liquidation lib contracts ctx controller liquidator borrower amount collateral r
        ≡ ok (tt, t)
      → Checked liquidator borrower amount collateral s
  unfolding check_liquidation
  check_liquidation-Checked liquidator borrower amount collateral controller s r t p set e =
      let asks = to_liquidate liquidator borrower amount collateral in
      bind-elim (view λ s. get_account_snapshot lib contracts ctx s borrower) _ e λ snap u1 a1 k1.
        bind-elim (view λ s. pool_attributes lib contracts ctx s snap.0 snap.1 snap.2) _ k1
          λ attributes u2 a2 k2.
            bind-elim (ask_controller lib contracts λ w. asks w controller attributes) _ k2
              λ _ u3 a3 k3.
                let consent =
                  asked-Consent lib contracts ctx asks borrower s r r r u1 u1 u2 u3
                    r.pool.controller controller snap snap.0 attributes p refl
                    (ap (λ o. ok_or_throw o controller_is_not_set r) set) a1 refl a2 a3 in
                let (_, same) =
                  asked-eq-ok lib contracts ctx (λ w. asks w controller attributes) {s = u2} a3 in
                let (_, same2) =
                  view-eq-ok (λ s. pool_attributes lib contracts ctx s snap.0 snap.1 snap.2) a2 in
                let (_, same1) =
                  view-eq-ok (λ s. get_account_snapshot lib contracts ctx s borrower) a1 in
                assert_fresh-elim lib contracts ctx _ {s = u3} k3 λ fresh k4.
                  throw_if-elim
                    (not (collateral == ctx.account_id)
                      && not (
                          contracts.get_accrual_block_timestamp u3.world collateral
                          == ctx.block_timestamp))
                    accrual_block_number_is_not_fresh _ {s = u3} k4
                    λ _ k5.
                      throw_if-elim (liquidator == borrower) liquidate_liquidator_is_borrower _
                        {s = u3} k5
                        λ differ k6. record {
                          consent = consent;
                          fresh =
                              ap (λ d. d.accrual_block_timestamp)
                                (sym p ∙ ap (λ u. u.pool) (sym (same ∙ same2 ∙ same1)))
                              ∙ fresh;
                          distinct = ground arith;
                          some_amount = ground arith;
                        }

  pub liquidate_borrow_inner-Checked :
      (liquidator borrower amount collateral : ℕ) (s t : State lib contracts)
      → liquidate_borrow_inner lib contracts ctx liquidator borrower amount collateral s
        ≡ ok (tt, t)
      → Checked liquidator borrower amount collateral s
  unfolding liquidate_borrow_inner
  liquidate_borrow_inner-Checked liquidator borrower amount collateral s t e =
      bind-elim (accrue_reward lib contracts ctx liquidator) _ e λ _ s1 e1 k1.
        bind-elim (accrue_reward lib contracts ctx borrower) _ k1 λ _ s2 e2 k2.
          ok_or_throw-elim s2.pool.controller controller_is_not_set _ k2 λ controller ec k3.
            bind-elim
              (check_liquidation lib contracts ctx controller liquidator borrower amount collateral)
              _ {s = s2} k3
              λ _ s3 e3 _.
                check_liquidation-Checked liquidator borrower amount collateral controller s s2 s3
                  (accrue_reward_same lib contracts ctx borrower s1 s2 e2
                    ∙ accrue_reward_same lib contracts ctx liquidator s s1 e1)
                  ec e3

module _ (lib : TokenLibrary) (contracts : Contracts lib.Psp22Error) (ctx : Context)
    (data_of : contracts.World → ℕ → Data) (peers_of : contracts.World → Peers) where
  abbrev Governed : Contracts lib.Psp22Error
  Governed = governed contracts data_of peers_of

  pub record LiquidationIsSafe (liquidator borrower amount collateral : ℕ) (s : State lib Governed)
      : Type 0 where
    pub checked : Checked lib Governed ctx liquidator borrower amount collateral s
    pub due :
        LiquidationIsDue
          (data_of checked.consent.asked.world checked.consent.controller)
          (peers_of checked.consent.asked.world)
          ctx.account_id
          ctx.account_id
          collateral
          borrower
          amount
          checked.consent.attributes

  -- Every liquidation of a pool whose controller is that of this repository was due by the controller's
  -- rules at the moment of the pool's call, after the rewards: the pool and the collateral's are listed, the
  -- borrower's debts over all markets exceed their collateral, and the amount is within the close factor's
  -- share of the debt in this pool, which is the debt of the pool's storage. The liquidator is not the
  -- borrower, the amount is positive, and interest was accrued at this block's time.
  pub liquidate_borrow_inner-LiquidationIsSafe :
      (liquidator borrower amount collateral : ℕ) (s t : State lib Governed)
      → liquidate_borrow_inner lib Governed ctx liquidator borrower amount collateral s ≡ ok (tt, t)
      → LiquidationIsSafe liquidator borrower amount collateral s
  liquidate_borrow_inner-LiquidationIsSafe liquidator borrower amount collateral s t e =
      let checked =
        liquidate_borrow_inner-Checked lib Governed ctx liquidator borrower amount collateral s t
          e in
      let c = checked.consent in
      record {
        checked = checked;
        due =
            liquidate_borrow_allowed-LiquidationIsDue (data_of c.asked.world c.controller)
              (peers_of c.asked.world) ctx.account_id ctx.account_id collateral liquidator borrower
              amount c.attributes c.given;
      }

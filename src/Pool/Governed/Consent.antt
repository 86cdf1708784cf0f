-- ===== src/Pool/Governed/Consent.antt =====
-- The controller's consent to a loan and to a redemption, logics/impls/pool/mod.rs.
use starlay_protocol_wasm.Prelude.{
  ℕ, ◌≡◌, refl, sym, ap, ◌∙◌, Option, some, Outcome, ok, map_err, >>=-elim, ok-injective,
  map_err-eq-ok, if◌then◌else◌,
}
use mathlib.Core.Path.{subst}
use starlay_protocol_wasm.Prelude.Actions.{
  pure, gets, view, ok_or_throw, bind-elim, gets-eq-ok, view-eq-ok, ok_or_throw-eq-ok,
}
use starlay_protocol_wasm.Controller.Errors.{Error as ControllerError}
use starlay_protocol_wasm.Pool.Errors.{Error, controller_is_not_set}
use starlay_protocol_wasm.Pool.Environment.{TokenLibrary, Contracts, Context, PoolAttributes}
use starlay_protocol_wasm.Pool.State.{State, ask_controller}
use starlay_protocol_wasm.Pool.Views.{
  total_borrows, borrow_balance_stored, get_account_snapshot, pool_attributes, balance_of,
  exchange_rate_stored, using_reserve_as_collateral,
}
use starlay_protocol_wasm.Pool.Accrual.{accrue_reward}
use starlay_protocol_wasm.Pool.Lending.{consent_to_borrow, consent_to_redeem}
use starlay_protocol_wasm.Pool.Repayment.{accrue_reward_same}

-- What a pool tells its controller about itself.
pub record Tells (lib : TokenLibrary) (contracts : Contracts lib.Psp22Error) (ctx : Context)
    (s : State lib contracts) (account : ℕ) (attrs : PoolAttributes) : Type 0 where
  pub pool : attrs.pool ≡ some ctx.account_id
  pub underlying : attrs.underlying ≡ s.pool.underlying
  pub debt :
      borrow_balance_stored {E = Error lib.Psp22Error} s.pool account
      ≡ ok attrs.account_borrow_balance
  pub borrows : total_borrows {E = Error lib.Psp22Error} s.pool ≡ ok attrs.total_borrows

module _ (lib : TokenLibrary) (contracts : Contracts lib.Psp22Error) (ctx : Context) where
  pub asked-eq-ok :
      (m : contracts.World → Outcome ControllerError (Unit {0})) {s t : State lib contracts}
      → ask_controller lib contracts m s ≡ ok (tt, t)
      → (m s.world ≡ ok tt) × (t ≡ s)
  asked-eq-ok m e =
      let (answer, same) = view-eq-ok (λ u. map_err Error.controller (m u.world)) e in
      (map_err-eq-ok Error.controller _ answer, same)

  snapshot_debt :
      (s : State lib contracts) (account : ℕ) {snap : ℕ × ℕ × ℕ}
      → get_account_snapshot lib contracts ctx {E = Error lib.Psp22Error} s account ≡ ok snap
      → borrow_balance_stored {E = Error lib.Psp22Error} s.pool account ≡ ok snap.1
  unfolding get_account_snapshot
  snapshot_debt s account e =
      >>=-elim
        (if using_reserve_as_collateral s.pool account
          then balance_of lib contracts ctx s account
          else ok 0)
        _ e
        λ balance eb e1. >>=-elim (borrow_balance_stored s.pool account) _ e1 λ debt ed e2.
          >>=-elim (exchange_rate_stored lib contracts ctx s) _ e2
            λ rate er e3. ed ∙ ap (λ r. ok r.1) (ok-injective e3)

  pool_attributes-Tells :
      (s : State lib contracts) (account balance debt rate : ℕ) {attrs : PoolAttributes}
      → borrow_balance_stored {E = Error lib.Psp22Error} s.pool account ≡ ok debt
      → pool_attributes lib contracts ctx {E = Error lib.Psp22Error} s balance debt rate ≡ ok attrs
      → Tells lib contracts ctx s account attrs
  unfolding pool_attributes
  pool_attributes-Tells s account balance debt rate ed e =
      >>=-elim (total_borrows s.pool) _ e λ b eb e1.
        subst (Tells lib contracts ctx s account) (ok-injective e1)
          (record { pool = refl; underlying = refl; debt = ed; borrows = eb })

  -- The consent of the controller, with the state in which the pool asked for it.
  pub record Consent
      (asks : contracts.World
        → (controller : ℕ) → PoolAttributes
        → Outcome ControllerError (Unit {0}))
      (account : ℕ) (s : State lib contracts) : Type 0 where
    pub controller : ℕ
    pub asked : State lib contracts
    pub attributes : PoolAttributes
    pub controller_set : s.pool.controller ≡ some controller
    pub same_pool : asked.pool ≡ s.pool
    pub tells : Tells lib contracts ctx asked account attributes
    pub given : asks asked.world controller attributes ≡ ok tt

  pub asked-Consent :
      (asks : contracts.World
        → (controller : ℕ) → PoolAttributes
        → Outcome ControllerError (Unit {0}))
      (account : ℕ) (s s1 s2 s3 s4 s5 s6 s7 : State lib contracts) (c : Option ℕ) (controller : ℕ)
      (snap : ℕ × ℕ × ℕ) (balance : ℕ) (attributes : PoolAttributes)
      → s1.pool ≡ s.pool
      → gets {E = Error lib.Psp22Error} (λ s. s.pool.controller) s1 ≡ ok (c, s2)
      → ok_or_throw {E = Error lib.Psp22Error} c controller_is_not_set s2 ≡ ok (controller, s3)
      → view {E = Error lib.Psp22Error} (λ s. get_account_snapshot lib contracts ctx s account) s3
        ≡ ok (snap, s4)
      → s5 ≡ s4
      → view {E = Error lib.Psp22Error}
          (λ s. pool_attributes lib contracts ctx s balance snap.1 snap.2)
          s5
        ≡ ok (attributes, s6)
      → ask_controller lib contracts (λ w. asks w controller attributes) s6 ≡ ok (tt, s7)
      → Consent asks account s
  asked-Consent asks account s s1 s2 s3 s4 s5 s6 s7 c controller snap balance attributes p1 e2 e3 e4
        p5 e6 e7 =
      let (c_is, p2) = gets-eq-ok (λ s. s.pool.controller) e2 in
      let (set, p3) = ok_or_throw-eq-ok c controller_is_not_set e3 in
      let (snapshot, p4) = view-eq-ok (λ s. get_account_snapshot lib contracts ctx s account) e4 in
      let (told, p6) =
        view-eq-ok (λ s. pool_attributes lib contracts ctx s balance snap.1 snap.2) e6 in
      let (given, p7) = asked-eq-ok (λ w. asks w controller attributes) {s = s6} e7 in
      record {
        controller = controller;
        asked = s6;
        attributes = attributes;
        controller_set = sym (ap (λ d. d.controller) p1) ∙ sym c_is ∙ set;
        same_pool = ap (λ u. u.pool) (p6 ∙ p5 ∙ p4 ∙ p3 ∙ p2) ∙ p1;
        tells =
            subst (λ u. Tells lib contracts ctx u account attributes) (sym p6)
              (pool_attributes-Tells s5 account balance snap.1 snap.2
                (subst
                  (λ u. borrow_balance_stored {E = Error lib.Psp22Error} u.pool account ≡ ok snap.1)
                  (sym (p5 ∙ p4)) (snapshot_debt s3 account snapshot))
                told);
        given = given;
      }

  -- The two questions.
  abbrev pub to_borrow :
      (borrower amount : ℕ)
      → contracts.World
      → (controller : ℕ) → PoolAttributes
      → Outcome ControllerError (Unit {0})
  to_borrow borrower amount w controller attributes =
      contracts.borrow_allowed w controller ctx.account_id borrower amount (some attributes)

  abbrev pub to_redeem :
      (redeemer amount : ℕ)
      → contracts.World
      → (controller : ℕ) → PoolAttributes
      → Outcome ControllerError (Unit {0})
  to_redeem redeemer amount w controller attributes =
      contracts.redeem_allowed w controller ctx.account_id redeemer amount (some attributes)

  pub consent_to_borrow-Consent :
      (borrower amount : ℕ) (s t : State lib contracts)
      → consent_to_borrow lib contracts ctx borrower amount s ≡ ok (tt, t)
      → Consent (to_borrow borrower amount) borrower s
  unfolding consent_to_borrow
  consent_to_borrow-Consent borrower amount s t e =
      bind-elim (accrue_reward lib contracts ctx borrower) _ e λ _ s1 e1 k1.
        bind-elim (gets λ s. s.pool.controller) _ k1 λ c s2 e2 k2.
          bind-elim (ok_or_throw c controller_is_not_set) _ k2 λ controller s3 e3 k3.
            bind-elim (view λ s. get_account_snapshot lib contracts ctx s borrower) _ k3
              λ snap s4 e4 k4.
                bind-elim (view λ s. pool_attributes lib contracts ctx s snap.0 snap.1 snap.2) _ k4
                  λ attributes s5 e5 k5.
                    asked-Consent (to_borrow borrower amount) borrower s s1 s2 s3 s4 s4 s5 t c
                      controller snap snap.0 attributes
                      (accrue_reward_same lib contracts ctx borrower s s1 e1) e2 e3 e4 refl e5 k5

  pub consent_to_redeem-Consent :
      (redeemer amount rate : ℕ) (s t : State lib contracts)
      → consent_to_redeem lib contracts ctx redeemer amount s ≡ ok (rate, t)
      → Consent (to_redeem redeemer amount) redeemer s
  unfolding consent_to_redeem
  consent_to_redeem-Consent redeemer amount rate s t e =
      bind-elim (gets λ s. s.pool.controller) _ e λ c s2 e2 k2.
        bind-elim (ok_or_throw c controller_is_not_set) _ k2 λ controller s3 e3 k3.
          bind-elim (view λ s. get_account_snapshot lib contracts ctx s redeemer) _ k3
            λ snap s4 e4 k4.
              bind-elim (view λ s. balance_of lib contracts ctx s redeemer) _ k4 λ balance s5 e5 k5.
                bind-elim (view λ s. pool_attributes lib contracts ctx s balance snap.1 snap.2) _ k5
                  λ attributes s6 e6 k6.
                    bind-elim
                      (ask_controller lib contracts
                        λ w. to_redeem redeemer amount w controller attributes)
                      (λ _. pure snap.2) k6
                      λ _ s7 e7 k7.
                        asked-Consent (to_redeem redeemer amount) redeemer s s s2 s3 s4 s5 s6 s7 c
                          controller snap balance attributes refl e2 e3 e4
                          (view-eq-ok {E = Error lib.Psp22Error}
                            (λ s. balance_of lib contracts ctx s redeemer) e5).1
                          e6 e7

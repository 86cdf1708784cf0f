-- ===== src/Pool/Loan.antt =====
-- What a loan does to the book of debts, `_borrow` of logics/impls/pool/mod.rs.
use starlay_protocol_wasm.Prelude.{ℕ, ◌≡◌, sym, ap, ◌∙◌, arith, ok}
use starlay_protocol_wasm.Math.Exp.{exp}
use starlay_protocol_wasm.Prelude.Actions.{gets, view, bind-elim}
use starlay_protocol_wasm.Prelude.Steps.{IsPreorder, Steps-gets, Steps-view}
use starlay_protocol_wasm.Pool.Errors.{Error}
use starlay_protocol_wasm.Pool.Environment.{TokenLibrary, Contracts, Context}
use starlay_protocol_wasm.Pool.State.{State, Event, emit}
use starlay_protocol_wasm.Pool.Scaled.{scaled_amount_of}
use starlay_protocol_wasm.Pool.Views.{borrow_balance_stored, total_borrows}
use starlay_protocol_wasm.Pool.Accrual.{assert_fresh}
use starlay_protocol_wasm.Pool.Lending.{consent_to_borrow, borrow_inner, increase_debt}
use starlay_protocol_wasm.Pool.Invariants.{increase_debt-eq-ok}
use starlay_protocol_wasm.Pool.Steps.{OnPool, Steps-transfer_underlying, Steps-consent_to_borrow}
use starlay_protocol_wasm.Prelude.{Bool, false, ltb}
use starlay_protocol_wasm.Words.{add128}
use starlay_protocol_wasm.Prelude.Actions.{when, throw_if}
use starlay_protocol_wasm.Prelude.Steps.{Steps-when, Steps-throw_if}
use starlay_protocol_wasm.Pool.Errors.{borrow_cash_not_available}
use starlay_protocol_wasm.Pool.Views.{get_cash_prior}
use starlay_protocol_wasm.Pool.Accrual.{transfer_underlying}
use starlay_protocol_wasm.Pool.Repayment.{Same, Same-pre, moved, assert_fresh-eq-ok}

module _ (lib : TokenLibrary) (contracts : Contracts lib.Psp22Error) (ctx : Context) where
  same : IsPreorder (OnPool lib contracts Same)
  same = Same-pre lib contracts ctx

  emit_same :
      (event : Event) (s t : State lib contracts)
      → emit lib contracts event s ≡ ok (tt, t)
      → t.pool ≡ s.pool
  emit_same event s t e = ground arith

  consent_same :
      (borrower amount : ℕ) (s t : State lib contracts)
      → consent_to_borrow lib contracts ctx borrower amount s ≡ ok (tt, t)
      → t.pool ≡ s.pool
  consent_same borrower amount s t e =
      (Steps-consent_to_borrow lib contracts ctx Same same borrower amount).at s tt t e

  -- A successful loan was made in an accrued block. It raises the debt of the borrower and the total by the
  -- same scaled amount, that of what was borrowed, with wrapping addition, and nothing else in the pool's
  -- storage.
  pub borrow_inner-moves :
      (borrower amount : ℕ) (release : Bool) (s t : State lib contracts)
      → borrow_inner lib contracts ctx borrower amount release s ≡ ok (tt, t)
      → (n : ℕ) × (scaled_amount_of {E = Error lib.Psp22Error} amount (exp s.pool.borrow_index)
          ≡ ok n)
        × (t.pool ≡ moved s.pool borrower add128 n)
        × (s.pool.accrual_block_timestamp ≡ ctx.block_timestamp)
  unfolding borrow_inner
  borrow_inner-moves borrower amount release s t e =
      bind-elim (consent_to_borrow lib contracts ctx borrower amount) _ e λ _ s6 e6 k6.
        bind-elim (assert_fresh lib contracts ctx) _ k6 λ _ s7 e7 k7.
          bind-elim (gets (get_cash_prior lib contracts ctx)) _ k7 λ cash s8 e8 k8.
            bind-elim (throw_if (ltb cash amount) borrow_cash_not_available) _ k8 λ _ s9 e9 k9.
              bind-elim (view λ s. borrow_balance_stored s.pool borrower) _ k9 λ prev s10 e10 k10.
                bind-elim (view λ s. total_borrows s.pool) _ k10 λ borrows s11 e11 k11.
                  bind-elim (when release (transfer_underlying lib contracts ctx ctx.caller amount))
                    _ k11
                    λ _ s12 e12 k12.
                      bind-elim (increase_debt lib contracts ctx borrower amount false) _ k12
                        λ _ s13 e13 k13.
                          let q = consent_same borrower amount s s6 e6 in
                          let (p7, fresh) = assert_fresh-eq-ok lib contracts ctx s6 s7 e7 in
                          let p8 : s8.pool ≡ s7.pool =
                            (Steps-gets same (get_cash_prior lib contracts ctx)).at s7 cash s8 e8 in
                          let p9 : s9.pool ≡ s8.pool =
                            (Steps-throw_if same (ltb cash amount) borrow_cash_not_available).at s8
                              tt s9 e9 in
                          let p10 : s10.pool ≡ s9.pool =
                            (Steps-view same (λ s. borrow_balance_stored s.pool borrower)).at s9
                              prev s10 e10 in
                          let p11 : s11.pool ≡ s10.pool =
                            (Steps-view same (λ s. total_borrows s.pool)).at s10 borrows s11 e11 in
                          let p12 : s12.pool ≡ s11.pool =
                            (Steps-when same release _ (
                                Steps-transfer_underlying lib contracts ctx Same same ctx.caller
                                  amount)).at
                              s11 tt s12 e12 in
                          let p : s12.pool ≡ s.pool =
                            p12 ∙ p11 ∙ p10 ∙ p9 ∙ p8 ∙ ap (λ u. u.pool) p7 ∙ q in
                          let (n, en, et) =
                            increase_debt-eq-ok lib contracts ctx borrower amount false s12 e13 in
                          let r : t.pool ≡ s13.pool =
                            emit_same
                              (Event.borrow borrower amount (add128 prev amount)
                                (add128 borrows amount))
                              s13 t k13 in
                          (
                            n,
                            rw (sym p) en,
                            r ∙ et ∙ ap (λ d. moved d borrower add128 n) p,
                            rw (sym q) fresh,
                          )

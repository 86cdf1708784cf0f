-- ===== src/Pool/Repayment.antt =====
-- What loans and repayments do to the book of debts, logics/impls/pool/mod.rs.
use starlay_protocol_wasm.Prelude.{
  ℕ, ◌≡◌, ◌≢◌, refl, sym, ap, ◌∙◌, arith, true, insert, map_err, ok, ◌==◌, if◌then◌else◌,
}
use starlay_protocol_wasm.Words.{u128_max, sub128}
use starlay_protocol_wasm.Math.Exp.{exp}
use starlay_protocol_wasm.Prelude.Actions.{gets, view, pure, ◌>>◌, ok_or_throw, bind-elim}
use starlay_protocol_wasm.Prelude.Steps.{IsPreorder, Steps-gets, Steps-ok_or_throw, Steps-view}
use starlay_protocol_wasm.Pool.Errors.{Error, controller_is_not_set}
use starlay_protocol_wasm.Pool.Environment.{TokenLibrary, Contracts, Context}
use starlay_protocol_wasm.Pool.State.{Data, State, Event, emit, ask_controller}
use starlay_protocol_wasm.Pool.Scaled.{scaled_amount_of}
use starlay_protocol_wasm.Pool.Ledger.{debt}
use starlay_protocol_wasm.Pool.Views.{borrow_balance_stored, total_borrows}
use starlay_protocol_wasm.Pool.Accrual.{accrue_reward, assert_fresh, transfer_underlying_from}
use starlay_protocol_wasm.Pool.Lending.{repay_borrow_inner, increase_debt}
use starlay_protocol_wasm.Pool.Invariants.{increase_debt-eq-ok}
use starlay_protocol_wasm.Pool.Steps.{OnPool, Steps-accrue_reward, Steps-transfer_underlying_from}

abbrev pub Same : Data → Data → Type 0
Same d e = e ≡ d

-- A debt moved by `n`: the account's and the total alike.
abbrev pub moved : Data → (borrower : ℕ) → (ℕ → ℕ → ℕ) → ℕ → Data
moved d borrower change n = record d {
  account_borrows = insert d.account_borrows borrower (change (debt d.account_borrows borrower) n);
  borrows_scaled = change d.borrows_scaled n;
}

below_max :
    (amount prev : ℕ) → amount ≢ u128_max → (if amount == u128_max then prev else amount) ≡ amount
below_max amount prev h = ground arith

module _ (lib : TokenLibrary) (contracts : Contracts lib.Psp22Error) (ctx : Context) where
  pub Same-pre : IsPreorder (OnPool lib contracts Same)
  Same-pre = record { stay = λ s. refl; join = λ p q. q ∙ p }

  pub accrue_reward_same :
      (user : ℕ) (s t : State lib contracts)
      → accrue_reward lib contracts ctx user s ≡ ok (tt, t)
      → t.pool ≡ s.pool
  accrue_reward_same user s t e =
      (Steps-accrue_reward lib contracts ctx Same Same-pre user).at s tt t e

  transfer_from_same :
      (a b n : ℕ) (s t : State lib contracts)
      → transfer_underlying_from lib contracts ctx a b n s ≡ ok (tt, t)
      → t.pool ≡ s.pool
  transfer_from_same a b n s t e =
      (Steps-transfer_underlying_from lib contracts ctx Same Same-pre a b n).at s tt t e

  pub assert_fresh-eq-ok :
      (s t : State lib contracts)
      → assert_fresh lib contracts ctx s ≡ ok (tt, t)
      → (t ≡ s) × (s.pool.accrual_block_timestamp ≡ ctx.block_timestamp)
  unfolding assert_fresh
  assert_fresh-eq-ok s t e = ground arith

  emit-pure-eq-ok :
      (event : Event) (n : ℕ) (s t : State lib contracts) {m : ℕ}
      → (emit lib contracts event >> pure {E = Error lib.Psp22Error} n) s ≡ ok (m, t)
      → (m ≡ n) × (t.pool ≡ s.pool)
  emit-pure-eq-ok event n s t e = ground arith

  -- A successful repayment was made in an accrued block. It lowers the debt of the borrower and the total by
  -- the same scaled amount, that of what was paid, with wrapping subtraction, and nothing else in the
  -- pool's storage. What was paid is what was asked for, unless that was `u128::MAX`.
  pub repay_borrow_inner-moves :
      (payer borrower amount : ℕ) (s t : State lib contracts) (paid : ℕ)
      → repay_borrow_inner lib contracts ctx payer borrower amount s ≡ ok (paid, t)
      → (n : ℕ) × (scaled_amount_of {E = Error lib.Psp22Error} paid (exp s.pool.borrow_index)
          ≡ ok n)
        × (t.pool ≡ moved s.pool borrower sub128 n)
        × (s.pool.accrual_block_timestamp ≡ ctx.block_timestamp)
        × (amount ≢ u128_max → paid ≡ amount)
  unfolding repay_borrow_inner
  repay_borrow_inner-moves payer borrower amount s t paid e =
      bind-elim (accrue_reward lib contracts ctx borrower) _ e λ _ s1 e1 k1.
        bind-elim (accrue_reward lib contracts ctx payer) _ k1 λ _ s2 e2 k2.
          bind-elim (gets λ s. s.pool.controller) _ k2 λ c s3 e3 k3.
            bind-elim (ok_or_throw c controller_is_not_set) _ k3 λ controller s4 e4 k4.
              bind-elim
                (ask_controller lib contracts λ w.
                  contracts.repay_borrow_allowed w controller ctx.account_id payer borrower amount)
                _ k4
                λ _ s5 e5 k5. bind-elim (assert_fresh lib contracts ctx) _ k5 λ _ s6 e6 k6.
                  bind-elim (view λ s. borrow_balance_stored s.pool borrower) _ k6 λ prev s7 e7 k7.
                    let final = if amount == u128_max then prev else amount in
                    bind-elim
                      (transfer_underlying_from lib contracts ctx payer ctx.account_id final) _ k7
                      λ _ s8 e8 k8.
                        bind-elim (view λ s. total_borrows s.pool) _ k8 λ borrows s9 e9 k9.
                          bind-elim (increase_debt lib contracts ctx borrower final true) _ k9
                            λ _ s10 e10 k10.
                              let p1 = accrue_reward_same borrower s s1 e1 in
                              let p2 = accrue_reward_same payer s1 s2 e2 in
                              let (p6, fresh) = assert_fresh-eq-ok s5 s6 e6 in
                              let p8 = transfer_from_same payer ctx.account_id final s7 s8 e8 in
                              let p3 : s3.pool ≡ s2.pool =
                                (Steps-gets Same-pre (λ s. s.pool.controller)).at s2 c s3 e3 in
                              let p4 : s4.pool ≡ s3.pool =
                                (Steps-ok_or_throw Same-pre c controller_is_not_set).at s3
                                  controller s4 e4 in
                              let p5 : s5.pool ≡ s4.pool =
                                (Steps-view Same-pre λ s. map_err Error.controller (
                                    contracts.repay_borrow_allowed s.world controller ctx.account_id
                                      payer borrower amount)).at
                                  s4 _ s5 e5 in
                              let p7 : s7.pool ≡ s6.pool =
                                (Steps-view Same-pre
                                    (λ s. borrow_balance_stored s.pool borrower)).at
                                  s6 prev s7 e7 in
                              let p9 : s9.pool ≡ s8.pool =
                                (Steps-view Same-pre (λ s. total_borrows s.pool)).at s8 borrows s9
                                  e9 in
                              let q : s5.pool ≡ s.pool = p5 ∙ p4 ∙ p3 ∙ p2 ∙ p1 in
                              let p : s9.pool ≡ s.pool = p9 ∙ p8 ∙ p7 ∙ ap (λ u. u.pool) p6 ∙ q in
                              let (n, en, et) =
                                increase_debt-eq-ok lib contracts ctx borrower final true s9 e10 in
                              let r =
                                emit-pure-eq-ok
                                  (Event.repay_borrow payer borrower final (sub128 prev final)
                                    (sub128 borrows final))
                                  final s10 t k10 in
                              (
                                n,
                                rw (r.0, sym p) en,
                                rw r.1 (et ∙ ap (λ d. moved d borrower sub128 n) p),
                                rw (sym q) fresh,
                                λ h. r.0 ∙ below_max amount prev h,
                              )

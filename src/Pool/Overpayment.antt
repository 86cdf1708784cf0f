-- ===== src/Pool/Overpayment.antt =====
-- Repayments of more than the debt, `_repay_borrow` of logics/impls/pool/mod.rs.
use starlay_protocol_wasm.Prelude.{
  ℕ, ◌+◌, ◌-◌, ◌<◌, ◌≡◌, ◌≢◌, sym, ap, ◌∙◌, arith, true, some, ok, ok-injective, map_err, ◌∷◌, ◌==◌,
  ==_refl, if◌then◌else◌,
}
use starlay_protocol_wasm.Prelude.Actions.{lift, view, ok_or_throw, bind-ok}
use starlay_protocol_wasm.Words.{u128_mod, u128_max, sub128, sub128_wraps}
use starlay_protocol_wasm.Math.Exp.{exp}
use starlay_protocol_wasm.Pool.Errors.{Error, controller, controller_is_not_set}
use starlay_protocol_wasm.Pool.Environment.{TokenLibrary, Contracts, Context}
use starlay_protocol_wasm.Pool.State.{State, Event, ask_controller}
use starlay_protocol_wasm.Pool.Scaled.{scaled_amount_of}
use starlay_protocol_wasm.Pool.Ledger.{debt}
use starlay_protocol_wasm.Pool.Views.{borrow_balance_stored, total_borrows}
use starlay_protocol_wasm.Pool.Accrual.{accrue_reward, assert_fresh, transfer_underlying_from}
use starlay_protocol_wasm.Pool.Lending.{repay_borrow_inner, increase_debt}
use starlay_protocol_wasm.Pool.Repayment.{repay_borrow_inner-moves}

module _ (lib : TokenLibrary) (contracts : Contracts lib.Psp22Error) (ctx : Context) where
  -- What a repayment asks of others, none of it about the size of the debt: the rewards are paid, the
  -- controller consents, the token is transferred, the block is accrued, and the amounts are computed.
  pub record Ready (payer borrower amount : ℕ) (s : State lib contracts) : Type 0 where
    pub first : contracts.World
    pub second : contracts.World
    pub third : contracts.World
    pub rewards_borrower :
        accrue_reward lib contracts ctx borrower s ≡ ok (tt, record s { world = first })
    pub rewards_payer :
        accrue_reward lib contracts ctx payer (record s { world = first })
        ≡ ok (tt, record s { world = second })
    pub controller : ℕ
    pub controller_set : s.pool.controller ≡ some controller
    pub consents :
        contracts.repay_borrow_allowed second controller ctx.account_id payer borrower amount
        ≡ ok tt
    pub fresh : s.pool.accrual_block_timestamp ≡ ctx.block_timestamp
    pub owed : ℕ
    pub owed_is : borrow_balance_stored {E = Error lib.Psp22Error} s.pool borrower ≡ ok owed
    pub token : ℕ
    pub token_set : s.pool.underlying ≡ some token
    pub pays :
        contracts.token_transfer_from token ctx.account_id payer ctx.account_id amount second
        ≡ ok third
    pub borrows : ℕ
    pub borrows_are : total_borrows {E = Error lib.Psp22Error} s.pool ≡ ok borrows
    pub scaled : ℕ
    pub scaled_is :
        scaled_amount_of {E = Error lib.Psp22Error} amount (exp s.pool.borrow_index) ≡ ok scaled

  whole :
      (amount prev : ℕ) → amount ≢ u128_max → (if amount == u128_max then prev else amount) ≡ amount
  whole amount prev h = ground arith

  transfer_runs :
      (payer amount : ℕ) (s : State lib contracts) (token : ℕ) (w : contracts.World)
      → s.pool.underlying ≡ some token
      → contracts.token_transfer_from token ctx.account_id payer ctx.account_id amount s.world
        ≡ ok w
      → transfer_underlying_from lib contracts ctx payer ctx.account_id amount s
        ≡ ok (tt, record s { world = w })
  unfolding transfer_underlying_from
  transfer_runs payer amount s token w set pays = ground arith

  assert_fresh_runs :
      (s : State lib contracts)
      → s.pool.accrual_block_timestamp ≡ ctx.block_timestamp
      → assert_fresh lib contracts ctx s ≡ ok (tt, s)
  unfolding assert_fresh
  assert_fresh_runs s fresh = ground arith

  increase_debt_runs :
      (borrower amount scaled : ℕ) (s : State lib contracts)
      → scaled_amount_of {E = Error lib.Psp22Error} amount (exp s.pool.borrow_index) ≡ ok scaled
      → (t : State lib contracts) × (increase_debt lib contracts ctx borrower amount true s
          ≡ ok (tt, t))
  unfolding increase_debt
  increase_debt_runs borrower amount scaled s e = (
    _,
    bind-ok (lift (scaled_amount_of amount (exp s.pool.borrow_index))) _ {s = s}
        (ap (λ o. lift o s) e),
  )

  repay_borrow_inner_runs :
      (payer borrower amount : ℕ) (s : State lib contracts)
      → amount ≢ u128_max
      → Ready payer borrower amount s
      → (t : State lib contracts) × (repay_borrow_inner lib contracts ctx payer borrower amount s
          ≡ ok (amount, t))
  unfolding repay_borrow_inner
  repay_borrow_inner_runs payer borrower amount s below r =
      let s2 : State lib contracts = record s { world = r.second } in
      let s3 : State lib contracts = record s { world = r.third } in
      let final = if amount == u128_max then r.owed else amount in
      let all : final ≡ amount = whole amount r.owed below in
      let (t, lowered) = increase_debt_runs borrower amount r.scaled s3 r.scaled_is in
      (
        record t {
          events =
              Event.repay_borrow payer borrower final (sub128 r.owed final) (sub128 r.borrows final)
              ∷ t.events;
        },
        bind-ok (accrue_reward lib contracts ctx borrower) _ r.rewards_borrower
            ∙ bind-ok (accrue_reward lib contracts ctx payer) _ r.rewards_payer
            ∙ bind-ok (ok_or_throw s.pool.controller controller_is_not_set) _ {s = s2}
                (ap (λ o. ok_or_throw o controller_is_not_set s2) r.controller_set)
            ∙ bind-ok
                (ask_controller lib contracts λ w.
                  contracts.repay_borrow_allowed w r.controller ctx.account_id payer borrower
                    amount)
                _ {s = s2} (ap (λ o. lift (map_err controller o) s2) r.consents)
            ∙ bind-ok (assert_fresh lib contracts ctx) _ (assert_fresh_runs s2 r.fresh)
            ∙ bind-ok (view λ u. borrow_balance_stored u.pool borrower) _ {s = s2}
                (ap (λ o. lift o s2) r.owed_is)
            ∙ bind-ok (transfer_underlying_from lib contracts ctx payer ctx.account_id final) _
                (rw all (transfer_runs payer amount s2 r.token r.third r.token_set r.pays))
            ∙ bind-ok (view λ u. total_borrows u.pool) _ {s = s3}
                (ap (λ o. lift o s3) r.borrows_are)
            ∙ bind-ok (increase_debt lib contracts ctx borrower final true) _ (rw all lowered)
            ∙ ap
                (λ n. ok (
                  n,
                  record t {
                    events =
                        Event.repay_borrow payer borrower final (sub128 r.owed final)
                          (sub128 r.borrows final)
                        ∷ t.events;
                  },
                ))
                all,
      )

  -- Nothing stops a repayment of more than the debt. Where the rewards are paid, the pool has a controller and
  -- it consents, the token is transferred, interest was accrued at this block's time and the pool's amounts can
  -- be computed, a repayment of any amount but `u128::MAX` that scales to more than the borrower's debt, in 128
  -- bits, succeeds, and it wraps the debt around: the borrower is left with 2^128 less the excess.
  pub repay_borrow_inner_beyond_debt :
      (payer borrower amount : ℕ) (s : State lib contracts) (r : Ready payer borrower amount s)
      → amount ≢ u128_max
      → debt s.pool.account_borrows borrower < r.scaled
      → r.scaled < u128_mod
      → (t : State lib contracts) × (repay_borrow_inner lib contracts ctx payer borrower amount s
          ≡ ok (amount, t))
        × (debt t.pool.account_borrows borrower
            ≡ u128_mod + debt s.pool.account_borrows borrower - r.scaled)
  repay_borrow_inner_beyond_debt payer borrower amount s r below more fits =
      let (t, runs) = repay_borrow_inner_runs payer borrower amount s below r in
      let (n, en, et, _, _) =
        repay_borrow_inner-moves lib contracts ctx payer borrower amount s t amount runs in
      let same : n ≡ r.scaled = ok-injective (sym en ∙ r.scaled_is) in
      let wraps = sub128_wraps (debt s.pool.account_borrows borrower) r.scaled more fits in
      (t, runs, rw (et, ==_refl borrower, same) wraps)

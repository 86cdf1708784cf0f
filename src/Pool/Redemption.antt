-- ===== src/Pool/Redemption.antt =====
-- What a redemption does to the pool's tokens, the underlying token and the collateral flag, `_redeem` of
-- logics/impls/pool/mod.rs.
pub mod Laws
use mathlib.Core.Path.{subst}
use starlay_protocol_wasm.Prelude.{
  ℕ, ◌+◌, ◌*◌, ◌<◌, ◌≤◌, ◌≡◌, sym, ap, ◌∙◌, arith, Bool, false, not, ◌||◌, ◌&&◌, some, ltb, ◌==◌,
  if◌then◌else◌, ok, >>=-elim, ok-injective,
}
use starlay_protocol_wasm.Prelude.Actions.{
  lift, when, ◌>>=◌, ◌>>◌, bind-elim, view-elim, ok_or_throw-elim, throw_if-elim,
}
use starlay_protocol_wasm.Math.Exp.{exp}
use starlay_protocol_wasm.Pool.Errors.{
  Error, controller_is_not_set, redeem_transfer_out_not_possible,
}
use starlay_protocol_wasm.Pool.Environment.{TokenLibrary, Contracts, Context}
use starlay_protocol_wasm.Pool.State.{State, Event, emit, on_token}
use starlay_protocol_wasm.Pool.Scaled.{scaled_amount_of}
use starlay_protocol_wasm.Pool.Views.{
  using_reserve_as_collateral, exchange_rate_stored, balance_of, get_cash_prior,
  get_account_snapshot, pool_attributes, borrow_balance_stored,
}
use starlay_protocol_wasm.Pool.Accrual.{transfer_underlying}
use starlay_protocol_wasm.Pool.Collateral.{set_collateral_flag}
use starlay_protocol_wasm.Pool.Lending.{consent_to_redeem, redeem_checked}
use starlay_protocol_wasm.Pool.Runs.{
  on_token-elim, ask_controller-elim, assert_fresh-elim, transfer_underlying-elim,
  when-set_collateral_flag-Flagged,
}

module _ (lib : TokenLibrary) (contracts : Contracts lib.Psp22Error) (ctx : Context) where
  -- A redemption between two states, the first behind the reward's call.
  pub record Redemption (redeemer amount : ℕ) (s t : State lib contracts) : Type 0 where
    pub fresh : s.pool.accrual_block_timestamp ≡ ctx.block_timestamp
    pub cash : amount ≤ get_cash_prior lib contracts ctx s
    pub rate : ℕ
    pub rate_is : exchange_rate_stored lib contracts ctx {E = Error lib.Psp22Error} s ≡ ok rate
    pub tokens : ℕ
    pub tokens_are : scaled_amount_of {E = Error lib.Psp22Error} amount (exp rate) ≡ ok tokens
    pub debited : lib.burn_from redeemer tokens s.token ≡ ok t.token
    pub underlying : ℕ
    pub underlying_is : s.pool.underlying ≡ some underlying
    pub paid :
        contracts.token_transfer underlying ctx.account_id redeemer amount s.world ≡ ok t.world
    pub worth : ℕ
    pub worth_is : balance_of lib contracts ctx {E = Error lib.Psp22Error} s redeemer ≡ ok worth
    pub only_flags :
        t.pool ≡ record s.pool { using_reserve_as_collateral = t.pool.using_reserve_as_collateral }
    pub flags :
        (u : ℕ)
        → using_reserve_as_collateral t.pool u
          ≡ (not (worth == amount && u == redeemer) && using_reserve_as_collateral s.pool u)

  snapshot_rate :
      {E : Type 0} (s : State lib contracts) (account : ℕ) {x : ℕ × ℕ × ℕ}
      → get_account_snapshot lib contracts ctx {E = E} s account ≡ ok x
      → exchange_rate_stored lib contracts ctx {E = E} s ≡ ok x.2
  unfolding get_account_snapshot
  snapshot_rate {E} s account e =
      >>=-elim
        (if using_reserve_as_collateral s.pool account
          then balance_of lib contracts ctx {E = E} s account
          else ok 0)
        _ e
        λ balance _ e1.
          >>=-elim (borrow_balance_stored {E = E} s.pool account) _ e1 λ borrowed _ e2.
            >>=-elim (exchange_rate_stored lib contracts ctx {E = E} s) _ e2
              λ rate er e3. er ∙ ap (λ y. ok y.2) (ok-injective e3)

  consent_to_redeem-eq-ok :
      (redeemer amount rate : ℕ) (s t : State lib contracts)
      → consent_to_redeem lib contracts ctx redeemer amount s ≡ ok (rate, t)
      → (exchange_rate_stored lib contracts ctx {E = Error lib.Psp22Error} s ≡ ok rate) × (t ≡ s)
  unfolding consent_to_redeem
  consent_to_redeem-eq-ok redeemer amount rate s t e =
      ok_or_throw-elim s.pool.controller controller_is_not_set _ e λ controller ec k1.
        view-elim (λ u. get_account_snapshot lib contracts ctx u redeemer) _ {s = s} k1
          λ snapshot es k2.
            view-elim (λ u. balance_of lib contracts ctx u redeemer) _ k2
              λ worth ew k3.
                view-elim (λ u. pool_attributes lib contracts ctx u worth snapshot.1 snapshot.2) _
                  k3
                  λ attributes ea k4.
                    ask_controller-elim lib contracts
                      (λ w.
                        contracts.redeem_allowed w controller ctx.account_id redeemer amount
                          (some attributes))
                      _ k4
                      λ _ _ k5.
                        let same = ok-injective k5 in
                        (
                          snapshot_rate s redeemer es ∙ ap (λ x. ok x.0) same,
                          ap (λ x. x.1) (sym same),
                        )

  -- What the last calls of `_redeem` do: the flag, the debit, the payment and the event.
  record Debited (redeemer amount rate : ℕ) (last : Bool) (s t : State lib contracts) : Type 0 where
    pub tokens : ℕ
    pub tokens_are : scaled_amount_of {E = Error lib.Psp22Error} amount (exp rate) ≡ ok tokens
    pub debited : lib.burn_from redeemer tokens s.token ≡ ok t.token
    pub underlying : ℕ
    pub underlying_is : s.pool.underlying ≡ some underlying
    pub paid :
        contracts.token_transfer underlying ctx.account_id redeemer amount s.world ≡ ok t.world
    pub only_flags :
        t.pool ≡ record s.pool { using_reserve_as_collateral = t.pool.using_reserve_as_collateral }
    pub flags :
        (u : ℕ)
        → using_reserve_as_collateral t.pool u
          ≡ (not (last && u == redeemer) && using_reserve_as_collateral s.pool u)

  debit-Debited :
      (redeemer amount rate : ℕ) (last : Bool) (event : Event) (s t : State lib contracts)
      → (when last (set_collateral_flag lib contracts ctx redeemer false)
            >> (lift (scaled_amount_of amount (exp rate)) >>= λ tokens.
                on_token lib contracts (lib.burn_from redeemer tokens)
                >> (transfer_underlying lib contracts ctx redeemer amount
                    >> emit lib contracts event)))
          s
        ≡ ok (tt, t)
      → Debited redeemer amount rate last s t
  debit-Debited redeemer amount rate last event s t e =
      bind-elim (when last (set_collateral_flag lib contracts ctx redeemer false)) _ {s = s} e
        λ _ u flag k1.
          view-elim (λ _. scaled_amount_of amount (exp rate)) _ k1
            λ tokens et k2.
              on_token-elim lib contracts (lib.burn_from redeemer tokens) _ k2 λ token debited k3.
                transfer_underlying-elim lib contracts ctx _ (record u { token = token }) redeemer
                  amount k3
                  λ underlying eu w paid end.
                    let f =
                      when-set_collateral_flag-Flagged lib contracts ctx last redeemer false s u
                        flag in
                    let final : t ≡ record u { token = token; world = w; events = t.events } = cc in
                    let kept : u.pool ≡ t.pool = cc in
                    record {
                      tokens = tokens;
                      tokens_are = et;
                      debited =
                          ap (lib.burn_from redeemer tokens) (sym (ap (λ v. v.token) f.only_pool))
                          ∙ debited
                          ∙ ap (λ v. ok v) (sym (ap (λ v. v.token) final));
                      underlying = underlying;
                      underlying_is = sym (ap (λ p. p.underlying) f.only_flags) ∙ eu;
                      paid =
                          ap (contracts.token_transfer underlying ctx.account_id redeemer amount)
                            (sym (ap (λ v. v.world) f.only_pool))
                          ∙ paid
                          ∙ ap (λ v. ok v) (sym (ap (λ v. v.world) final));
                      only_flags =
                          subst
                            (λ p. p ≡ record s.pool {
                              using_reserve_as_collateral = p.using_reserve_as_collateral;
                            })
                            kept f.only_flags;
                      flags = λ v.
                          subst
                            (λ p. using_reserve_as_collateral p v ≡ (
                              not (last && v == redeemer) && using_reserve_as_collateral s.pool v))
                            kept (ground (arith, f.flags v));
                    }

  pub redeem_checked-Redemption :
      (redeemer amount : ℕ) (s t : State lib contracts)
      → redeem_checked lib contracts ctx redeemer amount s ≡ ok (tt, t)
      → Redemption redeemer amount s t
  unfolding redeem_checked
  redeem_checked-Redemption redeemer amount s t e =
      bind-elim (consent_to_redeem lib contracts ctx redeemer amount) _ {s = s} e λ rate s1 e1 k.
        let (er, same) = consent_to_redeem-eq-ok redeemer amount rate s s1 e1 in
        assert_fresh-elim lib contracts ctx _ {s = s} (rw same at k) λ fresh k2.
          throw_if-elim (ltb (get_cash_prior lib contracts ctx s) amount)
            redeem_transfer_out_not_possible _ k2
            λ enough k3.
              view-elim (λ u. balance_of lib contracts ctx u redeemer) _ k3
                λ worth ew k4.
                  let d = debit-Debited redeemer amount rate (worth == amount) _ s t k4 in
                  record {
                    fresh = fresh;
                    cash = ground arith;
                    rate = rate;
                    rate_is = er;
                    tokens = d.tokens;
                    tokens_are = d.tokens_are;
                    debited = d.debited;
                    underlying = d.underlying;
                    underlying_is = d.underlying_is;
                    paid = d.paid;
                    worth = worth;
                    worth_is = ew;
                    only_flags = d.only_flags;
                    flags = d.flags;
                  }

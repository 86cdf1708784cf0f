-- ===== src/Pool/Seizure.antt =====
-- What a seizure does to the pool's reserves and to its tokens, `_seize` of logics/impls/pool/mod.rs.
pub mod Laws
use starlay_protocol_wasm.Prelude.{ℕ, ◌≡◌, ◌≢◌, sym, ap, ◌∙◌, arith, ◌==◌, ok, ok-injective}
use starlay_protocol_wasm.Prelude.Actions.{
  ◌>>=◌, ◌>>◌, bind-elim, view-elim, ok_or_throw-elim, throw_if-elim,
}
use starlay_protocol_wasm.Words.{add128, sub128}
use starlay_protocol_wasm.Math.Exp.{exp}
use starlay_protocol_wasm.Pool.Errors.{
  Error, controller_is_not_set, liquidate_seize_liquidator_is_borrower,
}
use starlay_protocol_wasm.Pool.Environment.{TokenLibrary, Contracts, Context}
use starlay_protocol_wasm.Pool.State.{State, Event, emit, on_token}
use starlay_protocol_wasm.Pool.Scaled.{scaled_amount_of}
use starlay_protocol_wasm.Pool.Exchange.{protocol_seize_amount, protocol_seize_share_mantissa}
use starlay_protocol_wasm.Pool.Views.{total_reserves, exchange_rate_stored}
use starlay_protocol_wasm.Pool.Liquidation.{raise_reserves, lower_supply, seize_inner}
use starlay_protocol_wasm.Pool.Runs.{on_token-elim, ask_controller-elim, accrue_reward-elim}

module _ (lib : TokenLibrary) (contracts : Contracts lib.Psp22Error) (ctx : Context) where
  -- A seizure between two states.
  pub record Seizure (liquidator borrower seize_tokens : ℕ) (s t : State lib contracts)
      : Type 0 where
    pub distinct : liquidator ≢ borrower
    pub rate : ℕ
    pub rate_is :
        exchange_rate_stored lib contracts ctx {E = Error lib.Psp22Error}
          (record s { world = t.world })
        ≡ ok rate
    pub liquidator_tokens : ℕ
    pub amount : ℕ
    pub protocol_tokens : ℕ
    pub split :
        protocol_seize_amount {E = Error lib.Psp22Error}
          (exp rate)
          seize_tokens
          protocol_seize_share_mantissa
        ≡ ok (liquidator_tokens, amount, protocol_tokens)
    pub scaled : ℕ
    pub scaled_is :
        scaled_amount_of {E = Error lib.Psp22Error} amount (exp s.pool.borrow_index) ≡ ok scaled
    pub only_reserves :
        t.pool ≡ record s.pool { reserves_scaled = add128 s.pool.reserves_scaled scaled }
    pub burned : lib.Token
    pub burns :
        lib.burn_from borrower seize_tokens
          (lib.set_supply (sub128 (lib.supply s.token) protocol_tokens) s.token)
        ≡ ok burned
    pub mints : lib.mint_to liquidator liquidator_tokens burned ≡ ok t.token

  -- The calls of `_seize` that move tokens.
  record Moved (liquidator borrower seize_tokens liquidator_tokens protocol_tokens : ℕ)
      (s t : State lib contracts) : Type 0 where
    pub burned : lib.Token
    pub burns :
        lib.burn_from borrower seize_tokens
          (lib.set_supply (sub128 (lib.supply s.token) protocol_tokens) s.token)
        ≡ ok burned
    pub mints : lib.mint_to liquidator liquidator_tokens burned ≡ ok t.token
    pub only : t ≡ record s { token = t.token; events = t.events }

  move-Moved :
      (liquidator borrower seize_tokens liquidator_tokens protocol_tokens : ℕ) (event : Event)
      (s t : State lib contracts)
      → (lower_supply lib contracts ctx protocol_tokens
            >> (on_token lib contracts (lib.burn_from borrower seize_tokens)
                >> (on_token lib contracts (lib.mint_to liquidator liquidator_tokens)
                    >> emit lib contracts event)))
          s
        ≡ ok (tt, t)
      → Moved liquidator borrower seize_tokens liquidator_tokens protocol_tokens s t
  unfolding lower_supply
  move-Moved liquidator borrower seize_tokens liquidator_tokens protocol_tokens event s t e =
      let finish =
        on_token lib contracts (lib.mint_to liquidator liquidator_tokens)
        >> emit lib contracts event in
      let lower = λ (k : lib.Token). lib.set_supply (sub128 (lib.supply k) protocol_tokens) k in
      on_token-elim lib contracts (λ k. ok (lower k))
        (λ _. on_token lib contracts (lib.burn_from borrower seize_tokens) >> finish) {s = s} e
        λ lowered el k2.
          on_token-elim lib contracts (lib.burn_from borrower seize_tokens) (λ _. finish)
            {s = record s { token = lowered }} k2
            λ burned eb k3.
              on_token-elim lib contracts (lib.mint_to liquidator liquidator_tokens)
                (λ _. emit lib contracts event) {s = record s { token = burned }} k3
                λ minted em end.
                  let last : t ≡ record s { token = minted; events = t.events } = cc in
                  record {
                    burned = burned;
                    burns = ap (lib.burn_from borrower seize_tokens) (ok-injective el) ∙ eb;
                    mints = em ∙ ap (λ x. ok x.token) (sym last);
                    only = cc;
                  }

  raise_reserves-eq-ok :
      (amount : ℕ) (s t : State lib contracts)
      → raise_reserves lib contracts ctx amount s ≡ ok (tt, t)
      → (scaled : ℕ) × (scaled_amount_of {E = Error lib.Psp22Error} amount (exp s.pool.borrow_index)
          ≡ ok scaled)
        × (t ≡ record s {
          pool = record s.pool { reserves_scaled = add128 s.pool.reserves_scaled scaled };
        })
  unfolding raise_reserves
  raise_reserves-eq-ok amount s t e =
      view-elim (λ _. scaled_amount_of amount (exp s.pool.borrow_index)) _ {s = s} e
        λ scaled es done. (scaled, es, ap (λ x. x.1) (sym (ok-injective done)))

  -- A seizure that succeeds is one as `Seizure` says.
  pub seize_inner-Seizure :
      (seizer_token liquidator borrower seize_tokens : ℕ) (s t : State lib contracts)
      → seize_inner lib contracts ctx seizer_token liquidator borrower seize_tokens s ≡ ok (tt, t)
      → Seizure liquidator borrower seize_tokens s t
  unfolding seize_inner
  seize_inner-Seizure seizer_token liquidator borrower seize_tokens s t e =
      accrue_reward-elim lib contracts ctx _ s borrower e λ w1 _ k1.
        accrue_reward-elim lib contracts ctx _ (record s { world = w1 }) liquidator k1
          λ w2 _ k2.
            ok_or_throw-elim s.pool.controller controller_is_not_set _ k2 λ controller ec k3.
              ask_controller-elim lib contracts
                (λ w.
                  contracts.seize_allowed w controller ctx.account_id seizer_token liquidator
                    borrower seize_tokens)
                _ k3
                λ _ _ k4.
                  throw_if-elim (liquidator == borrower) liquidate_seize_liquidator_is_borrower _ k4
                    λ differ k5.
                      view-elim (exchange_rate_stored lib contracts ctx) _ k5 λ rate er k6.
                        view-elim
                          (λ _.
                            protocol_seize_amount (exp rate) seize_tokens
                              protocol_seize_share_mantissa)
                          _ k6
                          λ parts ep k7.
                            view-elim (λ u. total_reserves u.pool) _ k7
                              λ reserves _ k8.
                                bind-elim (raise_reserves lib contracts ctx parts.1) _ k8
                                  λ _ u raised k9.
                                    let (scaled, es, at_u) =
                                      raise_reserves-eq-ok parts.1 (record s { world = w2 }) u
                                        raised in
                                    let m =
                                      move-Moved liquidator borrower seize_tokens parts.0 parts.2 _
                                        u t k9 in
                                    record {
                                      distinct = ground arith;
                                      rate = rate;
                                      rate_is =
                                          ap
                                            (λ w.
                                              exchange_rate_stored lib contracts ctx
                                                (record s { world = w }))
                                            (ap (λ x. x.world) m.only ∙ ap (λ x. x.world) at_u)
                                          ∙ er;
                                      liquidator_tokens = parts.0;
                                      amount = parts.1;
                                      protocol_tokens = parts.2;
                                      split = ep;
                                      scaled = scaled;
                                      scaled_is = es;
                                      only_reserves =
                                          ap (λ x. x.pool) m.only ∙ ap (λ x. x.pool) at_u;
                                      burned = m.burned;
                                      burns =
                                          ap
                                            (λ k.
                                              lib.burn_from borrower seize_tokens
                                                (lib.set_supply (sub128 (lib.supply k) parts.2) k))
                                            (ap (λ x. x.token) (sym at_u))
                                          ∙ m.burns;
                                      mints = m.mints;
                                    }

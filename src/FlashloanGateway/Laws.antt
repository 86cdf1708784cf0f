-- ===== src/FlashloanGateway/Laws.antt =====
-- What a finished flash loan has done, logics/impls/flashloan_gateway.rs.
use starlay_protocol_wasm.Prelude.{
  ℕ, ◌≡◌, refl, ap, ◌∙◌, arith, true, false, not, some, List, [], ◌∷◌, ◌==◌, Outcome, ok, err,
  panic, ok_or, map_err, unwrap, fail_if, >>=-elim, ok-injective, map_err-eq-ok, ok_or-eq-ok,
  Bool-cases, inl, inr,
}
use mathlib.Core.Path.{subst}
use starlay_protocol_wasm.Words.{add128}
use starlay_protocol_wasm.FlashloanGateway.{
  Data, Context, Contracts, Leg, premium_of, map_legs, same_length, lend, settle, settle_all,
  flashloan, controller_is_not_set, market_not_listed, inconsistent_flashloan_params,
  invalid_flashloan_executor_return, pool, psp22,
}

pub unwrap-eq-ok : {E F A : Type 0} (o : Outcome E A) {a : A} → unwrap {F = F} o ≡ ok a → o ≡ ok a
unwrap-eq-ok (ok b) e = cc
unwrap-eq-ok (err x) e = absurd (cc)
unwrap-eq-ok panic e = absurd (cc)

module _ {P : Type 0} (contracts : Contracts P) (d : Data) (ctx : Context) where
  -- The receiver got each amount out of the market of its asset.
  pub data Lent (controller receiver : ℕ)
      : List Leg → contracts.World → contracts.World → Type 0 where
    none_left : {w : contracts.World} → Lent controller receiver [] w w
    lent :
        {w w1 w2 : contracts.World} (leg : Leg) {legs : List Leg}
        → contracts.market_of_underlying w controller leg.asset ≡ some leg.market
        → leg.premium ≡ premium_of leg.amount d.flashloan_premium_total
        → contracts.transfer_underlying leg.market ctx.account_id receiver leg.amount w ≡ ok w1
        → Lent controller receiver legs w1 w2
        → Lent controller receiver (leg ∷ legs) w w2

  -- Each amount came back with its premium to its market, after an accrual there, or became a loan of the
  -- caller, as its mode says.
  pub data Settled (receiver : ℕ)
      : (modes : List ℕ) → List Leg → contracts.World → contracts.World → Type 0 where
    none_left : {modes : List ℕ} {w : contracts.World} → Settled receiver modes [] w w
    returned :
        {w w1 w2 w3 : contracts.World} (leg : Leg) {modes : List ℕ} {legs : List Leg}
        → contracts.accrue_interest leg.market ctx.account_id w ≡ ok w1
        → contracts.transfer_from leg.asset ctx.account_id receiver leg.market
            (add128 leg.amount leg.premium)
            w1
          ≡ ok w2
        → Settled receiver modes legs w2 w3
        → Settled receiver (0 ∷ modes) (leg ∷ legs) w w3
    borrowed :
        {w w1 w2 : contracts.World} (mode : ℕ) (leg : Leg) {modes : List ℕ} {legs : List Leg}
        → (mode == 0) ≡ false
        → contracts.borrow_for_flashloan leg.market ctx.account_id ctx.caller leg.amount w ≡ ok w1
        → Settled receiver modes legs w1 w2
        → Settled receiver (mode ∷ modes) (leg ∷ legs) w w2

  -- The loop has lent these assets and amounts.
  record Lends (controller receiver : ℕ) (assets amounts : List ℕ) (legs : List Leg)
      (w w' : contracts.World) : Type 0 where
    pub lent : Lent controller receiver legs w w'
    pub assets_are : map_legs (λ leg. leg.asset) legs ≡ assets
    pub amounts_are : map_legs (λ leg. leg.amount) legs ≡ amounts

  lend-Lends :
      (controller receiver : ℕ) (assets amounts : List ℕ) (w : contracts.World) {legs : List Leg}
      {w' : contracts.World}
      → same_length assets amounts ≡ true
      → lend contracts d ctx controller receiver assets amounts w ≡ ok (legs, w')
      → Lends controller receiver assets amounts legs w w'
  unfolding lend same_length map_legs
  lend-Lends controller receiver [] [] w h e =
      subst (λ r. Lends controller receiver [] [] r.0 w r.1) (ok-injective e)
        (record { lent = Lent.none_left; assets_are = refl; amounts_are = refl })
  lend-Lends controller receiver [] (n ∷ amounts) w h e = absurd (cc)
  lend-Lends controller receiver (a ∷ assets) [] w h e = absurd (cc)
  lend-Lends controller receiver (a ∷ assets) (n ∷ amounts) w h e =
      >>=-elim (ok_or (contracts.market_of_underlying w controller a) market_not_listed) _ e
        λ market em e1.
          >>=-elim (map_err pool (contracts.transfer_underlying market ctx.account_id receiver n w))
            _ e1
            λ w1 et e2.
              >>=-elim (lend contracts d ctx controller receiver assets amounts w1) _ e2 λ r er e3.
                let rest = lend-Lends controller receiver assets amounts w1 h er in
                subst (λ q. Lends controller receiver (a ∷ assets) (n ∷ amounts) q.0 w q.1)
                  (ok-injective e3)
                  (record {
                    lent =
                        Lent.lent
                          (record {
                            asset = a;
                            amount = n;
                            market = market;
                            premium = premium_of n d.flashloan_premium_total;
                          })
                          (ok_or-eq-ok _ market_not_listed em) refl (map_err-eq-ok pool _ et)
                          rest.lent;
                    assets_are = ap (λ l. a ∷ l) rest.assets_are;
                    amounts_are = ap (λ l. n ∷ l) rest.amounts_are;
                  })

  zero_mode : (mode : ℕ) → (mode == 0) ≡ true → 0 ≡ mode
  zero_mode mode e = ground arith

  settle_all-Settled :
      (receiver : ℕ) (modes : List ℕ) (legs : List Leg) (w : contracts.World) {w' : contracts.World}
      → settle_all contracts d ctx receiver modes legs w ≡ ok w'
      → Settled receiver modes legs w w'
  unfolding settle_all settle
  settle_all-Settled receiver modes [] w e =
      subst (Settled receiver modes [] w) (ok-injective e) Settled.none_left
  settle_all-Settled receiver [] (leg ∷ legs) w e = absurd (cc)
  settle_all-Settled receiver (mode ∷ modes) (leg ∷ legs) w {w'} e = elim (Bool-cases (mode == 0)) [
    | inl zero_is ↦ >>=-elim (settle contracts d ctx receiver mode leg w) _ e λ w2 es e1.
        >>=-elim (map_err pool (contracts.accrue_interest leg.market ctx.account_id w)) _
          (rw (zero_is, settle) at es)
          λ w1 ea e2.
            subst (λ m. Settled receiver (m ∷ modes) (leg ∷ legs) w w') (zero_mode mode zero_is)
              (Settled.returned leg (map_err-eq-ok pool _ ea) (map_err-eq-ok psp22 _ e2)
                (settle_all-Settled receiver modes legs w2 e1))
    | inr other ↦ >>=-elim (settle contracts d ctx receiver mode leg w) _ e λ w2 es e1.
        Settled.borrowed mode leg other (map_err-eq-ok pool _ (rw (other, settle) at es))
          (settle_all-Settled receiver modes legs w2 e1)
  ]

  pub record Completed (receiver : ℕ) (assets amounts modes params : List ℕ)
      (w w' : contracts.World) : Type 0 where
    pub controller : ℕ
    pub controller_set : d.controller ≡ some controller
    pub legs : List Leg
    pub assets_are : map_legs (λ leg. leg.asset) legs ≡ assets
    pub amounts_are : map_legs (λ leg. leg.amount) legs ≡ amounts
    pub during : contracts.World
    pub lent : Lent controller receiver legs w during
    pub after : contracts.World
    pub executed :
        contracts.execute_operation receiver ctx.account_id assets amounts
          (map_legs (λ leg. leg.premium) legs)
          ctx.caller
          params
          during
        ≡ ok (true, after)
    pub settled : Settled receiver modes legs after w'

  -- A flash loan that succeeds has lent every amount out of the market of its asset, has had the receiver's
  -- contract answer with `true`, and has then settled every amount in the order of the call: it came back with
  -- its premium to its market after an accrual there, or became a loan of the caller.
  pub flashloan-Completed :
      (receiver : ℕ) (assets amounts modes params : List ℕ) (w : contracts.World)
      {w' : contracts.World}
      → flashloan contracts d ctx receiver assets amounts modes params w ≡ ok w'
      → Completed receiver assets amounts modes params w w'
  unfolding flashloan
  flashloan-Completed receiver assets amounts modes params w e =
      >>=-elim (fail_if (not (same_length assets amounts)) inconsistent_flashloan_params) _ e
        λ _ el e1. >>=-elim (ok_or d.controller controller_is_not_set) _ e1 λ controller ec e2.
          >>=-elim (lend contracts d ctx controller receiver assets amounts w) _ e2 λ r er e3.
            >>=-elim
              (unwrap (
                contracts.execute_operation receiver ctx.account_id assets amounts
                  (map_legs (λ leg. leg.premium) r.0) ctx.caller params r.1))
              _ e3
              λ a ea e4.
                >>=-elim (fail_if (not a.0) invalid_flashloan_executor_return) _ e4 λ _ ef e5.
                  let lends = lend-Lends controller receiver assets amounts w (ground arith) er in
                  let yes : a.0 ≡ true = ground arith in
                  record {
                    controller = controller;
                    controller_set = ok_or-eq-ok d.controller controller_is_not_set ec;
                    legs = r.0;
                    assets_are = lends.assets_are;
                    amounts_are = lends.amounts_are;
                    during = r.1;
                    lent = lends.lent;
                    after = a.1;
                    executed = unwrap-eq-ok _ ea ∙ ap (λ b. ok (b, a.1)) yes;
                    settled = settle_all-Settled receiver modes r.0 a.1 e5;
                  }

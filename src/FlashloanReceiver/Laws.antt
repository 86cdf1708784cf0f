-- ===== src/FlashloanReceiver/Laws.antt =====
-- A flash loan through the gateway to this receiver, logics/impls/flashloan_gateway.rs and
-- logics/impls/flashloan_receiver.rs together.
use starlay_protocol_wasm.Prelude.{
  ℕ, ◌+◌, ◌<◌, ◌≡◌, ◌≢◌, sym, ap, ◌∙◌, arith, true, not, some, List, [], ◌∷◌, Outcome, ok, map_err,
  unwrap, fail_if, ◌>>=◌, >>=-elim, ok-injective, ==_refl, map_err-eq-ok,
}
use starlay_protocol_wasm.Words.{u128_mod, add128, add128_exact}
use starlay_protocol_wasm.FlashloanGateway
use starlay_protocol_wasm.FlashloanGateway.Laws.{unwrap-eq-ok}
use starlay_protocol_wasm.FlashloanGateway.{Context, Contracts, premium_of}
use starlay_protocol_wasm.FlashloanReceiver.{Data, with_receiver}
use starlay_protocol_wasm.FlashloanReceiver.Steps.{
  Moved, Lawful, Taken, Moved-src, Moved-dst, Moved-other, execute_operation-Taken, returned-eq-ok,
}

module _ {P : Type 0} (contracts : Contracts P)
    (balance_of : contracts.World → (token account : ℕ) → ℕ)
    (approve : (token sender spender value : ℕ) → contracts.World → Outcome P contracts.World)
    (r : Data) (receiver : ℕ) (d : FlashloanGateway.Data) (ctx : Context) where
  -- The steps of such a loan.
  record Steps (asset amount premium market : ℕ) (w w' : contracts.World) : Type 0 where
    pub lent : contracts.World
    pub taken : contracts.World
    pub approved : contracts.World
    pub accrued : contracts.World
    pub lends : Moved contracts balance_of asset market receiver amount w lent
    pub takes : Moved contracts balance_of asset ctx.caller receiver premium lent taken
    pub approves :
        (account : ℕ) → balance_of approved asset account ≡ balance_of taken asset account
    pub accrues :
        (account : ℕ) → balance_of accrued asset account ≡ balance_of approved asset account
    pub returns :
        Moved contracts balance_of asset receiver market (add128 amount premium) accrued w'

  Steps-earn :
      (asset amount premium market : ℕ) (w w' : contracts.World)
      → Steps asset amount premium market w w'
      → ctx.caller ≢ receiver
      → ctx.caller ≢ market
      → receiver ≢ market
      → amount + premium < u128_mod
      → (balance_of w' asset market ≡ balance_of w asset market + premium)
        × (balance_of w asset ctx.caller ≡ balance_of w' asset ctx.caller + premium)
        × (balance_of w' asset receiver ≡ balance_of w asset receiver)
  Steps-earn asset amount premium market w w' s cr cm rm fits =
      let caller = ctx.caller in
      let sum = add128_exact amount premium fits in
      let lent_m = Moved-src contracts balance_of s.lends (λ p. rm (sym p)) in
      let lent_r = Moved-dst contracts balance_of s.lends (λ p. rm (sym p)) in
      let lent_c = Moved-other contracts balance_of caller s.lends cm cr in
      let taken_c = Moved-src contracts balance_of s.takes cr in
      let taken_r = Moved-dst contracts balance_of s.takes cr in
      let taken_m =
        Moved-other contracts balance_of market s.takes (λ p. cm (sym p)) (λ p. rm (sym p)) in
      let back_r = Moved-src contracts balance_of s.returns rm in
      let back_m = Moved-dst contracts balance_of s.returns rm in
      let back_c = Moved-other contracts balance_of caller s.returns cr cm in
      let kept = λ (a : ℕ). s.accrues a ∙ s.approves a in
      (omega (arith, kept market), omega (arith, kept caller), omega (arith, kept receiver))

  -- The receiver's part of a loan, where the gateway finds an answer `true`.
  receiver-Taken :
      (asset amount premium : ℕ) (params : List ℕ) (w w' : contracts.World)
      → unwrap {F = FlashloanGateway.Error P} (
          (with_receiver contracts balance_of approve r receiver).execute_operation receiver
            ctx.account_id
            (asset ∷ [])
            (amount ∷ [])
            (premium ∷ [])
            ctx.caller
            params
            w)
        ≡ ok (true, w')
      → Taken
          (record {
            transfer_from = contracts.transfer_from;
            balance_of = balance_of;
            approve = approve;
          })
          receiver
          asset
          amount
          premium
          ctx.caller
          w
          w'
  receiver-Taken asset amount premium params w w' e =
      execute_operation-Taken _ receiver asset amount premium ctx.caller params r w w'
        (unwrap-eq-ok _ (rw (==_refl receiver) at e))

  flashloan-Steps :
      (asset amount market controller : ℕ) (params : List ℕ) (w w' : contracts.World)
      → Lawful contracts balance_of approve asset market
      → d.controller ≡ some controller
      → contracts.market_of_underlying w controller asset ≡ some market
      → FlashloanGateway.flashloan
          (with_receiver contracts balance_of approve r receiver)
          d
          ctx
          receiver
          (asset ∷ [])
          (amount ∷ [])
          (0 ∷ [])
          params
          w
        ≡ ok w'
      → Steps asset amount (premium_of amount d.flashloan_premium_total) market w w'
  unfolding FlashloanGateway.flashloan FlashloanGateway.lend FlashloanGateway.settle_all
      FlashloanGateway.settle FlashloanGateway.same_length FlashloanGateway.map_legs
  flashloan-Steps asset amount market controller params w w' law ec em e =
      let premium = premium_of amount d.flashloan_premium_total in
      >>=-elim
        (map_err FlashloanGateway.pool
            (contracts.transfer_underlying market ctx.account_id receiver amount w)
          >>= λ w1. ok (
            record { asset = asset; amount = amount; market = market; premium = premium } ∷ [],
            w1,
          ))
        _ (rw (ec, em) at e)
        λ q eq e1.
          >>=-elim
            (map_err FlashloanGateway.pool
              (contracts.transfer_underlying market ctx.account_id receiver amount w))
            _ eq
            λ w1 el made.
              let e2 = rw (sym (ok-injective made)) at e1 in
              >>=-elim
                (unwrap (
                  (with_receiver contracts balance_of approve r receiver).execute_operation receiver
                    ctx.account_id (asset ∷ []) (amount ∷ []) (premium ∷ []) ctx.caller params w1))
                _ e2
                λ a ea e3.
                  >>=-elim (fail_if (not a.0) FlashloanGateway.invalid_flashloan_executor_return) _
                    e3
                    λ _ answered e4.
                      let yes : a.0 ≡ true = ground arith in
                      let t =
                        receiver-Taken asset amount premium params w1 a.1
                          (ea ∙ ap (λ b. ok (b, a.1)) yes) in
                      let (v, accrued, returned) =
                        returned-eq-ok (with_receiver contracts balance_of approve r receiver)
                          (record d { controller = some controller }) ctx receiver
                          (record {
                            asset = asset;
                            amount = amount;
                            market = market;
                            premium = premium;
                          })
                          a.1 e4 in
                      record {
                        lent = w1;
                        taken = t.between;
                        approved = a.1;
                        accrued = v;
                        lends =
                            law.lends ctx.account_id receiver amount w w1
                              (map_err-eq-ok FlashloanGateway.pool _ el);
                        takes =
                            law.transfers receiver ctx.caller receiver premium w1 t.between t.taken;
                        approves =
                            law.approvals receiver t.gateway (add128 amount premium) t.between a.1
                              t.approved;
                        accrues = law.accrues ctx.account_id a.1 v accrued;
                        returns =
                            law.transfers ctx.account_id receiver market (add128 amount premium) v
                              w' returned;
                      }

  -- What a flash loan earns, with this repository's receiver. A flash loan of one asset that is to be given
  -- back and succeeds leaves the asset's market with the premium on top of what it had; the caller has paid
  -- just the premium, and the receiver has what it had. The token's transfers move what they say, the market
  -- lends out of its balance and keeps it at an accrual, caller, receiver and market are three accounts, and
  -- amount and premium together fit in 128 bits.
  pub flashloan_earns :
      (asset amount market controller : ℕ) (params : List ℕ) (w w' : contracts.World)
      → Lawful contracts balance_of approve asset market
      → d.controller ≡ some controller
      → contracts.market_of_underlying w controller asset ≡ some market
      → ctx.caller ≢ receiver
      → ctx.caller ≢ market
      → receiver ≢ market
      → amount + premium_of amount d.flashloan_premium_total < u128_mod
      → FlashloanGateway.flashloan
          (with_receiver contracts balance_of approve r receiver)
          d
          ctx
          receiver
          (asset ∷ [])
          (amount ∷ [])
          (0 ∷ [])
          params
          w
        ≡ ok w'
      → let premium = premium_of amount d.flashloan_premium_total in
        (balance_of w' asset market ≡ balance_of w asset market + premium)
        × (balance_of w asset ctx.caller ≡ balance_of w' asset ctx.caller + premium)
        × (balance_of w' asset receiver ≡ balance_of w asset receiver)
  flashloan_earns asset amount market controller params w w' law ec em cr cm rm fits e =
      Steps-earn asset amount (premium_of amount d.flashloan_premium_total) market w w'
        (flashloan-Steps asset amount market controller params w w' law ec em e) cr cm rm fits

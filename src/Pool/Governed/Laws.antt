-- ===== src/Pool/Governed/Laws.antt =====
-- Loans and redemptions of a pool under the controller, logics/impls/pool/mod.rs with
-- logics/impls/controller/mod.rs.
use starlay_protocol_wasm.Prelude.{ℕ, ◌<◌, ◌≡◌, some, unwrap_or, ok, Bool}
use starlay_protocol_wasm.Prelude.Actions.{bind-elim}
use starlay_protocol_wasm.Words.{u128_mod}
use starlay_protocol_wasm.Controller.Markets.{Data}
use starlay_protocol_wasm.Controller.Account.{Peers}
use starlay_protocol_wasm.Controller.Allowed.Laws.{
  BorrowIsSafe, RedeemIsSafe, borrow_allowed-BorrowIsSafe, redeem_allowed-RedeemIsSafe,
}
use starlay_protocol_wasm.Pool.Environment.{TokenLibrary, Contracts, Context}
use starlay_protocol_wasm.Pool.State.{State}
use starlay_protocol_wasm.Pool.Lending.{
  consent_to_borrow, consent_to_redeem, borrow_inner, redeem_checked,
}
use starlay_protocol_wasm.Pool.Governed.{governed}
use starlay_protocol_wasm.Pool.Governed.Consent.{
  Consent, to_borrow, to_redeem, consent_to_borrow-Consent, consent_to_redeem-Consent,
}

-- A loan and a redemption that a governed pool has made were safe by the controller's rules, on what the
-- pool told.
module _ (lib : TokenLibrary) (contracts : Contracts lib.Psp22Error) (ctx : Context)
    (data_of : contracts.World → ℕ → Data) (peers_of : contracts.World → Peers) where
  abbrev pub Governed : Contracts lib.Psp22Error
  Governed = governed contracts data_of peers_of

  pub record LoanIsSafe (borrower amount : ℕ) (s : State lib Governed) : Type 0 where
    pub consent : Consent lib Governed ctx (to_borrow lib Governed ctx borrower amount) borrower s
    pub safe :
        BorrowIsSafe
          (data_of consent.asked.world consent.controller)
          (peers_of consent.asked.world)
          ctx.account_id
          ctx.account_id
          borrower
          amount
          consent.attributes

  pub record RedemptionIsSafe (redeemer amount : ℕ) (s : State lib Governed) : Type 0 where
    pub consent : Consent lib Governed ctx (to_redeem lib Governed ctx redeemer amount) redeemer s
    pub safe :
        RedeemIsSafe
          (data_of consent.asked.world consent.controller)
          (peers_of consent.asked.world)
          ctx.account_id
          ctx.account_id
          redeemer
          amount
          (some consent.attributes)

  -- Every loan of a pool whose controller is that of this repository was safe by the controller's rules at
  -- the moment of the pool's call, after the rewards: not paused, within the borrow cap, which is a number
  -- of 128 bits, and with the borrower's collateral over all markets covering their debt with the loan. The
  -- total and the debt that the controller was told are those of the pool's storage before the loan.
  pub borrow_inner-LoanIsSafe :
      (borrower amount : ℕ) (release : Bool) (s t : State lib Governed)
      → ((w : contracts.World) (c pool : ℕ)
          → unwrap_or ((data_of w c).borrow_caps pool) 0 < u128_mod)
      → borrow_inner lib Governed ctx borrower amount release s ≡ ok (tt, t)
      → LoanIsSafe borrower amount s
  unfolding borrow_inner
  borrow_inner-LoanIsSafe borrower amount release s t small e =
      bind-elim (consent_to_borrow lib Governed ctx borrower amount) _ e λ _ s1 e1 k1.
        let c = consent_to_borrow-Consent lib Governed ctx borrower amount s s1 e1 in
        record {
          consent = c;
          safe =
              borrow_allowed-BorrowIsSafe (data_of c.asked.world c.controller)
                (peers_of c.asked.world) ctx.account_id ctx.account_id borrower amount c.attributes
                (small c.asked.world c.controller ctx.account_id) c.given;
        }

  -- Every redemption that takes deposits out of such a pool was safe by the controller's rules at the moment
  -- of the pool's call: the collateral over all markets covers the debts, and where there is debt the health
  -- factor of what remains passes the controller's test.
  pub redeem_checked-RedemptionIsSafe :
      (redeemer amount : ℕ) (s t : State lib Governed)
      → redeem_checked lib Governed ctx redeemer amount s ≡ ok (tt, t)
      → RedemptionIsSafe redeemer amount s
  unfolding redeem_checked
  redeem_checked-RedemptionIsSafe redeemer amount s t e =
      bind-elim (consent_to_redeem lib Governed ctx redeemer amount) _ e λ rate s1 e1 k1.
        let c = consent_to_redeem-Consent lib Governed ctx redeemer amount rate s s1 e1 in
        record {
          consent = c;
          safe =
              redeem_allowed-RedeemIsSafe (data_of c.asked.world c.controller)
                (peers_of c.asked.world) ctx.account_id ctx.account_id redeemer amount
                (some c.attributes) c.given;
        }

-- ===== src/Pool/Governed.antt =====
-- A pool together with the controller of logics/impls/controller/mod.rs: the calls that a pool makes of
-- its controller, filled by the controller's messages.
pub mod Consent
pub mod Laws
pub mod Liquidations
use starlay_protocol_wasm.Prelude.{ℕ}
use starlay_protocol_wasm.Controller.Markets.{Data}
use starlay_protocol_wasm.Controller.Account.{Peers}
use starlay_protocol_wasm.Controller.Allowed.{
  mint_allowed, redeem_allowed, borrow_allowed, repay_borrow_allowed, liquidate_borrow_allowed,
  seize_allowed, transfer_allowed, calculate_seize_tokens, decrease_allowed,
}
use starlay_protocol_wasm.Pool.Environment.{Contracts}

-- The messages of the trait `Controller` that pools call. The storage of a controller and what it sees of
-- the pools and of the oracle are read off the world. `balance_decrease_allowed` has attributes, so that the
-- caller which it is given does not matter.
abbrev pub governed :
    {P : Type 0} (contracts : Contracts P)
    → (data_of : contracts.World → (controller : ℕ) → Data) → (peers_of : contracts.World → Peers)
    → Contracts P
governed contracts data_of peers_of = record contracts {
  mint_allowed =
      λ w c pool minter amount. mint_allowed (data_of w c) (peers_of w) pool pool minter amount;
  redeem_allowed = λ w c pool redeemer amount attributes.
      redeem_allowed (data_of w c) (peers_of w) pool pool redeemer amount attributes;
  borrow_allowed = λ w c pool borrower amount attributes.
      borrow_allowed (data_of w c) (peers_of w) pool pool borrower amount attributes;
  repay_borrow_allowed = λ w c pool payer borrower amount.
      repay_borrow_allowed (data_of w c) (peers_of w) pool pool payer borrower amount;
  liquidate_borrow_allowed = λ w c borrowed collateral liquidator borrower amount attributes.
      liquidate_borrow_allowed (data_of w c) (peers_of w) borrowed borrowed collateral liquidator
        borrower amount attributes;
  seize_allowed = λ w c collateral borrowed liquidator borrower tokens.
      seize_allowed (data_of w c) (peers_of w) collateral collateral borrowed liquidator borrower
        tokens;
  transfer_allowed = λ w c pool src dst amount attributes.
      transfer_allowed (data_of w c) (peers_of w) pool pool src dst amount attributes;
  liquidate_calculate_seize_tokens =
      λ w c pool_borrowed pool_collateral rate amount borrowed collateral.
        calculate_seize_tokens (data_of w c) (peers_of w) pool_borrowed pool_borrowed
          pool_collateral rate amount borrowed collateral;
  balance_decrease_allowed = λ w c attributes account amount.
      decrease_allowed (data_of w c) (peers_of w) account attributes account amount;
  flashloan_gateway = λ w c. (data_of w c).flashloan_gateway;
}

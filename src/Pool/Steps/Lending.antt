-- ===== src/Pool/Steps/Lending.antt =====
-- A relation that holds of the writes holds of deposits, loans and repayments, logics/impls/pool/mod.rs.
use starlay_protocol_wasm.Prelude.{ℕ, Bool, true, false}
use starlay_protocol_wasm.Prelude.Actions.{pure, ◌>>◌}
use starlay_protocol_wasm.Words.{u128_max}
use starlay_protocol_wasm.Prelude.Steps.{Steps, Steps-pure, Steps-view, Steps-then, Steps-bind}
use starlay_protocol_wasm.Pool.Environment.{TokenLibrary, Contracts, Context}
use starlay_protocol_wasm.Pool.State.{Data, Message}
use starlay_protocol_wasm.Pool.Accrual.{accrue_interest}
use starlay_protocol_wasm.Pool.Collateral.{
  set_collateral_flag, validate_collateral_flag, set_use_reserve_as_collateral,
}
use starlay_protocol_wasm.Pool.Lending.{
  mint_inner, mint, mint_to, redeem_checked, redeem_inner, redeem, redeem_underlying, redeem_all,
  borrow_inner, borrow, delegated_allowed, borrow_for, only_flashloan_gateway, borrow_for_flashloan,
  transfer_underlying_message, repay_borrow_inner, repay_borrow, repay_borrow_all,
  repay_borrow_behalf,
}
use starlay_protocol_wasm.Pool.Steps.{OnPool, Steps-update, pool_steps}
use starlay_protocol_wasm.Pool.Steps.Writes.{Writes, after_accrual}

module _ (lib : TokenLibrary) (contracts : Contracts lib.Psp22Error) (ctx : Context)
    (R : Data → Data → Type 0) (w : Writes lib contracts ctx R) where
  abbrev Holds : {A : Type 0} → Message lib contracts A → Type 0
  Holds m = Steps (OnPool lib contracts R) m

  pub set_collateral_flag-Holds :
      (user : ℕ) (b : Bool) → Holds (set_collateral_flag lib contracts ctx user b)
  unfolding set_collateral_flag
  set_collateral_flag-Holds user b = search (pool_steps, w.pre, Steps-update, w.flags) depth 40

  validate_collateral_flag-Holds :
      (user : ℕ) (b : Bool) → Holds (validate_collateral_flag lib contracts ctx user b)
  unfolding validate_collateral_flag
  validate_collateral_flag-Holds user b = search (pool_steps, w.pre) depth 40

  pub set_use_reserve_as_collateral-Holds :
      (b : Bool) → Holds (set_use_reserve_as_collateral lib contracts ctx b)
  unfolding set_use_reserve_as_collateral
  set_use_reserve_as_collateral-Holds b =
      search (pool_steps, w.pre, set_collateral_flag-Holds, validate_collateral_flag-Holds) depth 40

  mint_inner-Holds : (minter amount : ℕ) → Holds (mint_inner lib contracts ctx minter amount)
  unfolding mint_inner
  mint_inner-Holds minter amount = search (pool_steps, w.pre, set_collateral_flag-Holds) depth 40

  redeem_checked-Holds :
      (redeemer amount : ℕ) → Holds (redeem_checked lib contracts ctx redeemer amount)
  unfolding redeem_checked
  redeem_checked-Holds redeemer amount =
      search (pool_steps, w.pre, set_collateral_flag-Holds) depth 40

  redeem_inner-Holds :
      (redeemer amount : ℕ) → Holds (redeem_inner lib contracts ctx redeemer amount)
  unfolding redeem_inner
  redeem_inner-Holds redeemer amount = search (pool_steps, w.pre, redeem_checked-Holds) depth 40

  borrow_inner-Holds :
      (borrower amount : ℕ) (release : Bool)
      → Holds (borrow_inner lib contracts ctx borrower amount release)
  unfolding borrow_inner
  borrow_inner-Holds borrower amount release = search (pool_steps, w.pre, w.debts) depth 40

  pub repay_borrow_inner-Holds :
      (payer borrower amount : ℕ)
      → Holds (repay_borrow_inner lib contracts ctx payer borrower amount)
  unfolding repay_borrow_inner
  repay_borrow_inner-Holds payer borrower amount = search (pool_steps, w.pre, w.debts) depth 40

  pub mint-Holds : (amount : ℕ) → Holds (mint lib contracts ctx amount)
  unfolding mint
  mint-Holds amount = search (pool_steps, w.pre, w.accrual, mint_inner-Holds) depth 40

  pub mint_to-Holds : (account amount : ℕ) → Holds (mint_to lib contracts ctx account amount)
  unfolding mint_to
  mint_to-Holds account amount = search (pool_steps, w.pre, w.accrual, mint_inner-Holds) depth 40

  pub redeem-Holds : (amount : ℕ) → Holds (redeem lib contracts ctx amount)
  unfolding redeem
  redeem-Holds amount = search (pool_steps, w.pre, w.accrual, redeem_inner-Holds) depth 40

  pub redeem_underlying-Holds : (amount : ℕ) → Holds (redeem_underlying lib contracts ctx amount)
  unfolding redeem_underlying
  redeem_underlying-Holds amount =
      search (pool_steps, w.pre, w.accrual, redeem_inner-Holds) depth 40

  pub redeem_all-Holds : Holds (redeem_all lib contracts ctx)
  unfolding redeem_all
  redeem_all-Holds =
      after_accrual lib contracts ctx R w
        (Steps-bind w.pre _ _ (Steps-view w.pre _) λ all. redeem_inner-Holds ctx.caller all)

  pub borrow-Holds : (amount : ℕ) → Holds (borrow lib contracts ctx amount)
  unfolding borrow
  borrow-Holds amount = search (pool_steps, w.pre, w.accrual, borrow_inner-Holds) depth 40

  delegated_allowed-Holds :
      (owner amount : ℕ) → Holds (delegated_allowed lib contracts ctx owner amount)
  unfolding delegated_allowed
  delegated_allowed-Holds owner amount = search (pool_steps, w.pre) depth 40

  pub borrow_for-Holds : (account amount : ℕ) → Holds (borrow_for lib contracts ctx account amount)
  unfolding borrow_for
  borrow_for-Holds account amount =
      Steps-then w.pre _ _ (delegated_allowed-Holds account amount)
        (after_accrual lib contracts ctx R w (borrow_inner-Holds account amount true))

  only_flashloan_gateway-Holds : Holds (only_flashloan_gateway lib contracts ctx)
  unfolding only_flashloan_gateway
  only_flashloan_gateway-Holds = search (pool_steps, w.pre) depth 40

  pub borrow_for_flashloan-Holds :
      (account amount : ℕ) → Holds (borrow_for_flashloan lib contracts ctx account amount)
  unfolding borrow_for_flashloan
  borrow_for_flashloan-Holds account amount =
      Steps-then w.pre _ _ only_flashloan_gateway-Holds
        (after_accrual lib contracts ctx R w (borrow_inner-Holds account amount false))

  pub transfer_underlying_message-Holds :
      (account amount : ℕ) → Holds (transfer_underlying_message lib contracts ctx account amount)
  unfolding transfer_underlying_message
  transfer_underlying_message-Holds account amount =
      search (pool_steps, w.pre, only_flashloan_gateway-Holds) depth 40

  repaid :
      (borrower amount : ℕ)
      → Holds (do
        accrue_interest lib contracts ctx
        repay_borrow_inner lib contracts ctx ctx.caller borrower amount
        pure tt)
  repaid borrower amount = after_accrual lib contracts ctx R w (
      Steps-then w.pre _ _ (repay_borrow_inner-Holds ctx.caller borrower amount)
        (Steps-pure w.pre tt))

  pub repay_borrow-Holds : (amount : ℕ) → Holds (repay_borrow lib contracts ctx amount)
  unfolding repay_borrow
  repay_borrow-Holds amount = repaid ctx.caller amount

  pub repay_borrow_all-Holds : Holds (repay_borrow_all lib contracts ctx)
  unfolding repay_borrow_all
  repay_borrow_all-Holds = repaid ctx.caller u128_max

  pub repay_borrow_behalf-Holds :
      (account amount : ℕ) → Holds (repay_borrow_behalf lib contracts ctx account amount)
  unfolding repay_borrow_behalf
  repay_borrow_behalf-Holds account amount = repaid account amount

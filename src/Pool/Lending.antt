-- ===== src/Pool/Lending.antt =====
-- Deposits, withdrawals, loans and repayments, logics/impls/pool/mod.rs.
use starlay_protocol_wasm.Prelude.{
  ℕ, Bool, true, false, not, ◌||◌, ◌&&◌, some, ltb, ◌==◌, if◌then◌else◌, insert, unwrap_or,
}
use starlay_protocol_wasm.Prelude.Actions.{
  pure, throw_if, ok_or_throw, lift, view, gets, when, ◌>>=◌, ◌>>◌,
}
use starlay_protocol_wasm.Words.{u128_max, add128, sub128, mul256, div256, as_u128}
use starlay_protocol_wasm.Math.Exp.{exp_scale, exp}
use starlay_protocol_wasm.Pool.Errors.{
  controller_is_not_set, redeem_transfer_out_not_possible, borrow_cash_not_available,
  insufficient_delegate_allowance, caller_is_not_flashloan_gateway,
}
use starlay_protocol_wasm.Pool.Environment.{TokenLibrary, Contracts, Context}
use starlay_protocol_wasm.Pool.State.{Event, Message, update, emit, on_token, ask_controller}
use starlay_protocol_wasm.Pool.Views.{
  total_borrows, borrow_balance_stored, using_reserve_as_collateral, get_cash_prior,
  delegate_allowance, principal_balance_of, exchange_rate_stored, balance_of, get_account_snapshot,
  pool_attributes,
}
use starlay_protocol_wasm.Pool.Scaled.{scaled_amount_of}
use starlay_protocol_wasm.Pool.Accrual.{
  accrue_interest, accrue_reward, assert_fresh, transfer_underlying_from, transfer_underlying,
}
use starlay_protocol_wasm.Pool.Collateral.{set_collateral_flag}

module _ (lib : TokenLibrary) (contracts : Contracts lib.Psp22Error) (ctx : Context) where
  -- `_mint`
  unfoldable pub mint_inner : (minter mint_amount : ℕ) → Message lib contracts (Unit {0})
  mint_inner minter mint_amount = do
    accrue_reward lib contracts ctx minter
    controller ← ok_or_throw (← gets (λ s. s.pool.controller)) controller_is_not_set
    ask_controller lib contracts
        (λ w. contracts.mint_allowed w controller ctx.account_id minter mint_amount)
    assert_fresh lib contracts ctx
    rate ← view (exchange_rate_stored lib contracts ctx)
    transfer_underlying_from lib contracts ctx ctx.caller ctx.account_id mint_amount
    scaled ← lift (mul256 mint_amount exp_scale)
    quotient ← lift (div256 scaled rate)
    minted_tokens ← lift (as_u128 quotient)
    lp_balance ← gets (λ s. principal_balance_of lib contracts ctx s ctx.caller)
    when (lp_balance == 0) (set_collateral_flag lib contracts ctx minter true)
    on_token lib contracts (lib.mint_to minter minted_tokens)
    emit lib contracts (Event.mint minter mint_amount minted_tokens)

  unfoldable pub mint : ℕ → Message lib contracts (Unit {0})
  mint mint_amount = do accrue_interest lib contracts ctx; mint_inner ctx.caller mint_amount

  unfoldable pub mint_to : (mint_account mint_amount : ℕ) → Message lib contracts (Unit {0})
  mint_to mint_account mint_amount = do
    accrue_interest lib contracts ctx
    mint_inner mint_account mint_amount

  -- The part of `_redeem` behind its early return: up to the controller's consent, with the exchange rate
  -- of the snapshot, and as a whole.
  unfoldable pub consent_to_redeem : (redeemer redeem_amount : ℕ) → Message lib contracts ℕ
  consent_to_redeem redeemer redeem_amount = do
    controller ← ok_or_throw (← gets (λ s. s.pool.controller)) controller_is_not_set
    (_, account_borrow_balance, rate) ←
        view (λ s. get_account_snapshot lib contracts ctx s redeemer)
    account_balance ← view (λ s. balance_of lib contracts ctx s redeemer)
    attributes ←
        view (λ s. pool_attributes lib contracts ctx s account_balance account_borrow_balance rate)
    ask_controller lib contracts (λ w.
        contracts.redeem_allowed w controller ctx.account_id redeemer redeem_amount
          (some attributes))
    pure rate

  unfoldable pub redeem_checked : (redeemer redeem_amount : ℕ) → Message lib contracts (Unit {0})
  redeem_checked redeemer redeem_amount = do
    rate ← consent_to_redeem redeemer redeem_amount
    assert_fresh lib contracts ctx
    cash ← gets (get_cash_prior lib contracts ctx)
    throw_if (ltb cash redeem_amount) redeem_transfer_out_not_possible
    lp_balance ← view (λ s. balance_of lib contracts ctx s redeemer)
    when (lp_balance == redeem_amount) (set_collateral_flag lib contracts ctx redeemer false)
    tokens ← lift (scaled_amount_of redeem_amount (exp rate))
    on_token lib contracts (lib.burn_from redeemer tokens)
    transfer_underlying lib contracts ctx redeemer redeem_amount
    emit lib contracts (Event.redeem redeemer redeem_amount)

  -- `_redeem`
  unfoldable pub redeem_inner : (redeemer redeem_amount : ℕ) → Message lib contracts (Unit {0})
  redeem_inner redeemer redeem_amount = do
    accrue_reward lib contracts ctx redeemer
    collateral ← gets (λ s. using_reserve_as_collateral s.pool redeemer)
    when (not (redeem_amount == 0 || not collateral)) (redeem_checked redeemer redeem_amount)

  -- The messages `redeem` and `redeem_underlying` have the same body.
  unfoldable pub redeem : ℕ → Message lib contracts (Unit {0})
  redeem redeem_tokens = do accrue_interest lib contracts ctx; redeem_inner ctx.caller redeem_tokens

  unfoldable pub redeem_underlying : ℕ → Message lib contracts (Unit {0})
  redeem_underlying redeem_amount = do
    accrue_interest lib contracts ctx
    redeem_inner ctx.caller redeem_amount

  unfoldable pub redeem_all : Message lib contracts (Unit {0})
  redeem_all = do
    accrue_interest lib contracts ctx
    all_tokens_redeemed ← view (λ s. balance_of lib contracts ctx s ctx.caller)
    redeem_inner ctx.caller all_tokens_redeemed

  -- `_increase_debt`, which lowers the debt if `neg` is set.
  unfoldable pub increase_debt :
      (borrower amount : ℕ) (neg : Bool) → Message lib contracts (Unit {0})
  increase_debt borrower amount neg = do
    index ← gets (λ s. s.pool.borrow_index)
    scaled ← lift (scaled_amount_of amount (exp index))
    prev ← gets (λ s. unwrap_or (s.pool.account_borrows borrower) 0)
    update lib contracts λ d.
        if neg
        then record d {
          account_borrows = insert d.account_borrows borrower (sub128 prev scaled);
          borrows_scaled = sub128 d.borrows_scaled scaled;
        }
        else record d {
          account_borrows = insert d.account_borrows borrower (add128 prev scaled);
          borrows_scaled = add128 d.borrows_scaled scaled;
        }

  -- `_borrow` up to the controller's consent.
  unfoldable pub consent_to_borrow : (borrower borrow_amount : ℕ) → Message lib contracts (Unit {0})
  consent_to_borrow borrower borrow_amount = do
    accrue_reward lib contracts ctx borrower
    controller ← ok_or_throw (← gets (λ s. s.pool.controller)) controller_is_not_set
    (account_balance, account_borrow_balance, rate) ←
        view (λ s. get_account_snapshot lib contracts ctx s borrower)
    attributes ←
        view (λ s. pool_attributes lib contracts ctx s account_balance account_borrow_balance rate)
    ask_controller lib contracts (λ w.
        contracts.borrow_allowed w controller ctx.account_id borrower borrow_amount
          (some attributes))

  -- `_borrow`
  unfoldable pub borrow_inner :
      (borrower borrow_amount : ℕ) (release_underlying : Bool) → Message lib contracts (Unit {0})
  borrow_inner borrower borrow_amount release_underlying = do
    consent_to_borrow borrower borrow_amount
    assert_fresh lib contracts ctx
    cash ← gets (get_cash_prior lib contracts ctx)
    throw_if (ltb cash borrow_amount) borrow_cash_not_available
    account_borrows_prev ← view (λ s. borrow_balance_stored s.pool borrower)
    borrows ← view (λ s. total_borrows s.pool)
    when release_underlying (transfer_underlying lib contracts ctx ctx.caller borrow_amount)
    increase_debt borrower borrow_amount false
    emit lib contracts (
        Event.borrow borrower borrow_amount (add128 account_borrows_prev borrow_amount)
          (add128 borrows borrow_amount))

  unfoldable pub borrow : ℕ → Message lib contracts (Unit {0})
  borrow borrow_amount = do
    accrue_interest lib contracts ctx
    borrow_inner ctx.caller borrow_amount true

  -- The modifier `delegated_allowed` and the message `borrow_for` under it.
  unfoldable pub delegated_allowed : (owner amount : ℕ) → Message lib contracts (Unit {0})
  delegated_allowed owner amount = do
    allowed ← gets (λ s. delegate_allowance s.pool owner ctx.caller)
    throw_if (not (ctx.caller == owner) && ltb allowed amount) insufficient_delegate_allowance

  unfoldable pub borrow_for : (borrower borrow_amount : ℕ) → Message lib contracts (Unit {0})
  borrow_for borrower borrow_amount = do
    delegated_allowed borrower borrow_amount
    accrue_interest lib contracts ctx
    borrow_inner borrower borrow_amount true

  -- The modifier `only_flashloan_gateway` and the two messages under it.
  unfoldable pub only_flashloan_gateway : Message lib contracts (Unit {0})
  only_flashloan_gateway = do
    controller ← ok_or_throw (← gets (λ s. s.pool.controller)) controller_is_not_set
    gateway ←
        ok_or_throw (← gets (λ s. contracts.flashloan_gateway s.world controller))
          caller_is_not_flashloan_gateway
    throw_if (not (ctx.caller == gateway)) caller_is_not_flashloan_gateway

  unfoldable pub borrow_for_flashloan :
      (borrower borrow_amount : ℕ) → Message lib contracts (Unit {0})
  borrow_for_flashloan borrower borrow_amount = do
    only_flashloan_gateway
    accrue_interest lib contracts ctx
    borrow_inner borrower borrow_amount false

  unfoldable pub transfer_underlying_message :
      (receiver amount : ℕ) → Message lib contracts (Unit {0})
  transfer_underlying_message receiver amount = do
    only_flashloan_gateway
    transfer_underlying lib contracts ctx receiver amount

  -- `_repay_borrow`; the amount `u128::MAX` stands for the whole debt.
  unfoldable pub repay_borrow_inner : (payer borrower repay_amount : ℕ) → Message lib contracts ℕ
  repay_borrow_inner payer borrower repay_amount = do
    accrue_reward lib contracts ctx borrower
    accrue_reward lib contracts ctx payer
    controller ← ok_or_throw (← gets (λ s. s.pool.controller)) controller_is_not_set
    ask_controller lib contracts (λ w.
        contracts.repay_borrow_allowed w controller ctx.account_id payer borrower repay_amount)
    assert_fresh lib contracts ctx
    account_borrow_prev ← view (λ s. borrow_balance_stored s.pool borrower)
    let repay_amount_final = if repay_amount == u128_max then account_borrow_prev else repay_amount
    transfer_underlying_from lib contracts ctx payer ctx.account_id repay_amount_final
    borrows ← view (λ s. total_borrows s.pool)
    increase_debt borrower repay_amount_final true
    emit lib contracts (
        Event.repay_borrow payer borrower repay_amount_final
          (sub128 account_borrow_prev repay_amount_final) (sub128 borrows repay_amount_final))
    pure repay_amount_final

  unfoldable pub repay_borrow : ℕ → Message lib contracts (Unit {0})
  repay_borrow repay_amount = do
    accrue_interest lib contracts ctx
    repay_borrow_inner ctx.caller ctx.caller repay_amount
    pure tt

  unfoldable pub repay_borrow_all : Message lib contracts (Unit {0})
  repay_borrow_all = do
    accrue_interest lib contracts ctx
    repay_borrow_inner ctx.caller ctx.caller u128_max
    pure tt

  unfoldable pub repay_borrow_behalf :
      (borrower repay_amount : ℕ) → Message lib contracts (Unit {0})
  repay_borrow_behalf borrower repay_amount = do
    accrue_interest lib contracts ctx
    repay_borrow_inner ctx.caller borrower repay_amount
    pure tt

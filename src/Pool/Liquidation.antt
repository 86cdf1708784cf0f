-- ===== src/Pool/Liquidation.antt =====
-- Liquidations, logics/impls/pool/mod.rs.
use starlay_protocol_wasm.Prelude.{ℕ, not, ◌&&◌, some, ◌==◌, if◌then◌else◌, unwrap, ok}
use starlay_protocol_wasm.Prelude.Actions.{
  pure, throw_if, ok_or_throw, lift, view, gets, when, ◌>>=◌, ◌>>◌,
}
use starlay_protocol_wasm.Words.{add128, sub128}
use starlay_protocol_wasm.Math.Exp.{exp}
use starlay_protocol_wasm.Pool.Errors.{
  controller_is_not_set, accrual_block_number_is_not_fresh, liquidate_liquidator_is_borrower,
  liquidate_close_amount_is_zero, liquidate_seize_liquidator_is_borrower,
}
use starlay_protocol_wasm.Pool.Environment.{TokenLibrary, Contracts, Context}
use starlay_protocol_wasm.Pool.State.{
  Event, Message, update, emit, on_token, on_world, ask_controller,
}
use starlay_protocol_wasm.Pool.Views.{
  total_reserves, exchange_rate_stored, get_account_snapshot, pool_attributes,
}
use starlay_protocol_wasm.Pool.Scaled.{scaled_amount_of}
use starlay_protocol_wasm.Pool.Accrual.{accrue_interest, accrue_reward, assert_fresh}
use starlay_protocol_wasm.Pool.Lending.{repay_borrow_inner}
use starlay_protocol_wasm.Pool.Exchange.{protocol_seize_amount, protocol_seize_share_mantissa}

module _ (lib : TokenLibrary) (contracts : Contracts lib.Psp22Error) (ctx : Context) where
  -- `self.data::<Data>().reserves_scaled += scaled_amount_of(amount, borrow_index)`
  unfoldable pub raise_reserves : ℕ → Message lib contracts (Unit {0})
  raise_reserves amount = do
    index ← gets (λ s. s.pool.borrow_index)
    scaled ← lift (scaled_amount_of amount (exp index))
    update lib contracts λ d. record d { reserves_scaled = add128 d.reserves_scaled scaled }

  -- `self.data::<PSP22Data>().supply -= tokens`
  unfoldable pub lower_supply : ℕ → Message lib contracts (Unit {0})
  lower_supply tokens =
      on_token lib contracts λ t. ok (lib.set_supply (sub128 (lib.supply t) tokens) t)

  -- `_seize`
  unfoldable pub seize_inner :
      (seizer_token liquidator borrower seize_tokens : ℕ) → Message lib contracts (Unit {0})
  seize_inner seizer_token liquidator borrower seize_tokens = do
    accrue_reward lib contracts ctx borrower
    accrue_reward lib contracts ctx liquidator
    controller ← ok_or_throw (← gets (λ s. s.pool.controller)) controller_is_not_set
    ask_controller lib contracts (λ w.
        contracts.seize_allowed w controller ctx.account_id seizer_token liquidator borrower
          seize_tokens)
    throw_if (liquidator == borrower) liquidate_seize_liquidator_is_borrower
    rate ← view (exchange_rate_stored lib contracts ctx)
    (liquidator_seize_tokens, seize_amount, protocol_seize_tokens) ←
        lift (protocol_seize_amount (exp rate) seize_tokens protocol_seize_share_mantissa)
    reserves ← view (λ s. total_reserves s.pool)
    raise_reserves seize_amount
    lower_supply protocol_seize_tokens
    on_token lib contracts (lib.burn_from borrower seize_tokens)
    on_token lib contracts (lib.mint_to liquidator liquidator_seize_tokens)
    emit lib contracts
        (Event.reserves_added ctx.account_id seize_amount (add128 reserves seize_amount))

  -- The message `seize`, which the pool of the repaid loan calls.
  unfoldable pub seize : (liquidator borrower seize_tokens : ℕ) → Message lib contracts (Unit {0})
  seize liquidator borrower seize_tokens = do
    accrue_interest lib contracts ctx
    seize_inner ctx.caller liquidator borrower seize_tokens

  -- The checks of `_liquidate_borrow` before the repayment.
  unfoldable pub check_liquidation :
      (controller liquidator borrower repay_amount collateral : ℕ)
      → Message lib contracts (Unit {0})
  check_liquidation controller liquidator borrower repay_amount collateral = do
    (account_balance, account_borrow_balance, rate) ←
        view (λ s. get_account_snapshot lib contracts ctx s borrower)
    attributes ←
        view (λ s. pool_attributes lib contracts ctx s account_balance account_borrow_balance rate)
    ask_controller lib contracts (λ w.
        contracts.liquidate_borrow_allowed w controller ctx.account_id collateral liquidator
          borrower repay_amount (some attributes))
    assert_fresh lib contracts ctx
    other ← gets (λ s. contracts.get_accrual_block_timestamp s.world collateral)
    throw_if (not (collateral == ctx.account_id) && not (other == ctx.block_timestamp))
        accrual_block_number_is_not_fresh
    throw_if (liquidator == borrower) liquidate_liquidator_is_borrower
    throw_if (repay_amount == 0) liquidate_close_amount_is_zero

  -- The collateral is seized in this pool, or in the collateral's own.
  unfoldable pub seize_here :
      (controller liquidator borrower actual_repay_amount : ℕ) → Message lib contracts ℕ
  seize_here controller liquidator borrower actual_repay_amount = do
    attributes ← gets (λ s. record { underlying = s.pool.underlying; decimals = s.decimals })
    rate ← view (exchange_rate_stored lib contracts ctx)
    seize_tokens ← ask_controller lib contracts (λ w.
        contracts.liquidate_calculate_seize_tokens w controller ctx.account_id ctx.account_id rate
          actual_repay_amount (some attributes) (some attributes))
    seize_inner ctx.account_id liquidator borrower seize_tokens
    pure seize_tokens

  unfoldable pub seize_there :
      (controller liquidator borrower actual_repay_amount collateral : ℕ) → Message lib contracts ℕ
  seize_there controller liquidator borrower actual_repay_amount collateral = do
    attributes ← gets (λ s. record { underlying = s.pool.underlying; decimals = s.decimals })
    rate ← view (λ s. unwrap (contracts.exchange_rate_stored s.world collateral))
    other ← gets (λ s. record {
      underlying = contracts.underlying s.world collateral;
      decimals = contracts.token_decimals s.world collateral;
    })
    seize_tokens ← ask_controller lib contracts (λ w.
        contracts.liquidate_calculate_seize_tokens w controller ctx.account_id collateral rate
          actual_repay_amount (some attributes) (some other))
    on_world lib contracts (λ e. e)
        (contracts.seize collateral ctx.account_id liquidator borrower seize_tokens)
    pure seize_tokens

  -- `_liquidate_borrow`
  unfoldable pub liquidate_borrow_inner :
      (liquidator borrower repay_amount collateral : ℕ) → Message lib contracts (Unit {0})
  liquidate_borrow_inner liquidator borrower repay_amount collateral = do
    accrue_reward lib contracts ctx liquidator
    accrue_reward lib contracts ctx borrower
    controller ← ok_or_throw (← gets (λ s. s.pool.controller)) controller_is_not_set
    check_liquidation controller liquidator borrower repay_amount collateral
    actual_repay_amount ← repay_borrow_inner lib contracts ctx liquidator borrower repay_amount
    seize_tokens ←
        if collateral == ctx.account_id
        then seize_here controller liquidator borrower actual_repay_amount
        else seize_there controller liquidator borrower actual_repay_amount collateral
    emit lib contracts
        (Event.liquidate_borrow liquidator borrower actual_repay_amount collateral seize_tokens)

  -- The message `liquidate_borrow`
  unfoldable pub liquidate_borrow :
      (borrower repay_amount collateral : ℕ) → Message lib contracts (Unit {0})
  liquidate_borrow borrower repay_amount collateral = do
    accrue_interest lib contracts ctx
    when (not (collateral == ctx.account_id))
        (on_world lib contracts (λ e. e) (contracts.accrue_interest collateral))
    liquidate_borrow_inner ctx.caller borrower repay_amount collateral

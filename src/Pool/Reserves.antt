-- ===== src/Pool/Reserves.antt =====
-- The reserves and stray tokens, logics/impls/pool/mod.rs.
use starlay_protocol_wasm.Prelude.{ℕ, not, ltb, ◌==◌}
use starlay_protocol_wasm.Prelude.Actions.{throw_if, ok_or_throw, lift, view, gets, ◌>>=◌, ◌>>◌}
use starlay_protocol_wasm.Words.{add128, sub128}
use starlay_protocol_wasm.Math.Exp.{exp}
use starlay_protocol_wasm.Pool.Errors.{
  manager_is_not_set, caller_is_not_manager, reduce_reserves_cash_not_available,
  reduce_reserves_cash_validation, underlying_is_not_set, cannot_sweep_underlying_token, psp22,
}
use starlay_protocol_wasm.Pool.Environment.{TokenLibrary, Contracts, Context}
use starlay_protocol_wasm.Pool.State.{Event, Message, update, emit, on_world}
use starlay_protocol_wasm.Pool.Views.{total_reserves, get_cash_prior}
use starlay_protocol_wasm.Pool.Scaled.{scaled_amount_of}
use starlay_protocol_wasm.Pool.Accrual.{
  accrue_interest, assert_fresh, transfer_underlying_from, transfer_underlying,
}

module _ (lib : TokenLibrary) (contracts : Contracts lib.Psp22Error) (ctx : Context) where
  unfoldable pub assert_manager : Message lib contracts (Unit {0})
  assert_manager = do
    manager ← ok_or_throw (← gets (λ s. s.pool.manager)) manager_is_not_set
    throw_if (not (ctx.caller == manager)) caller_is_not_manager

  -- `_reduce_reserves`
  unfoldable pub reduce_reserves_inner : (admin amount : ℕ) → Message lib contracts (Unit {0})
  reduce_reserves_inner admin amount = do
    assert_fresh lib contracts ctx
    cash ← gets (get_cash_prior lib contracts ctx)
    throw_if (ltb cash amount) reduce_reserves_cash_not_available
    reserves ← view (λ s. total_reserves s.pool)
    throw_if (ltb reserves amount) reduce_reserves_cash_validation
    index ← gets (λ s. s.pool.borrow_index)
    scaled ← lift (scaled_amount_of amount (exp index))
    update lib contracts λ d. record d { reserves_scaled = sub128 d.reserves_scaled scaled }
    transfer_underlying lib contracts ctx admin amount

  -- The message `reduce_reserves`
  unfoldable pub reduce_reserves : ℕ → Message lib contracts (Unit {0})
  reduce_reserves amount = do
    assert_manager
    accrue_interest lib contracts ctx
    reduce_reserves_inner ctx.caller amount

  -- `Pool::add_reserves` and `_add_reserves`, the defaults of the trait. The contract in
  -- contracts/pool/lib.rs overrides the message with an error, see `refused_by_contract` in Admin.
  unfoldable pub add_reserves : ℕ → Message lib contracts (Unit {0})
  add_reserves amount = do
    accrue_interest lib contracts ctx
    assert_fresh lib contracts ctx
    reserves ← view (λ s. total_reserves s.pool)
    index ← gets (λ s. s.pool.borrow_index)
    scaled ← lift (scaled_amount_of amount (exp index))
    update lib contracts λ d. record d { reserves_scaled = add128 d.reserves_scaled scaled }
    transfer_underlying_from lib contracts ctx ctx.caller ctx.account_id amount
    emit lib contracts (Event.reserves_added ctx.caller amount (add128 reserves amount))

  -- The messages `sweep_token` and `_sweep_token`
  unfoldable pub sweep_token : (asset : ℕ) → Message lib contracts (Unit {0})
  sweep_token asset = do
    assert_manager
    underlying ← ok_or_throw (← gets (λ s. s.pool.underlying)) underlying_is_not_set
    throw_if (asset == underlying) cannot_sweep_underlying_token
    balance ← gets (λ s. contracts.token_balance_of s.world asset ctx.account_id)
    on_world lib contracts psp22 (contracts.token_transfer asset ctx.account_id ctx.caller balance)

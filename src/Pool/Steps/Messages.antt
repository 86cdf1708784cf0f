-- ===== src/Pool/Steps/Messages.antt =====
-- A relation on the pool's storage holds of every message when it holds of the few ways in which the
-- code writes the storage, logics/impls/pool/mod.rs.
use starlay_protocol_wasm.Prelude.Steps.{Steps}
use starlay_protocol_wasm.Pool.Environment.{TokenLibrary, Contracts, Context}
use starlay_protocol_wasm.Pool.State.{Data, Message}
use starlay_protocol_wasm.Pool.Calls.{Call, run}
use starlay_protocol_wasm.Pool.Steps.{OnPool}
use starlay_protocol_wasm.Pool.Steps.Writes.{Writes}
use starlay_protocol_wasm.Pool.Steps.Lending.{
  set_use_reserve_as_collateral-Holds, mint-Holds, mint_to-Holds, redeem-Holds,
  redeem_underlying-Holds, redeem_all-Holds, borrow-Holds, borrow_for-Holds,
  borrow_for_flashloan-Holds, transfer_underlying_message-Holds, repay_borrow-Holds,
  repay_borrow_all-Holds, repay_borrow_behalf-Holds,
}
use starlay_protocol_wasm.Pool.Steps.Liquidation.{seize-Holds, liquidate_borrow-Holds}
use starlay_protocol_wasm.Pool.Steps.Admin.{
  reduce_reserves-Holds, sweep_token-Holds, approve_delegate-Holds,
  increase_delegate_allowance-Holds, decrease_delegate_allowance-Holds,
  set_liquidation_threshold-Holds, set_incentives_controller-Holds, refused_by_contract-Holds,
  transfer-Holds, transfer_from-Holds, set_reserve_factor_mantissa-Holds,
}

module _ (lib : TokenLibrary) (contracts : Contracts lib.Psp22Error) (ctx : Context)
    (R : Data → Data → Type 0) (w : Writes lib contracts ctx R) where
  abbrev Holds : {A : Type 0} → Message lib contracts A → Type 0
  Holds m = Steps (OnPool lib contracts R) m

  pub run-Holds : (call : Call) → Holds (run lib contracts ctx call)
  unfolding run
  run-Holds Call.accrue_interest = w.accrual
  run-Holds Call.redeem_all = redeem_all-Holds lib contracts ctx R w
  run-Holds Call.repay_borrow_all = repay_borrow_all-Holds lib contracts ctx R w
  run-Holds (Call.mint a) = mint-Holds lib contracts ctx R w a
  run-Holds (Call.redeem a) = redeem-Holds lib contracts ctx R w a
  run-Holds (Call.redeem_underlying a) = redeem_underlying-Holds lib contracts ctx R w a
  run-Holds (Call.borrow a) = borrow-Holds lib contracts ctx R w a
  run-Holds (Call.repay_borrow a) = repay_borrow-Holds lib contracts ctx R w a
  run-Holds (Call.reduce_reserves a) = reduce_reserves-Holds lib contracts ctx R w a
  run-Holds (Call.mint_to u a) = mint_to-Holds lib contracts ctx R w u a
  run-Holds (Call.borrow_for u a) = borrow_for-Holds lib contracts ctx R w u a
  run-Holds (Call.borrow_for_flashloan u a) = borrow_for_flashloan-Holds lib contracts ctx R w u a
  run-Holds (Call.repay_borrow_behalf u a) = repay_borrow_behalf-Holds lib contracts ctx R w u a
  run-Holds (Call.transfer_underlying u a) =
      transfer_underlying_message-Holds lib contracts ctx R w u a
  run-Holds (Call.transfer u a) = transfer-Holds lib contracts ctx R w u a
  run-Holds (Call.approve_delegate u a) = approve_delegate-Holds lib contracts ctx R w u a
  run-Holds (Call.liquidate_borrow b a c) = liquidate_borrow-Holds lib contracts ctx R w b a c
  run-Holds (Call.seize l b n) = seize-Holds lib contracts ctx R w l b n
  run-Holds (Call.transfer_from s d a) = transfer_from-Holds lib contracts ctx R w s d a
  run-Holds (Call.increase_delegate_allowance o d a) =
      increase_delegate_allowance-Holds lib contracts ctx R w o d a
  run-Holds (Call.decrease_delegate_allowance o d a) =
      decrease_delegate_allowance-Holds lib contracts ctx R w o d a
  run-Holds (Call.set_use_reserve_as_collateral b) =
      set_use_reserve_as_collateral-Holds lib contracts ctx R w b
  run-Holds (Call.set_reserve_factor_mantissa n) =
      set_reserve_factor_mantissa-Holds lib contracts ctx R w n
  run-Holds (Call.set_liquidation_threshold n) =
      set_liquidation_threshold-Holds lib contracts ctx R w n
  run-Holds (Call.set_incentives_controller c) =
      set_incentives_controller-Holds lib contracts ctx R w c
  run-Holds (Call.sweep_token t) = sweep_token-Holds lib contracts ctx R w t
  run-Holds (Call.set_controller c) = refused_by_contract-Holds lib contracts ctx R w
  run-Holds (Call.add_reserves a) = refused_by_contract-Holds lib contracts ctx R w
  run-Holds (Call.set_interest_rate_model m) = refused_by_contract-Holds lib contracts ctx R w

-- ===== src/Pool/Errors.antt =====
-- `Error` of logics/traits/pool.rs, over the error type of the token library, PSP22Error.
use starlay_protocol_wasm.Controller.Errors

pub data Error (P : Type 0) : Type 0 where
  not_implemented invalid_parameter borrow_cash_not_available : Error P
  redeem_transfer_out_not_possible liquidate_liquidator_is_borrower : Error P
  liquidate_close_amount_is_zero accrual_block_number_is_not_fresh : Error P
  liquidate_seize_liquidator_is_borrower reduce_reserves_cash_not_available : Error P
  reduce_reserves_cash_validation borrow_rate_is_absurdly_high : Error P
  set_reserve_factor_bounds_check cannot_sweep_underlying_token caller_is_not_manager : Error P
  zero_owner_address zero_delegatee_address insufficient_delegate_allowance : Error P
  caller_is_not_flashloan_gateway controller_is_not_set interest_rate_model_is_not_set : Error P
  underlying_is_not_set manager_is_not_set incentives_controller_is_not_set : Error P
  accrue_reward_failed : Error P
  controller : Errors.Error → Error P
  psp22 : P → Error P
  lang : Error P

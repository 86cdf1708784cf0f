-- ===== src/Controller/Errors.antt =====
-- `Error` of logics/traits/controller.rs.
pub data Error : Type 0 where
  mint_is_paused borrow_is_paused seize_is_paused transfer_is_paused : Error
  market_not_listed market_already_listed controller_mismatch price_error too_much_repay : Error
  borrow_cap_reached insufficient_liquidity insufficient_shortfall caller_is_not_manager : Error
  invalid_collateral_factor underlying_is_not_set pool_is_not_set manager_is_not_set : Error
  oracle_is_not_set balance_decrease_not_allowed : Error

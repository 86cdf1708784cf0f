-- ===== src/Controller/Markets/Calls.antt =====
-- The messages of the controller that write, as one type of calls, and the histories of a controller,
-- logics/impls/controller/mod.rs. The oracle's answers may differ from call to call.
use starlay_protocol_wasm.Prelude.{ℕ, Bool, Option, ◌≡◌, ok}
use starlay_protocol_wasm.Controller.Markets
use starlay_protocol_wasm.Controller.Markets.{State, Message}

pub data Call : Type 0 where
  support_market : (pool underlying : ℕ) → Call
  support_market_with_collateral_factor_mantissa : (pool underlying factor : ℕ) → Call
  set_collateral_factor_mantissa set_borrow_cap : (pool value : ℕ) → Call
  set_price_oracle set_flashloan_gateway : (account : ℕ) → Call
  set_mint_guardian_paused set_borrow_guardian_paused : (pool : ℕ) (paused : Bool) → Call
  set_seize_guardian_paused set_transfer_guardian_paused : (paused : Bool) → Call
  set_close_factor_mantissa set_liquidation_incentive_mantissa : (value : ℕ) → Call

unfoldable pub run : (price : (oracle pool : ℕ) → Option ℕ) (caller : ℕ) → Call → Message
run price caller (Call.support_market p u) = Markets.support_market price caller p u
run price caller (Call.support_market_with_collateral_factor_mantissa p u f) =
    Markets.support_market_with_collateral_factor_mantissa price caller p u f
run price caller (Call.set_collateral_factor_mantissa p f) =
    Markets.set_collateral_factor_mantissa price caller p f
run price caller (Call.set_price_oracle o) = Markets.set_price_oracle price caller o
run price caller (Call.set_flashloan_gateway g) = Markets.set_flashloan_gateway price caller g
run price caller (Call.set_mint_guardian_paused p b) =
    Markets.set_mint_guardian_paused price caller p b
run price caller (Call.set_borrow_guardian_paused p b) =
    Markets.set_borrow_guardian_paused price caller p b
run price caller (Call.set_seize_guardian_paused b) =
    Markets.set_seize_guardian_paused price caller b
run price caller (Call.set_transfer_guardian_paused b) =
    Markets.set_transfer_guardian_paused price caller b
run price caller (Call.set_close_factor_mantissa f) =
    Markets.set_close_factor_mantissa price caller f
run price caller (Call.set_liquidation_incentive_mantissa f) =
    Markets.set_liquidation_incentive_mantissa price caller f
run price caller (Call.set_borrow_cap p c) = Markets.set_borrow_cap price caller p c

pub data History (s : State) : State → Type 0 where
  here : History s s
  called :
      {t u : State} (price : (oracle pool : ℕ) → Option ℕ) (caller : ℕ) (call : Call)
      → History s t
      → run price caller call t ≡ ok (tt, u)
      → History s u

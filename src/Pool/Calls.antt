-- ===== src/Pool/Calls.antt =====
-- The messages of the pool contract as one type of calls, contracts/pool/lib.rs and
-- logics/impls/pool/mod.rs, and the histories of a pool: its messages run one after the other, and
-- between two of them the other contracts may change, and the token library by its own messages.
-- A message that fails leaves no trace. Messages that re-enter the pool while it runs are left out.
use starlay_protocol_wasm.Prelude.{ℕ, Bool, ◌≡◌, ok}
use starlay_protocol_wasm.Pool.Environment.{TokenLibrary, Contracts, Context}
use starlay_protocol_wasm.Pool.State.{State, Message}
use starlay_protocol_wasm.Pool.Accrual
use starlay_protocol_wasm.Pool.Collateral
use starlay_protocol_wasm.Pool.Lending
use starlay_protocol_wasm.Pool.Liquidation
use starlay_protocol_wasm.Pool.Reserves
use starlay_protocol_wasm.Pool.Delegation
use starlay_protocol_wasm.Pool.Admin
use starlay_protocol_wasm.Pool.Transfer

pub data Call : Type 0 where
  accrue_interest redeem_all repay_borrow_all : Call
  mint redeem redeem_underlying borrow repay_borrow reduce_reserves : (amount : ℕ) → Call
  mint_to borrow_for borrow_for_flashloan : (account amount : ℕ) → Call
  repay_borrow_behalf transfer_underlying transfer approve_delegate : (account amount : ℕ) → Call
  liquidate_borrow : (borrower repay_amount collateral : ℕ) → Call
  seize : (liquidator borrower seize_tokens : ℕ) → Call
  transfer_from increase_delegate_allowance decrease_delegate_allowance : (a b amount : ℕ) → Call
  set_use_reserve_as_collateral : Bool → Call
  set_reserve_factor_mantissa set_liquidation_threshold : ℕ → Call
  set_incentives_controller sweep_token : ℕ → Call
  set_controller add_reserves set_interest_rate_model : ℕ → Call

module _ (lib : TokenLibrary) (contracts : Contracts lib.Psp22Error) where
  unfoldable pub run : Context → Call → Message lib contracts (Unit {0})
  run ctx Call.accrue_interest = Accrual.accrue_interest lib contracts ctx
  run ctx Call.redeem_all = Lending.redeem_all lib contracts ctx
  run ctx Call.repay_borrow_all = Lending.repay_borrow_all lib contracts ctx
  run ctx (Call.mint a) = Lending.mint lib contracts ctx a
  run ctx (Call.redeem a) = Lending.redeem lib contracts ctx a
  run ctx (Call.redeem_underlying a) = Lending.redeem_underlying lib contracts ctx a
  run ctx (Call.borrow a) = Lending.borrow lib contracts ctx a
  run ctx (Call.repay_borrow a) = Lending.repay_borrow lib contracts ctx a
  run ctx (Call.reduce_reserves a) = Reserves.reduce_reserves lib contracts ctx a
  run ctx (Call.mint_to u a) = Lending.mint_to lib contracts ctx u a
  run ctx (Call.borrow_for u a) = Lending.borrow_for lib contracts ctx u a
  run ctx (Call.borrow_for_flashloan u a) = Lending.borrow_for_flashloan lib contracts ctx u a
  run ctx (Call.repay_borrow_behalf u a) = Lending.repay_borrow_behalf lib contracts ctx u a
  run ctx (Call.transfer_underlying u a) = Lending.transfer_underlying_message lib contracts ctx u a
  run ctx (Call.transfer u a) = Transfer.transfer lib contracts ctx u a
  run ctx (Call.approve_delegate u a) = Delegation.approve_delegate lib contracts ctx u a
  run ctx (Call.liquidate_borrow b a c) = Liquidation.liquidate_borrow lib contracts ctx b a c
  run ctx (Call.seize l b n) = Liquidation.seize lib contracts ctx l b n
  run ctx (Call.transfer_from s d a) = Transfer.transfer_from lib contracts ctx s d a
  run ctx (Call.increase_delegate_allowance o d a) =
      Delegation.increase_delegate_allowance lib contracts ctx o d a
  run ctx (Call.decrease_delegate_allowance o d a) =
      Delegation.decrease_delegate_allowance lib contracts ctx o d a
  run ctx (Call.set_use_reserve_as_collateral b) =
      Collateral.set_use_reserve_as_collateral lib contracts ctx b
  run ctx (Call.set_reserve_factor_mantissa n) =
      Admin.set_reserve_factor_mantissa lib contracts ctx n
  run ctx (Call.set_liquidation_threshold n) = Admin.set_liquidation_threshold lib contracts ctx n
  run ctx (Call.set_incentives_controller c) = Admin.set_incentives_controller lib contracts ctx c
  run ctx (Call.sweep_token t) = Reserves.sweep_token lib contracts ctx t
  run ctx (Call.set_controller c) = Admin.refused_by_contract lib contracts ctx
  run ctx (Call.add_reserves a) = Admin.refused_by_contract lib contracts ctx
  run ctx (Call.set_interest_rate_model m) = Admin.refused_by_contract lib contracts ctx

  pub data History (s : State lib contracts) : State lib contracts → Type 0 where
    here : History s s
    called :
        {t u : State lib contracts} (ctx : Context) (call : Call)
        → History s t
        → run ctx call t ≡ ok (tt, u)
        → History s u
    elsewhere :
        {t : State lib contracts} (token : lib.Token) (world : contracts.World)
        → History s t
        → History s (record t { token = token; world = world })

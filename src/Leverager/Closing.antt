-- ===== src/Leverager/Closing.antt =====
-- Withdrawing and repaying in turns, logics/impls/leverager.rs.
pub mod Laws
use starlay_protocol_wasm.Prelude.{
  ℕ, true, false, ◌||◌, ltb, if◌then◌else◌, zero, suc, Outcome, ok, panic, ok_or, map_err, ◌>>=◌,
  ◌>>◌,
}
use starlay_protocol_wasm.Words.{u128_max, sub128, as_u128}
use starlay_protocol_wasm.Leverager.Environment.{
  Data, Error, Context, Contracts, controller_is_not_set, market_not_listed, pool, psp22,
}
use starlay_protocol_wasm.Leverager.Views.{withdrawable_amount}

abbrev pub close_max_loops : ℕ
close_max_loops = 40

module _ {P : Type 0} (contracts : Contracts P) (d : Data) (ctx : Context) where
  abbrev pub Call : Type 0
  Call = contracts.World → Outcome (Error P) contracts.World

  -- The three calls that both branches of the loop's body make: the caller's pool tokens come in, go
  -- back to the pool, and what that pays out goes into the caller's loan.
  unfoldable pub move_back : (market amount : ℕ) → Call
  move_back market amount w = do
    w1 ←
        map_err psp22
          (contracts.transfer_from market ctx.account_id ctx.caller ctx.account_id amount w)
    w2 ← map_err pool (contracts.redeem market ctx.account_id amount w1)
    map_err pool (contracts.repay_borrow_behalf market ctx.account_id ctx.caller amount w2)

  -- The `while` of `_close`, over the rounds that the call's gas pays for; when they are used up the call
  -- traps. `steps` is that of each computation of the withdrawable amount.
  unfoldable pub close_rounds :
      (steps asset market : ℕ) (gas withdraw_amount repay_amount loop_remains : ℕ) → Call
  close_rounds steps asset market zero withdraw_amount repay_amount loop_remains w =
      if ltb 0 loop_remains || ltb 0 withdraw_amount then panic else ok w
  close_rounds steps asset market (suc gas) withdraw_amount repay_amount loop_remains w =
      elim (ltb 0 loop_remains || ltb 0 withdraw_amount) [
        | false ↦ ok w
        | true ↦ elim (ltb repay_amount withdraw_amount) [
          | true ↦ move_back market repay_amount w
          | false ↦ do
            w1 ← move_back market withdraw_amount w
            most ← withdrawable_amount contracts d w1 steps ctx.caller asset
            withdraw' ← as_u128 most
            (repay', w2) ← map_err pool (contracts.borrow_balance_current market ctx.caller w1)
            close_rounds steps asset market gas withdraw' repay' (sub128 loop_remains 1) w2
        ]
      ]

  unfoldable pub close : (steps gas asset : ℕ) → Call
  close steps gas asset w = do
    controller ← ok_or d.controller controller_is_not_set
    market ← ok_or (contracts.market_of_underlying w controller asset) market_not_listed
    w1 ← map_err psp22 (contracts.approve asset ctx.account_id market u128_max w)
    most ← withdrawable_amount contracts d w1 steps ctx.caller asset
    withdraw_amount ← as_u128 most
    (repay_amount, w2) ← map_err pool (contracts.borrow_balance_current market ctx.caller w1)
    close_rounds steps asset market gas withdraw_amount repay_amount close_max_loops w2

-- ===== src/FlashloanReceiver/Tests.antt =====
-- A flash loan with this receiver in a world of balances of one token, for
-- logics/impls/flashloan_receiver.rs.
use starlay_protocol_wasm.Prelude.{
  ℕ, ◌+◌, ◌-◌, ◌≡◌, refl, arith, true, some, [], ltb, ◌==◌, if◌then◌else◌, Outcome, ok, err,
}
use starlay_protocol_wasm.Words.{add128}
use starlay_protocol_wasm.Pool.Errors.{borrow_cash_not_available}
use starlay_protocol_wasm.FlashloanGateway
use starlay_protocol_wasm.FlashloanGateway.{Context, Contracts, premium_of}
use starlay_protocol_wasm.FlashloanReceiver.{allow_return, take_premiums, execute_operation, new}
use starlay_protocol_wasm.FlashloanReceiver.Steps.{Lawful}
use starlay_protocol_wasm.FlashloanReceiver.Laws.{flashloan_earns}

abbrev World : Type 0
World = ℕ → ℕ

abbrev move_tokens : (src dst value : ℕ) → World → World
move_tokens src dst value w a =
    if a == dst
    then (if a == src then w a - value else w a) + value
    else if a == src
    then w a - value
    else w a

abbrev transfer : {E : Type 0} → E → (src dst value : ℕ) → World → Outcome E World
transfer e src dst value w = if ltb (w src) value then err e else ok (move_tokens src dst value w)

-- The market 10 of the asset 20, and a gateway to it.
abbrev contracts : Contracts (Unit {0})
contracts = record {
  World = World;
  market_of_underlying = λ w controller asset. some 10;
  transfer_underlying = λ pool sender receiver amount w.
      if ltb (w pool) amount
      then err borrow_cash_not_available
      else ok (move_tokens pool receiver amount w);
  accrue_interest = λ pool sender w. ok w;
  borrow_for_flashloan = λ pool sender borrower amount w. ok w;
  transfer_from = λ token sender src dst value w. transfer tt src dst value w;
  execute_operation = λ receiver sender assets amounts premiums initiator params w. ok (true, w);
}

abbrev balance_of : World → (token account : ℕ) → ℕ
balance_of w token account = w account

abbrev approve : (token sender spender value : ℕ) → World → Outcome (Unit {0}) World
approve token sender spender value w = ok w

abbrev ctx : Context
ctx = record { caller = 5; account_id = 40 }

-- The market has a million, the caller 500 and the receiver, account 50, has 7.
abbrev before : World
before a = if a == 10 then 1000000 else if a == 5 then 500 else if a == 50 then 7 else 0

abbrev after : World
after = move_tokens 50 10 100090 (move_tokens 5 50 90 (move_tokens 10 50 100000 before))

lawful : Lawful contracts balance_of approve 20 10
lawful = record {
  transfers = λ spender src dst value w w' e. record {
    enough = ground arith;
    balances = λ a. ground arith;
  };
  approvals = λ sender spender value w w' e a. ground arith;
  lends = λ sender receiver amount w w' e. record {
    enough = ground arith;
    balances = λ a. ground arith;
  };
  accrues = λ sender w w' e a. ground arith;
}

flashloan_earns_example :
    (after 10 ≡ before 10 + 90) × (before 5 ≡ after 5 + 90) × (after 50 ≡ before 50)
unfolding FlashloanGateway.flashloan FlashloanGateway.lend FlashloanGateway.settle_all
    FlashloanGateway.settle FlashloanGateway.same_length FlashloanGateway.map_legs premium_of
    execute_operation take_premiums allow_return FlashloanGateway.new new add128
flashloan_earns_example =
    flashloan_earns contracts balance_of approve (new 40) 50 (FlashloanGateway.new 30) ctx 20 100000
      10 30 [] before after lawful refl refl (λ e. absurd (omega arith)) (λ e. absurd (omega arith))
      (λ e. absurd (omega arith)) (omega arith) refl

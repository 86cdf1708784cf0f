-- ===== src/WethGateway/Tests.antt =====
-- Runs of the gateway on a world with one pool, for logics/impls/weth_gateway.rs.
use starlay_protocol_wasm.Prelude.{ℕ, ◌+◌, ◌-◌, refl, none, some, ltb, if◌then◌else◌, ok}
use starlay_protocol_wasm.WethGateway.{Context, Contracts, new, safe_transfer_eth, wrap, repay_eth}
use starlay_protocol_wasm.WethGateway.Laws.{Repaid, repay_eth-Repaid}

-- The native tokens of the gateway and of account 5, and the debt of account 5.
record World : Type 0 where
  held : ℕ
  owned : ℕ
  debt : ℕ

abbrev world : ℕ → ℕ → ℕ → World
world held owned debt = record { held = held; owned = owned; debt = debt }

abbrev contracts : Contracts (Unit {0})
contracts = record {
  World = World;
  transfer = λ sender to value w.
      if ltb w.held value
      then none
      else some (record w { held = w.held - value; owned = w.owned + value });
  weth_deposit = λ weth sender value w. ok (record w { held = w.held - value });
  weth_withdraw = λ weth sender value w. ok (record w { held = w.held + value });
  approve = λ token sender spender value w. ok w;
  transfer_from = λ token sender src dst value w. ok w;
  balance_of = λ w pool account. 0;
  mint_to = λ pool sender account amount w. ok w;
  redeem_underlying = λ pool sender amount w. ok w;
  borrow_balance_current = λ pool account w. ok (w.debt, w);
  repay_borrow_behalf = λ pool sender borrower amount w. ok (record w { debt = w.debt - amount });
  borrow_for = λ pool sender borrower amount w. ok w;
}

abbrev ctx : Context
ctx = record { caller = 5; account_id = 60; transferred_value = 1000 }

-- 1000 is sent for a debt of 700.
repay_eth-Repaid_example : Repaid contracts (new 21) ctx 10 900 (world 1000 0 700) (world 0 300 0)
unfolding repay_eth new wrap safe_transfer_eth
repay_eth-Repaid_example = repay_eth-Repaid contracts (new 21) ctx 10 900 (world 1000 0 700) refl

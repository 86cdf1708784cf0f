-- ===== src/FlashloanGateway/Tests.antt =====
-- Runs of the gateway on a world with one market, for logics/impls/flashloan_gateway.rs.
use starlay_protocol_wasm.Prelude.{
  ℕ, ◌+◌, ◌-◌, refl, true, some, [], ◌∷◌, ltb, if◌then◌else◌, ok, err,
}
use starlay_protocol_wasm.Words.{add128}
use starlay_protocol_wasm.FlashloanGateway.{
  Context, Contracts, new, premium_of, map_legs, same_length, lend, settle, settle_all, flashloan,
}
use starlay_protocol_wasm.FlashloanGateway.Laws.{Completed, flashloan-Completed}

-- The cash of the market 10 of the asset 20, what the receiver holds, and the caller's debt.
record World : Type 0 where
  cash : ℕ
  held : ℕ
  debt : ℕ

abbrev world : ℕ → ℕ → ℕ → World
world cash held debt = record { cash = cash; held = held; debt = debt }

abbrev contracts : Contracts (Unit {0})
contracts = record {
  World = World;
  market_of_underlying = λ w controller asset. some 10;
  transfer_underlying = λ pool sender receiver amount w.
      ok (record w { cash = w.cash - amount; held = w.held + amount });
  accrue_interest = λ pool sender w. ok w;
  borrow_for_flashloan = λ pool sender borrower amount w. ok (record w { debt = w.debt + amount });
  transfer_from = λ token sender src dst value w.
      if ltb w.held value
      then err tt
      else ok (record w { cash = w.cash + value; held = w.held - value });
  execute_operation = λ receiver sender assets amounts premiums initiator params w. ok (true, w);
}

abbrev ctx : Context
ctx = record { caller = 5; account_id = 40 }

-- 100000 comes back with a premium of 90, and 3000 becomes a loan.
flashloan-Completed_example :
    Completed contracts
      (new 30)
      ctx
      50
      (20 ∷ 20 ∷ [])
      (100000 ∷ 3000 ∷ [])
      (0 ∷ 1 ∷ [])
      []
      (world 1000000 500 0)
      (world 997090 3410 3000)
unfolding flashloan new lend settle settle_all same_length map_legs premium_of add128
flashloan-Completed_example =
    flashloan-Completed contracts (new 30) ctx 50 (20 ∷ 20 ∷ []) (100000 ∷ 3000 ∷ []) (0 ∷ 1 ∷ [])
      [] (world 1000000 500 0) refl

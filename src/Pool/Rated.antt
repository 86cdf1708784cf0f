-- ===== src/Pool/Rated.antt =====
-- A pool over interest rate models of this repository, logics/impls/pool/mod.rs and
-- logics/impls/interest_rate_model.rs.
pub mod Laws
use starlay_protocol_wasm.Prelude.{ℕ, Outcome}
use starlay_protocol_wasm.Rates.{Model, borrow_rate, supply_rate}
use starlay_protocol_wasm.Pool.Environment.{Contracts}

-- The contracts of a pool, with an interest rate model at each account that `models` gives: its two messages.
module _ {P : Type 0} (contracts : Contracts P)
    (models : contracts.World → (account : ℕ) → Model) where
  abbrev pub get_borrow_rate :
      contracts.World → (model cash borrows reserves : ℕ) → Outcome (Unit {0}) ℕ
  get_borrow_rate w model cash borrows reserves = borrow_rate (models w model) cash borrows reserves

  abbrev pub get_supply_rate :
      contracts.World → (model cash borrows reserves reserve_factor : ℕ) → Outcome (Unit {0}) ℕ
  get_supply_rate w model cash borrows reserves reserve_factor =
      supply_rate (models w model) cash borrows reserves reserve_factor

  abbrev pub rated : Contracts P
  rated = record contracts { get_borrow_rate = get_borrow_rate }

-- ===== src/Pool/State.antt =====
-- The storage of a pool, `Data` of logics/impls/pool/mod.rs, and the messages' monad.
use Prim.Native.String.{String}
use starlay_protocol_wasm.Prelude.{ℕ, Bool, Option, List, ◌∷◌, Mapping, Outcome, map_err}
use starlay_protocol_wasm.Prelude.Actions.{Action, view, modify}
use starlay_protocol_wasm.Pool.Errors.{Error, controller, psp22}
use starlay_protocol_wasm.Controller.Errors.{Error as ControllerError}
use starlay_protocol_wasm.Pool.Environment.{TokenLibrary, Contracts}

pub record Data : Type 0 where
  pub underlying : Option ℕ
  pub controller : Option ℕ
  pub manager : Option ℕ
  pub incentives_controller : Option ℕ
  pub rate_model : Option ℕ
  pub borrows_scaled : ℕ
  pub reserves_scaled : ℕ
  pub account_borrows : Mapping ℕ
  pub accrual_block_timestamp : ℕ
  pub borrow_index : ℕ
  pub initial_exchange_rate_mantissa : ℕ
  pub reserve_factor_mantissa : ℕ
  pub liquidation_threshold : ℕ
  -- by owner, then by delegatee
  pub delegate_allowance : ℕ → Mapping ℕ
  pub using_reserve_as_collateral : Mapping Bool

-- The events that contracts/pool/lib.rs emits; where it keeps the empty default of a hook, there is
-- no event.
pub data Event : Type 0 where
  mint : (minter mint_amount mint_tokens : ℕ) → Event
  redeem : (redeemer redeem_amount : ℕ) → Event
  borrow : (borrower borrow_amount account_borrows total_borrows : ℕ) → Event
  repay_borrow : (payer borrower repay_amount account_borrows total_borrows : ℕ) → Event
  liquidate_borrow : (liquidator borrower repay_amount token_collateral seize_tokens : ℕ) → Event
  reserves_added : (benefactor add_amount new_total_reserves : ℕ) → Event
  delegate_approval : (owner delegatee amount : ℕ) → Event
  reserve_used_as_collateral_enabled : (user : ℕ) → Event
  reserve_used_as_collateral_disabled : (user : ℕ) → Event

module _ (lib : TokenLibrary) (contracts : Contracts lib.Psp22Error) where
  -- The contract's storage, the storage of the token library, the other contracts, and the events
  -- so far, the latest first.
  pub record State : Type 0 where
    pub pool : Data
    pub token : lib.Token
    pub name : Option String
    pub symbol : Option String
    pub decimals : ℕ
    pub world : contracts.World
    pub events : List Event

  abbrev pub Message : Type 0 → Type 0
  Message A = Action State (Error lib.Psp22Error) A

  abbrev pub update : (Data → Data) → Message (Unit {0})
  update f = modify λ s. record s { pool = f s.pool }

  abbrev pub emit : Event → Message (Unit {0})
  emit e = modify λ s. record s { events = e ∷ s.events }

  -- A call of the token library on the pool's own token.
  abbrev pub on_token : (lib.Token → Outcome lib.Psp22Error lib.Token) → Message (Unit {0})
  on_token f s = elim (f s.token) [
    | Outcome.ok t ↦ Outcome.ok (tt, record s { token = t })
    | Outcome.err e ↦ Outcome.err (psp22 e)
    | Outcome.panic ↦ Outcome.panic
  ]

  -- A call of another contract that may write, with the conversion of its error.
  abbrev pub on_world :
      {E : Type 0}
      → (E → Error lib.Psp22Error)
      → (contracts.World → Outcome E contracts.World)
      → Message (Unit {0})
  on_world c f s = elim (f s.world) [
    | Outcome.ok w ↦ Outcome.ok (tt, record s { world = w })
    | Outcome.err e ↦ Outcome.err (c e)
    | Outcome.panic ↦ Outcome.panic
  ]

  -- A call of the controller, `ControllerRef::…(…)?`
  abbrev pub ask_controller :
      {A : Type 0} → (contracts.World → Outcome ControllerError A) → Message A
  ask_controller f = view λ s. map_err controller (f s.world)

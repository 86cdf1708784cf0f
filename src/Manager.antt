-- ===== src/Manager.antt =====
-- The manager, logics/impls/manager.rs and contracts/manager/lib.rs: the roles that may send each message
-- on to the controller or to a pool.
pub mod Laws
pub mod Tests
use starlay_protocol_wasm.Prelude.{ℕ, Bool, not, Outcome, ok, fail_if, map_err, ◌>>=◌, ◌>>◌}
use starlay_protocol_wasm.Controller.Errors.{Error as ControllerError}
use starlay_protocol_wasm.Controller.Markets.Calls.{Call as ControllerCall}
use starlay_protocol_wasm.Controller.Markets.Calls
use starlay_protocol_wasm.Pool.Errors.{Error as PoolError}

pub record Data : Type 0 where
  pub controller : ℕ

-- The role ids of contracts/manager/lib.rs
pub data Role : Type 0 where
  default_admin controller_admin token_admin borrow_cap_guardian pause_guardian : Role

-- The messages of the trait `Manager` that write.
pub data Message : Type 0 where
  set_controller set_price_oracle set_flashloan_gateway : (account : ℕ) → Message
  support_market : (pool underlying : ℕ) → Message
  support_market_with_collateral_factor_mantissa : (pool underlying factor : ℕ) → Message
  set_collateral_factor_mantissa set_borrow_cap : (pool value : ℕ) → Message
  set_mint_guardian_paused set_borrow_guardian_paused : (pool : ℕ) (paused : Bool) → Message
  set_close_factor_mantissa set_liquidation_incentive_mantissa : (value : ℕ) → Message
  set_reserve_factor_mantissa reduce_reserves : (pool value : ℕ) → Message
  sweep_token : (pool asset : ℕ) → Message

-- `Error` of logics/traits/manager.rs, over the errors of the access control library and of the tokens.
pub data Error (A P : Type 0) : Type 0 where
  access_control : A → Error A P
  controller : ControllerError → Error A P
  pool : PoolError P → Error A P

-- The access control library, `openbrush::contracts::access_control`: the account has the role, or the
-- modifier `only_role` returns its error.
pub record AccessControl : Type 1 where
  pub AccessError : Type 0
  pub has_role : Role → (account : ℕ) → Bool
  pub missing_role : AccessError

-- The controller and the pools, with all their storage in `World`. The first account of a call is the
-- contract that is called, the second is the sender.
pub record Contracts (P : Type 0) : Type 1 where
  pub World : Type 0
  pub call_controller :
      (controller sender : ℕ) → ControllerCall → World → Outcome ControllerError World
  pub set_reserve_factor_mantissa : (pool sender value : ℕ) → World → Outcome (PoolError P) World
  pub reduce_reserves : (pool sender amount : ℕ) → World → Outcome (PoolError P) World
  pub sweep_token : (pool sender asset : ℕ) → World → Outcome (PoolError P) World

-- The role of the modifier on each message.
unfoldable pub role : Message → Role
role (Message.set_controller c) = Role.default_admin
role (Message.set_price_oracle o) = Role.controller_admin
role (Message.set_flashloan_gateway g) = Role.controller_admin
role (Message.support_market p u) = Role.controller_admin
role (Message.support_market_with_collateral_factor_mantissa p u f) = Role.controller_admin
role (Message.set_collateral_factor_mantissa p f) = Role.controller_admin
role (Message.set_mint_guardian_paused p b) = Role.pause_guardian
role (Message.set_borrow_guardian_paused p b) = Role.pause_guardian
role (Message.set_close_factor_mantissa f) = Role.controller_admin
role (Message.set_liquidation_incentive_mantissa f) = Role.controller_admin
role (Message.set_borrow_cap p c) = Role.borrow_cap_guardian
role (Message.set_reserve_factor_mantissa p f) = Role.token_admin
role (Message.reduce_reserves p n) = Role.token_admin
role (Message.sweep_token p a) = Role.token_admin

module _ (access : AccessControl) {P : Type 0} (contracts : Contracts P) (account_id : ℕ) where
  -- The manager's storage with that of the other contracts.
  pub record State : Type 0 where
    pub manager : Data
    pub world : contracts.World

  abbrev pub Sent : Type 0
  Sent = State → Outcome (Error access.AccessError P) State

  -- `ControllerRef::…(&self._controller(), …)?` and `PoolRef::…(&pool, …)?`
  abbrev pub send : ControllerCall → Sent
  send call s = do
    w ← map_err controller (contracts.call_controller s.manager.controller account_id call s.world)
    ok (record s { world = w })

  abbrev pub send_pool : (contracts.World → Outcome (PoolError P) contracts.World) → Sent
  send_pool f s = do w ← map_err pool (f s.world); ok (record s { world = w })

  -- The bodies of the messages, `Internal` of logics/impls/manager.rs.
  unfoldable pub perform : Message → Sent
  perform (Message.set_controller c) s = ok (record s { manager = record { controller = c } })
  perform (Message.set_price_oracle o) s = send (Calls.Call.set_price_oracle o) s
  perform (Message.set_flashloan_gateway g) s = send (Calls.Call.set_flashloan_gateway g) s
  perform (Message.support_market p u) s = send (Calls.Call.support_market p u) s
  perform (Message.support_market_with_collateral_factor_mantissa p u f) s =
      send (Calls.Call.support_market_with_collateral_factor_mantissa p u f) s
  perform (Message.set_collateral_factor_mantissa p f) s =
      send (Calls.Call.set_collateral_factor_mantissa p f) s
  perform (Message.set_mint_guardian_paused p b) s =
      send (Calls.Call.set_mint_guardian_paused p b) s
  perform (Message.set_borrow_guardian_paused p b) s =
      send (Calls.Call.set_borrow_guardian_paused p b) s
  perform (Message.set_close_factor_mantissa f) s = send (Calls.Call.set_close_factor_mantissa f) s
  perform (Message.set_liquidation_incentive_mantissa f) s =
      send (Calls.Call.set_liquidation_incentive_mantissa f) s
  perform (Message.set_borrow_cap p c) s = send (Calls.Call.set_borrow_cap p c) s
  perform (Message.set_reserve_factor_mantissa p f) s =
      send_pool (contracts.set_reserve_factor_mantissa p account_id f) s
  perform (Message.reduce_reserves p n) s = send_pool (contracts.reduce_reserves p account_id n) s
  perform (Message.sweep_token p a) s = send_pool (contracts.sweep_token p account_id a) s

  -- A message of the contract: the modifier, then the body.
  unfoldable pub receive : (caller : ℕ) → Message → Sent
  receive caller message s = do
    fail_if (not (access.has_role (role message) caller)) (access_control access.missing_role)
    perform message s

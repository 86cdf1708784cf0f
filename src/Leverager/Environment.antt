-- ===== src/Leverager/Environment.antt =====
-- The storage and the errors of the leverager, the contracts it calls and the manager's message,
-- logics/impls/leverager.rs and logics/traits/leverager.rs.
use starlay_protocol_wasm.Prelude.{
  ℕ, not, ◌==◌, Option, none, some, Outcome, ok, ok_or, fail_if, ◌>>=◌, ◌>>◌,
}
use starlay_protocol_wasm.Controller.Account.{AccountData}
use starlay_protocol_wasm.Controller.Errors.{Error as ControllerError}
use starlay_protocol_wasm.Pool.Errors.{Error as PoolError}

pub record Data : Type 0 where
  pub controller : Option ℕ
  pub weth : Option ℕ
  pub price_oracle : Option ℕ
  pub manager : Option ℕ

pub data Error (P : Type 0) : Type 0 where
  manager_is_not_set caller_is_not_manager inappropriate_borrow_rate : Error P
  inappropriate_loop_count controller_is_not_set market_not_listed weth_is_not_set : Error P
  controller : ControllerError → Error P
  pool : PoolError P → Error P
  psp22 : P → Error P

-- `Self::env()`: the caller, the contract's own account and the value sent along.
pub record Context : Type 0 where
  pub caller : ℕ
  pub account_id : ℕ
  pub transferred_value : ℕ

-- The contracts that the leverager calls, with all their storage in `World`. The first account of a call
-- is the contract that is called; a call that traps is a panic. A call that writes returns the new world,
-- and takes the leverager as its sender.
pub record Contracts (P : Type 0) : Type 1 where
  pub World : Type 0
  -- the controller and the price oracle
  pub calculate_user_account_data :
      World → (controller account : ℕ) → Outcome ControllerError AccountData
  pub market_of_underlying : World → (controller asset : ℕ) → Option ℕ
  pub collateral_factor_mantissa : World → (controller pool : ℕ) → Option ℕ
  pub get_price : World → (oracle asset : ℕ) → Option ℕ
  -- tokens
  pub transfer_from : (token sender src dst value : ℕ) → World → Outcome P World
  pub approve : (token sender spender value : ℕ) → World → Outcome P World
  pub weth_deposit : (weth sender value : ℕ) → World → Outcome P World
  -- pools
  pub liquidation_threshold : World → (pool : ℕ) → ℕ
  pub mint_to : (pool sender account amount : ℕ) → World → Outcome (PoolError P) World
  pub borrow_for : (pool sender borrower amount : ℕ) → World → Outcome (PoolError P) World
  pub redeem : (pool sender tokens : ℕ) → World → Outcome (PoolError P) World
  pub repay_borrow_behalf : (pool sender borrower amount : ℕ) → World → Outcome (PoolError P) World
  pub borrow_balance_current : (pool account : ℕ) → World → Outcome (PoolError P) (ℕ × World)

-- The constructor of contracts/leverager/lib.rs
unfoldable pub new : (manager : ℕ) → Data
new manager = record { controller = none; weth = none; price_oracle = none; manager = some manager }

module _ {P : Type 0} (ctx : Context) where
  unfoldable pub assert_manager : Data → Outcome (Error P) (Unit {0})
  assert_manager d = do
    manager ← ok_or d.manager manager_is_not_set
    fail_if (not (manager == ctx.caller)) caller_is_not_manager

  unfoldable pub initialize :
      (controller price_oracle weth : Option ℕ) → Data → Outcome (Error P) Data
  initialize controller_id price_oracle weth d = do
    assert_manager d
    ok (record d { controller = controller_id; price_oracle = price_oracle; weth = weth })

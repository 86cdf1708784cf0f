-- ===== src/Pool/Environment.antt =====
-- What a pool calls and what is not its own code: the token library that keeps the pool tokens, the
-- other contracts, and the call's context. Data that pools and the controller exchange stand here too.
use Prim.Native.String.{String}
use starlay_protocol_wasm.Prelude.{ℕ, Option, Outcome}
use starlay_protocol_wasm.Controller.Errors.{Error as ControllerError}
use starlay_protocol_wasm.Pool.Errors.{Error as PoolError}

-- `PoolAttributes` and `PoolAttributesForSeizeCalculation`, logics/traits/controller.rs
pub record PoolAttributes : Type 0 where
  pub pool : Option ℕ
  pub underlying : Option ℕ
  pub decimals : ℕ
  pub liquidation_threshold : ℕ
  pub account_balance : ℕ
  pub account_borrow_balance : ℕ
  pub exchange_rate : ℕ
  pub total_borrows : ℕ

pub record PoolAttributesForSeizeCalculation : Type 0 where
  pub underlying : Option ℕ
  pub decimals : ℕ

-- `Self::env()`: the caller, the contract's own account and the block's time.
pub record Context : Type 0 where
  pub caller : ℕ
  pub account_id : ℕ
  pub block_timestamp : ℕ

-- The token library, `openbrush::contracts::psp22`: `Token` is its storage.
pub record TokenLibrary : Type 1 where
  pub Token : Type 0
  pub Psp22Error : Type 0
  pub custom : String → Psp22Error
  pub insufficient_balance : Psp22Error
  pub insufficient_allowance : Psp22Error
  pub supply : Token → ℕ
  pub set_supply : ℕ → Token → Token
  pub balance_of : Token → ℕ → ℕ
  pub allowance : Token → (owner spender : ℕ) → ℕ
  pub mint_to : (account amount : ℕ) → Token → Outcome Psp22Error Token
  pub burn_from : (account amount : ℕ) → Token → Outcome Psp22Error Token
  pub transfer_from_to : (src dst amount : ℕ) → Token → Outcome Psp22Error Token
  pub approve_from_to : (owner spender amount : ℕ) → Token → Outcome Psp22Error Token

-- The other contracts, with all their storage in `World`. The first account of a call is the
-- contract that is called; a call that traps is a panic. A call that may write returns the new world.
pub record Contracts (P : Type 0) : Type 1 where
  pub World : Type 0
  -- the underlying token
  pub token_balance_of : World → (token account : ℕ) → ℕ
  pub token_transfer : (token sender receiver value : ℕ) → World → Outcome P World
  pub token_transfer_from : (token spender sender receiver value : ℕ) → World → Outcome P World
  -- the interest rate model
  pub get_borrow_rate : World → (model cash borrows reserves : ℕ) → Outcome (Unit {0}) ℕ
  -- the incentives controller
  pub handle_action :
      (controller user total_deposit total_borrow user_deposit user_borrow : ℕ)
      → World
      → Outcome (Unit {0}) World
  -- the controller
  pub mint_allowed :
      World → (controller pool minter amount : ℕ) → Outcome ControllerError (Unit {0})
  pub redeem_allowed :
      World
      → (controller pool redeemer amount : ℕ) → Option PoolAttributes
      → Outcome ControllerError (Unit {0})
  pub borrow_allowed :
      World
      → (controller pool borrower amount : ℕ) → Option PoolAttributes
      → Outcome ControllerError (Unit {0})
  pub repay_borrow_allowed :
      World → (controller pool payer borrower amount : ℕ) → Outcome ControllerError (Unit {0})
  pub liquidate_borrow_allowed :
      World
      → (controller pool_borrowed pool_collateral liquidator borrower amount : ℕ)
      → Option PoolAttributes
      → Outcome ControllerError (Unit {0})
  pub seize_allowed :
      World
      → (controller pool_collateral pool_borrowed liquidator borrower tokens : ℕ)
      → Outcome ControllerError (Unit {0})
  pub transfer_allowed :
      World
      → (controller pool src dst amount : ℕ) → Option PoolAttributes
      → Outcome ControllerError (Unit {0})
  pub liquidate_calculate_seize_tokens :
      World
      → (controller pool_borrowed pool_collateral exchange_rate amount : ℕ)
      → (borrowed collateral : Option PoolAttributesForSeizeCalculation) → Outcome ControllerError ℕ
  pub balance_decrease_allowed :
      World
      → (controller : ℕ) → PoolAttributes
      → (account amount : ℕ) → Outcome ControllerError (Unit {0})
  pub flashloan_gateway : World → (controller : ℕ) → Option ℕ
  -- another pool, that of the collateral
  pub accrue_interest : (pool : ℕ) → World → Outcome (PoolError P) World
  pub seize : (pool sender liquidator borrower tokens : ℕ) → World → Outcome (PoolError P) World
  pub get_accrual_block_timestamp : World → (pool : ℕ) → ℕ
  pub exchange_rate_stored : World → (pool : ℕ) → Outcome (Unit {0}) ℕ
  pub underlying : World → (pool : ℕ) → Option ℕ
  pub token_decimals : World → (pool : ℕ) → ℕ

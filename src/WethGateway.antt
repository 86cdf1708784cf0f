-- ===== src/WethGateway.antt =====
-- The gateway for the native token, logics/impls/weth_gateway.rs and contracts/weth_gateway/lib.rs. Its
-- events are left out. What the library's modifier `only_owner` checks is a parameter of the two messages
-- for stuck tokens, whose declarations in logics/traits/weth_gateway.rs name it.
pub mod Laws
pub mod Tests
use starlay_protocol_wasm.Prelude.{
  ℕ, ◌-◌, Option, some, ltb, ◌==◌, if◌then◌else◌, Outcome, ok, ok_or, map_err, fail_if, ◌>>=◌, ◌>>◌,
}
use starlay_protocol_wasm.Words.{u128_max}
use starlay_protocol_wasm.Pool.Errors.{Error as PoolError}

pub record Data : Type 0 where
  pub weth : Option ℕ

-- `_initialize`, called by the constructor.
unfoldable pub new : (weth : ℕ) → Data
new weth = record { weth = some weth }

-- `Error` of logics/traits/weth_gateway.rs
pub data Error (P : Type 0) : Type 0 where
  safe_eth_transfer_failed insufficient_payback weth_is_not_set : Error P
  pool : PoolError P → Error P
  psp22 : P → Error P

-- `Self::env()`: the caller, the gateway's own account and the native value sent along.
pub record Context : Type 0 where
  pub caller : ℕ
  pub account_id : ℕ
  pub transferred_value : ℕ

-- The runtime, the wrapped token and the pools, with all their storage in `World`. The first account of a
-- call is the contract that is called; a call that writes takes the gateway as its sender.
pub record Contracts (P : Type 0) : Type 1 where
  pub World : Type 0
  pub transfer : (sender to value : ℕ) → World → Option World
  pub weth_deposit : (weth sender value : ℕ) → World → Outcome P World
  pub weth_withdraw : (weth sender value : ℕ) → World → Outcome P World
  pub approve : (token sender spender value : ℕ) → World → Outcome P World
  pub transfer_from : (token sender src dst value : ℕ) → World → Outcome P World
  pub balance_of : World → (pool account : ℕ) → ℕ
  pub mint_to : (pool sender account amount : ℕ) → World → Outcome (PoolError P) World
  pub redeem_underlying : (pool sender amount : ℕ) → World → Outcome (PoolError P) World
  pub borrow_balance_current : (pool account : ℕ) → World → Outcome (PoolError P) (ℕ × World)
  pub repay_borrow_behalf : (pool sender borrower amount : ℕ) → World → Outcome (PoolError P) World
  pub borrow_for : (pool sender borrower amount : ℕ) → World → Outcome (PoolError P) World

module _ {P : Type 0} (contracts : Contracts P) (d : Data) (ctx : Context) where
  abbrev pub Call : Type 0
  Call = contracts.World → Outcome (Error P) contracts.World

  -- `_safe_transfer_eth`
  unfoldable pub safe_transfer_eth : (to value : ℕ) → Call
  safe_transfer_eth to value w =
      ok_or (contracts.transfer ctx.account_id to value w) safe_eth_transfer_failed

  -- Wrapping, and the approval of the pool, which two messages begin with.
  unfoldable pub wrap : (weth pool_id value : ℕ) → Call
  wrap weth pool_id value w = do
    w1 ← map_err psp22 (contracts.weth_deposit weth ctx.account_id value w)
    map_err psp22 (contracts.approve weth ctx.account_id pool_id value w1)

  unfoldable pub deposit_eth : (pool_id : ℕ) → Call
  deposit_eth pool_id w = do
    weth ← ok_or d.weth weth_is_not_set
    w1 ← wrap weth pool_id ctx.transferred_value w
    map_err pool (contracts.mint_to pool_id ctx.account_id ctx.caller ctx.transferred_value w1)

  unfoldable pub withdraw_eth : (pool_id amount : ℕ) → Call
  withdraw_eth pool_id amount w = do
    let amount_to_withdraw =
        if amount == u128_max then contracts.balance_of w pool_id ctx.caller else amount
    weth ← ok_or d.weth weth_is_not_set
    w1 ← map_err psp22 (
        contracts.transfer_from pool_id ctx.account_id ctx.caller ctx.account_id amount_to_withdraw
          w)
    w2 ← map_err pool (contracts.redeem_underlying pool_id ctx.account_id amount_to_withdraw w1)
    w3 ← map_err psp22 (contracts.weth_withdraw weth ctx.account_id amount_to_withdraw w2)
    safe_transfer_eth ctx.caller amount_to_withdraw w3

  unfoldable pub repay_eth : (pool_id amount : ℕ) → Call
  repay_eth pool_id amount w = do
    (debt, w1) ← map_err pool (contracts.borrow_balance_current pool_id ctx.caller w)
    let payback_amount = if ltb amount debt then amount else debt
    fail_if (ltb ctx.transferred_value payback_amount) insufficient_payback
    weth ← ok_or d.weth weth_is_not_set
    w2 ← wrap weth pool_id payback_amount w1
    w3 ←
        map_err pool
          (contracts.repay_borrow_behalf pool_id ctx.account_id ctx.caller payback_amount w2)
    if ltb payback_amount ctx.transferred_value
        then safe_transfer_eth ctx.caller (ctx.transferred_value - payback_amount) w3
        else ok w3

  unfoldable pub borrow_eth : (pool_id amount : ℕ) → Call
  borrow_eth pool_id amount w = do
    weth ← ok_or d.weth weth_is_not_set
    w1 ← map_err pool (contracts.borrow_for pool_id ctx.account_id ctx.caller amount w)
    w2 ← map_err psp22 (contracts.weth_withdraw weth ctx.account_id amount w1)
    safe_transfer_eth ctx.caller amount w2

  module _ (only_owner : (caller : ℕ) → contracts.World → Outcome (Error P) (Unit {0}))
      (psp22_transfer : (token sender to value : ℕ)
        → contracts.World
        → Outcome P contracts.World) where
    unfoldable pub emergency_token_transfer : (token to amount : ℕ) → Call
    emergency_token_transfer token to amount w = do
      only_owner ctx.caller w
      map_err psp22 (psp22_transfer token ctx.account_id to amount w)

    unfoldable pub emergency_ether_transfer : (to amount : ℕ) → Call
    emergency_ether_transfer to amount w = do only_owner ctx.caller w; safe_transfer_eth to amount w

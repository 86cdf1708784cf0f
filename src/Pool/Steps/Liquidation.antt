-- ===== src/Pool/Steps/Liquidation.antt =====
-- A relation that holds of the writes holds of liquidations, logics/impls/pool/mod.rs.
use starlay_protocol_wasm.Prelude.{ℕ, not, ◌==◌}
use starlay_protocol_wasm.Prelude.Steps.{Steps, Steps-when, Steps-then}
use starlay_protocol_wasm.Pool.Environment.{TokenLibrary, Contracts, Context}
use starlay_protocol_wasm.Pool.State.{Data, Message}
use starlay_protocol_wasm.Pool.Liquidation.{
  raise_reserves, lower_supply, seize_inner, seize, check_liquidation, seize_here, seize_there,
  liquidate_borrow_inner, liquidate_borrow,
}
use starlay_protocol_wasm.Pool.Steps.{OnPool, Steps-update, Steps-on_world, pool_steps}
use starlay_protocol_wasm.Pool.Steps.Writes.{Writes, after_accrual}
use starlay_protocol_wasm.Pool.Steps.Lending.{repay_borrow_inner-Holds}

module _ (lib : TokenLibrary) (contracts : Contracts lib.Psp22Error) (ctx : Context)
    (R : Data → Data → Type 0) (w : Writes lib contracts ctx R) where
  abbrev Holds : {A : Type 0} → Message lib contracts A → Type 0
  Holds m = Steps (OnPool lib contracts R) m

  raise_reserves-Holds : (amount : ℕ) → Holds (raise_reserves lib contracts ctx amount)
  unfolding raise_reserves
  raise_reserves-Holds amount = search (pool_steps, w.pre, Steps-update, w.reserves) depth 40

  lower_supply-Holds : (tokens : ℕ) → Holds (lower_supply lib contracts ctx tokens)
  unfolding lower_supply
  lower_supply-Holds tokens = search (pool_steps, w.pre) depth 40

  seize_inner-Holds :
      (seizer liquidator borrower tokens : ℕ)
      → Holds (seize_inner lib contracts ctx seizer liquidator borrower tokens)
  unfolding seize_inner
  seize_inner-Holds seizer liquidator borrower tokens =
      search (pool_steps, w.pre, raise_reserves-Holds, lower_supply-Holds) depth 40

  pub seize-Holds :
      (liquidator borrower tokens : ℕ) → Holds (seize lib contracts ctx liquidator borrower tokens)
  unfolding seize
  seize-Holds liquidator borrower tokens =
      search (pool_steps, w.pre, w.accrual, seize_inner-Holds) depth 40

  check_liquidation-Holds :
      (controller liquidator borrower amount collateral : ℕ)
      → Holds (check_liquidation lib contracts ctx controller liquidator borrower amount collateral)
  unfolding check_liquidation
  check_liquidation-Holds controller liquidator borrower amount collateral =
      search (pool_steps, w.pre) depth 40

  seize_here-Holds :
      (controller liquidator borrower amount : ℕ)
      → Holds (seize_here lib contracts ctx controller liquidator borrower amount)
  unfolding seize_here
  seize_here-Holds controller liquidator borrower amount =
      search (pool_steps, w.pre, seize_inner-Holds) depth 40

  seize_there-Holds :
      (controller liquidator borrower amount collateral : ℕ)
      → Holds (seize_there lib contracts ctx controller liquidator borrower amount collateral)
  unfolding seize_there
  seize_there-Holds controller liquidator borrower amount collateral =
      search (pool_steps, w.pre) depth 40

  liquidate_borrow_inner-Holds :
      (liquidator borrower amount collateral : ℕ)
      → Holds (liquidate_borrow_inner lib contracts ctx liquidator borrower amount collateral)
  unfolding liquidate_borrow_inner
  liquidate_borrow_inner-Holds liquidator borrower amount collateral =
      search
        (
          pool_steps,
          w.pre,
          check_liquidation-Holds,
          repay_borrow_inner-Holds lib contracts ctx R w,
          seize_here-Holds,
          seize_there-Holds,
        )
        depth 40

  pub liquidate_borrow-Holds :
      (borrower amount collateral : ℕ)
      → Holds (liquidate_borrow lib contracts ctx borrower amount collateral)
  unfolding liquidate_borrow
  liquidate_borrow-Holds borrower amount collateral = after_accrual lib contracts ctx R w (
      Steps-then w.pre _ _
        (Steps-when w.pre (not (collateral == ctx.account_id)) _ (
          Steps-on_world lib contracts ctx R w.pre (λ e. e) (contracts.accrue_interest collateral)))
        (liquidate_borrow_inner-Holds ctx.caller borrower amount collateral))

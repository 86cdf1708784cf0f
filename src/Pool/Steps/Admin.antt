-- ===== src/Pool/Steps/Admin.antt =====
-- A relation that holds of the writes holds of reserves, delegations, settings and transfers,
-- logics/impls/pool/mod.rs.
use starlay_protocol_wasm.Prelude.{ℕ, ltb, arith}
use starlay_protocol_wasm.Prelude.{Bool-cases, inl, inr}
use starlay_protocol_wasm.Pool.Errors.{set_reserve_factor_bounds_check}
use starlay_protocol_wasm.Prelude.Actions.{throw_if, ◌>>◌}
use starlay_protocol_wasm.Prelude.Steps.{Steps, Steps-throw_if, Steps-then}
use starlay_protocol_wasm.Pool.Environment.{TokenLibrary, Contracts, Context}
use starlay_protocol_wasm.Pool.State.{Data, Message, update}
use starlay_protocol_wasm.Pool.Interest.{reserve_factor_max_mantissa}
use starlay_protocol_wasm.Pool.Reserves.{
  assert_manager, reduce_reserves_inner, reduce_reserves, sweep_token,
}
use starlay_protocol_wasm.Pool.Delegation.{
  approve_delegate_inner, approve_delegate, increase_delegate_allowance,
  decrease_delegate_allowance,
}
use starlay_protocol_wasm.Pool.Admin.{
  set_reserve_factor_mantissa, set_liquidation_threshold, set_incentives_controller,
  refused_by_contract,
}
use starlay_protocol_wasm.Pool.Transfer.{
  accrue_reward_or_fail, check_transfer, transfer_tokens, transfer, transfer_from,
}
use starlay_protocol_wasm.Pool.Steps.{
  OnPool, Steps-update, Steps-accrue_reward, Steps-assert_fresh, pool_steps,
}
use starlay_protocol_wasm.Pool.Steps.Writes.{Writes, after_accrual}
use starlay_protocol_wasm.Pool.Steps.Lending.{set_collateral_flag-Holds}

module _ (lib : TokenLibrary) (contracts : Contracts lib.Psp22Error) (ctx : Context)
    (R : Data → Data → Type 0) (w : Writes lib contracts ctx R) where
  abbrev Holds : {A : Type 0} → Message lib contracts A → Type 0
  Holds m = Steps (OnPool lib contracts R) m

  assert_manager-Holds : Holds (assert_manager lib contracts ctx)
  unfolding assert_manager
  assert_manager-Holds = search (pool_steps, w.pre) depth 40

  reduce_reserves_inner-Holds :
      (admin amount : ℕ) → Holds (reduce_reserves_inner lib contracts ctx admin amount)
  unfolding reduce_reserves_inner
  reduce_reserves_inner-Holds admin amount =
      search (pool_steps, w.pre, Steps-update, w.reserves) depth 40

  pub reduce_reserves-Holds : (amount : ℕ) → Holds (reduce_reserves lib contracts ctx amount)
  unfolding reduce_reserves
  reduce_reserves-Holds amount =
      Steps-then w.pre _ _ assert_manager-Holds
        (after_accrual lib contracts ctx R w (reduce_reserves_inner-Holds ctx.caller amount))

  pub sweep_token-Holds : (asset : ℕ) → Holds (sweep_token lib contracts ctx asset)
  unfolding sweep_token
  sweep_token-Holds asset = search (pool_steps, w.pre, assert_manager-Holds) depth 40

  approve_delegate_inner-Holds :
      (owner delegatee amount : ℕ)
      → Holds (approve_delegate_inner lib contracts ctx owner delegatee amount)
  unfolding approve_delegate_inner
  approve_delegate_inner-Holds owner delegatee amount =
      search (pool_steps, w.pre, Steps-update, w.delegations) depth 40

  pub approve_delegate-Holds :
      (delegatee amount : ℕ) → Holds (approve_delegate lib contracts ctx delegatee amount)
  unfolding approve_delegate
  approve_delegate-Holds delegatee amount =
      search (pool_steps, approve_delegate_inner-Holds) depth 40

  pub increase_delegate_allowance-Holds :
      (owner delegatee amount : ℕ)
      → Holds (increase_delegate_allowance lib contracts ctx owner delegatee amount)
  unfolding increase_delegate_allowance
  increase_delegate_allowance-Holds owner delegatee amount =
      search (pool_steps, w.pre, approve_delegate_inner-Holds) depth 40

  pub decrease_delegate_allowance-Holds :
      (owner delegatee amount : ℕ)
      → Holds (decrease_delegate_allowance lib contracts ctx owner delegatee amount)
  unfolding decrease_delegate_allowance
  decrease_delegate_allowance-Holds owner delegatee amount =
      search (pool_steps, w.pre, approve_delegate_inner-Holds) depth 40

  pub set_liquidation_threshold-Holds :
      (t : ℕ) → Holds (set_liquidation_threshold lib contracts ctx t)
  unfolding set_liquidation_threshold
  set_liquidation_threshold-Holds t = search (pool_steps, w.pre, Steps-update, w.threshold) depth 40

  pub set_incentives_controller-Holds :
      (c : ℕ) → Holds (set_incentives_controller lib contracts ctx c)
  unfolding set_incentives_controller
  set_incentives_controller-Holds c =
      search (pool_steps, w.pre, assert_manager-Holds, Steps-update, w.incentives) depth 40

  pub refused_by_contract-Holds : Holds (refused_by_contract lib contracts ctx)
  unfolding refused_by_contract
  refused_by_contract-Holds = search (pool_steps, w.pre) depth 40

  accrue_reward_or_fail-Holds : (user : ℕ) → Holds (accrue_reward_or_fail lib contracts ctx user)
  unfolding accrue_reward_or_fail
  accrue_reward_or_fail-Holds user = record {
    at = λ s b t e. (Steps-accrue_reward lib contracts ctx R w.pre user).at s b t (ground arith);
  }

  check_transfer-Holds :
      (src dst value : ℕ) → Holds (check_transfer lib contracts ctx src dst value)
  unfolding check_transfer
  check_transfer-Holds src dst value = search (pool_steps, w.pre) depth 40

  transfer_tokens-Holds :
      (spender src dst value : ℕ) → Holds (transfer_tokens lib contracts ctx spender src dst value)
  unfolding transfer_tokens
  transfer_tokens-Holds spender src dst value =
      search
        (
          pool_steps,
          w.pre,
          accrue_reward_or_fail-Holds,
          check_transfer-Holds,
          set_collateral_flag-Holds lib contracts ctx R w,
        )
        depth 40

  pub transfer-Holds : (receiver value : ℕ) → Holds (transfer lib contracts ctx receiver value)
  unfolding transfer
  transfer-Holds receiver value = search (pool_steps, transfer_tokens-Holds) depth 40

  pub transfer_from-Holds :
      (sender receiver value : ℕ) → Holds (transfer_from lib contracts ctx sender receiver value)
  unfolding transfer_from
  transfer_from-Holds sender receiver value = search (pool_steps, transfer_tokens-Holds) depth 40

  -- The bound is what the check before the write leaves.
  write_factor :
      (f : ℕ)
      → Holds (do
        throw_if (ltb reserve_factor_max_mantissa f) set_reserve_factor_bounds_check
        update lib contracts λ d. record d { reserve_factor_mantissa = f })
  write_factor f = elim (Bool-cases (ltb reserve_factor_max_mantissa f)) [
    | inl e ↦ record { at = λ s b t h. absurd (grind arith) }
    | inr e ↦
        Steps-then w.pre _ _ (Steps-throw_if w.pre _ _)
          (Steps-update lib contracts ctx R w.pre _ λ d. w.factor f d (ground arith))
  ]

  pub set_reserve_factor_mantissa-Holds :
      (f : ℕ) → Holds (set_reserve_factor_mantissa lib contracts ctx f)
  unfolding set_reserve_factor_mantissa
  set_reserve_factor_mantissa-Holds f = Steps-then w.pre _ _ assert_manager-Holds (
      after_accrual lib contracts ctx R w
        (Steps-then w.pre _ _ (Steps-assert_fresh lib contracts ctx R w.pre) (write_factor f)))

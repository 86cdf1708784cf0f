-- ===== src/Pool/Tests/Messages.antt =====
-- Runs of the pool's messages in a small world, for logics/impls/pool/mod.rs.
use starlay_protocol_wasm.Prelude.{
  ℕ, ◌+◌, ◌-◌, ◌≡◌, ◌≢◌, refl, arith, [], ◌∷◌, ◌==◌, if◌then◌else◌, insert, ok,
}
use starlay_protocol_wasm.Words.{u128_mod, u128_max, add128, sub128, as_u128}
use starlay_protocol_wasm.Math.Exp.{exp_scale, exp, to_ray}
use starlay_protocol_wasm.Math.WadRay.{ray_div, ray_mul}
use starlay_protocol_wasm.Pool.Errors.{Error}
use starlay_protocol_wasm.Pool.State.{State, Event}
use starlay_protocol_wasm.Pool.Scaled.{scaled_amount_of, from_scaled_amount}
use starlay_protocol_wasm.Pool.Views.{delegate_allowance, borrow_balance_stored, total_borrows}
use starlay_protocol_wasm.Pool.Environment.{Context}
use starlay_protocol_wasm.Pool.Accrual.{
  accrue_interest, accrue_interest_at, accrue_reward, assert_fresh, transfer_underlying_from,
}
use starlay_protocol_wasm.Pool.Lending.{increase_debt, repay_borrow_inner, repay_borrow}
use starlay_protocol_wasm.Pool.Delegation.{increase_delegate_allowance}
use starlay_protocol_wasm.Pool.Calls.{Call, run, History}
use starlay_protocol_wasm.Pool.Ledger.{debt}
use starlay_protocol_wasm.Pool.Invariants.{Onward, History-Onward}
use starlay_protocol_wasm.Pool.Guards.{increase_delegate_allowance_any_caller}
use starlay_protocol_wasm.Pool.Overpayment.{repay_borrow_inner_beyond_debt}
use starlay_protocol_wasm.Pool.Repayment.{moved, repay_borrow_inner-moves}
use starlay_protocol_wasm.Pool.Tests.World.{lib, contracts, ctx, pool_data, state}

-- Account 5 owes 500 and has repaid some of it, or more than it.
abbrev repaid : ℕ → ℕ → State lib contracts
repaid amount left = record state {
  pool = record pool_data {
    account_borrows = insert pool_data.account_borrows 5 left;
    borrows_scaled = left;
  };
  events = Event.repay_borrow 5 5 amount left left ∷ [];
}

repay_run : repay_borrow_inner lib contracts ctx 5 5 100 state ≡ ok (100, repaid 100 400)
unfolding repay_borrow_inner accrue_reward assert_fresh transfer_underlying_from
    borrow_balance_stored total_borrows increase_debt scaled_amount_of from_scaled_amount to_ray
    ray_div ray_mul as_u128 sub128
repay_run = refl

overpay_run :
    repay_borrow_inner lib contracts ctx 5 5 700 state ≡ ok (700, repaid 700 (u128_mod - 200))
unfolding repay_borrow_inner accrue_reward assert_fresh transfer_underlying_from
    borrow_balance_stored total_borrows increase_debt scaled_amount_of from_scaled_amount to_ray
    ray_div ray_mul as_u128 sub128
overpay_run = refl

repay-History : History lib contracts state (repaid 100 400)
unfolding run repay_borrow accrue_interest accrue_interest_at repay_borrow_inner accrue_reward
    assert_fresh transfer_underlying_from borrow_balance_stored total_borrows increase_debt
    scaled_amount_of from_scaled_amount to_ray ray_div ray_mul as_u128 sub128
repay-History = History.called ctx (Call.repay_borrow 100) History.here refl

History-Onward_example : Onward pool_data (repaid 100 400).pool
History-Onward_example = History-Onward lib contracts repay-History

repay_borrow_inner-moves_example :
    (n : ℕ) × (scaled_amount_of {E = Error lib.Psp22Error} 100 (exp exp_scale) ≡ ok n)
    × ((repaid 100 400).pool ≡ moved pool_data 5 sub128 n)
    × (2000 ≡ ctx.block_timestamp)
    × (100 ≢ u128_max → ◌≡◌ {A = ℕ} 100 100)
repay_borrow_inner-moves_example =
    repay_borrow_inner-moves lib contracts ctx 5 5 100 state (repaid 100 400) 100 repay_run

repay_borrow_inner_beyond_debt_example :
    (t : State lib contracts) × (repay_borrow_inner lib contracts ctx 5 5 700 state ≡ ok (700, t))
    × (debt t.pool.account_borrows 5 ≡ u128_mod + 500 - 700)
unfolding accrue_reward borrow_balance_stored total_borrows scaled_amount_of from_scaled_amount
    to_ray ray_div ray_mul as_u128
repay_borrow_inner_beyond_debt_example =
    repay_borrow_inner_beyond_debt lib contracts ctx 5 5 700 state
      (record {
        first = tt;
        second = tt;
        third = tt;
        rewards_borrower = refl;
        rewards_payer = refl;
        controller = 30;
        controller_set = refl;
        consents = refl;
        fresh = refl;
        owed = 500;
        owed_is = refl;
        token = 20;
        token_set = refl;
        pays = refl;
        borrows = 500;
        borrows_are = refl;
        scaled = 700;
        scaled_is = refl;
      })
      (λ e. absurd (omega arith)) (omega arith) (omega arith)

-- Ten seconds later an accrual raises the index.
abbrev later : Context
later = record ctx { block_timestamp = 12000 }

abbrev accrued : State lib contracts
accrued = record state {
  pool = record pool_data { accrual_block_timestamp = 12000; borrow_index = 1000010000049995166 };
}

abbrev approved : State lib contracts
approved = record state {
  pool = record pool_data {
    delegate_allowance = λ o.
        if o == 5
        then insert (pool_data.delegate_allowance o) 6 100
        else pool_data.delegate_allowance o;
  };
  events = Event.delegate_approval 5 6 100 ∷ [];
}

increase_delegate_allowance_any_caller_example :
    (t : State lib contracts) × (increase_delegate_allowance lib contracts ctx 6 5 100 state
      ≡ ok (tt, t))
    × (delegate_allowance t.pool 6 5 ≡ add128 (delegate_allowance pool_data 6 5) 100)
increase_delegate_allowance_any_caller_example =
    increase_delegate_allowance_any_caller lib contracts ctx state 6 5 100
      (λ e. absurd (omega arith)) (λ e. absurd (omega arith))

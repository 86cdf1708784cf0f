-- ===== src/Pool/Tests/Loans.antt =====
-- A run of a loan in a small world, for logics/impls/pool/mod.rs.
use starlay_protocol_wasm.Prelude.{ℕ, ◌≡◌, refl, true, ◌∷◌, [], insert, ok}
use starlay_protocol_wasm.Words.{add128, as_u128}
use starlay_protocol_wasm.Math.Exp.{exp_scale, exp, to_ray}
use starlay_protocol_wasm.Math.WadRay.{ray_div, ray_mul}
use starlay_protocol_wasm.Pool.Errors.{Error}
use starlay_protocol_wasm.Pool.State.{State, Event}
use starlay_protocol_wasm.Pool.Scaled.{scaled_amount_of, from_scaled_amount}
use starlay_protocol_wasm.Pool.Exchange.{exchange_rate}
use starlay_protocol_wasm.Pool.Views.{
  using_reserve_as_collateral, get_account_snapshot, exchange_rate_stored, pool_attributes,
  get_cash_prior, borrow_balance_stored, total_borrows, total_reserves,
}
use starlay_protocol_wasm.Pool.Accrual.{accrue_reward, assert_fresh, transfer_underlying}
use starlay_protocol_wasm.Pool.Lending.{consent_to_borrow, borrow_inner, increase_debt}
use starlay_protocol_wasm.Pool.Repayment.{moved}
use starlay_protocol_wasm.Pool.Loan.{borrow_inner-moves}
use starlay_protocol_wasm.Pool.Tests.World.{lib, contracts, ctx, pool_data, state}

-- Account 5 owes 500 and has borrowed 200 more.
abbrev borrowed : State lib contracts
borrowed = record state {
  pool = record pool_data {
    account_borrows = insert pool_data.account_borrows 5 700;
    borrows_scaled = 700;
  };
  events = Event.borrow 5 200 700 700 ∷ [];
}

borrow_inner-moves_example :
    (n : ℕ) × (scaled_amount_of {E = Error lib.Psp22Error} 200 (exp exp_scale) ≡ ok n)
    × (borrowed.pool ≡ moved pool_data 5 add128 n)
    × (pool_data.accrual_block_timestamp ≡ ctx.block_timestamp)
unfolding borrow_inner consent_to_borrow accrue_reward get_account_snapshot
    using_reserve_as_collateral exchange_rate_stored exchange_rate pool_attributes assert_fresh
    get_cash_prior transfer_underlying borrow_balance_stored total_borrows total_reserves
    increase_debt scaled_amount_of from_scaled_amount to_ray ray_div ray_mul as_u128 add128
borrow_inner-moves_example = borrow_inner-moves lib contracts ctx 5 200 true state borrowed refl

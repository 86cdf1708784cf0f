-- ===== src/Pool/Tests/Accruals.antt =====
-- An accrual of interest in a pool with a reserve factor of 10 %, for logics/impls/pool/mod.rs.
use starlay_protocol_wasm.Prelude.{ℕ, ◌+◌, ◌*◌, ◌/◌, ◌≤◌, ◌≡◌, refl, arith}
use starlay_protocol_wasm.Words.{add128, sub128, add256, sub256, mul256, div256, as_u128}
use starlay_protocol_wasm.Math.Exp.{
  exp_scale, to_ray, truncate, mul_scalar_truncate, mul_scalar_truncate_add_uint,
}
use starlay_protocol_wasm.Math.WadRay.{ray_mul}
use starlay_protocol_wasm.Pool.State.{State}
use starlay_protocol_wasm.Pool.Scaled.{from_scaled_amount}
use starlay_protocol_wasm.Pool.Interest.{
  CalculateInterestOutput, calculate_interest, compound_interest,
}
use starlay_protocol_wasm.Pool.Views.{
  total_borrows, total_reserves, get_cash_prior, get_interest_at,
}
use starlay_protocol_wasm.Pool.Accrual.{accrue_interest_at}
use starlay_protocol_wasm.Pool.Exchange.{exchange_rate}
use starlay_protocol_wasm.Pool.Exchange.Growth.{accrual_keeps_rate}
use starlay_protocol_wasm.Pool.Views.{exchange_rate_stored}
use starlay_protocol_wasm.Pool.Accrual.Laws.{accrue_interest_at_keeps_no_reserves}
use starlay_protocol_wasm.Pool.Tests.World.{lib, contracts, ctx, pool_data, state}

abbrev lending : State lib contracts
lending = record state {
  pool = record pool_data {
    borrows_scaled = 10000000000;
    reserve_factor_mantissa = exp_scale / 10;
  };
}

abbrev interest : CalculateInterestOutput
interest = record {
  borrow_index = 1000010000049995166;
  total_borrows = 10000100000;
  total_reserves = 10000;
  interest_accumulated = 100000;
}

abbrev accrued : State lib contracts
accrued = record lending {
  pool = record lending.pool {
    accrual_block_timestamp = 12000;
    borrow_index = 1000010000049995166;
  };
}

accrue_interest_at_keeps_no_reserves_example :
    (interest.total_reserves ≡ lending.pool.reserve_factor_mantissa * 100000 / exp_scale)
    × (◌≡◌ {A = ℕ} 0 0)
unfolding accrue_interest_at get_interest_at total_borrows total_reserves from_scaled_amount
    calculate_interest compound_interest to_ray ray_mul truncate mul_scalar_truncate
    mul_scalar_truncate_add_uint add128 sub128 add256 sub256 mul256 div256 as_u128 get_cash_prior
accrue_interest_at_keeps_no_reserves_example =
    accrue_interest_at_keeps_no_reserves lib contracts ctx 12000 10000000000 0 0 lending accrued
      refl refl refl refl (omega arith) refl refl

-- With some reserves and tokens.
abbrev shared : State lib contracts
shared = record lending {
  pool = record lending.pool { reserves_scaled = 100 };
  token = record { total = 5000000000; balances = λ u. 0 };
}

abbrev grown : State lib contracts
grown = record shared {
  pool = record shared.pool { accrual_block_timestamp = 12000; borrow_index = 1000010000049995166 };
}

accrual_keeps_rate_example : 2000199980000000000 ≤ 2000219980000000000 + exp_scale / 5000000000 + 1
unfolding accrue_interest_at get_interest_at exchange_rate_stored exchange_rate total_borrows
    total_reserves from_scaled_amount calculate_interest compound_interest to_ray ray_mul truncate
    mul_scalar_truncate mul_scalar_truncate_add_uint add128 sub128 add256 sub256 mul256 div256
    as_u128 get_cash_prior
accrual_keeps_rate_example =
    accrual_keeps_rate lib contracts ctx 12000 2000199980000000000 2000219980000000000 10000100000
      shared grown (omega arith) (omega arith) refl refl (omega arith) refl refl

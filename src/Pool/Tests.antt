-- ===== src/Pool/Tests.antt =====
-- Runs of the pool's arithmetic at concrete numbers, for logics/impls/pool/utils.rs.
pub mod World
mod Messages
mod Loans
mod Governed
pub mod Deployment
pub mod Tokens
mod Seizures
mod Liquidations
mod Rated
mod Accruals
use starlay_protocol_wasm.Prelude.{◌+◌, ◌-◌, ◌*◌, ◌/◌, ◌^◌, ◌≤◌, ◌<◌, ◌≡◌, ◌↔◌, refl, arith}
use starlay_protocol_wasm.Words.{as_u128}
use starlay_protocol_wasm.Math.Exp.{exp_scale, to_ray}
use starlay_protocol_wasm.Math.WadRay.{ray_mul, ray_div}
use starlay_protocol_wasm.Pool.Scaled.{scaled_amount_of, from_scaled_amount}
use starlay_protocol_wasm.Pool.Scaled.RoundTrip.{from_scaled_amount-scaled_amount_of}
use starlay_protocol_wasm.Pool.Exchange.{exchange_rate}
use starlay_protocol_wasm.Pool.Exchange.Laws.{exchange_rate_solvent}

from_scaled_amount-scaled_amount_of_example :
    (2 * exp_scale * 999 ≤ 2 * exp_scale * 1000 + (3 * exp_scale + exp_scale))
    × (2 * exp_scale * 1000 ≤ 2 * exp_scale * 999 + (3 * exp_scale + exp_scale))
unfolding scaled_amount_of from_scaled_amount to_ray ray_div ray_mul as_u128
from_scaled_amount-scaled_amount_of_example =
    from_scaled_amount-scaled_amount_of {E = Unit {0}} 1000 (3 * exp_scale) {s = 333} {b = 999} refl
      refl

exchange_rate_solvent_example : 1300 ≤ 500 + 1000 - 200
unfolding exchange_rate from_scaled_amount to_ray ray_mul as_u128
exchange_rate_solvent_example =
    exchange_rate_solvent {E = Unit {0}} 650 500 1000 200 exp_scale (omega arith) (omega arith) refl
      refl

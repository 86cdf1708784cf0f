-- ===== src/Pool/Scaled.antt =====
-- Balances kept relative to an index, logics/impls/pool/utils.rs.
pub mod RoundTrip
use starlay_protocol_wasm.Prelude.{ℕ, Outcome, ◌>>=◌, unwrap}
use starlay_protocol_wasm.Words.{as_u128}
use starlay_protocol_wasm.Math.Exp.{Exp, ray, to_ray}
use starlay_protocol_wasm.Math.WadRay.{ray_mul, ray_div}

module _ {E : Type 0} where
  unfoldable pub scaled_amount_of : ℕ → Exp → Outcome E ℕ
  scaled_amount_of amount idx = do
    i ← to_ray idx
    divided ← unwrap (ray_div (ray amount) i)
    as_u128 divided.mantissa

  unfoldable pub from_scaled_amount : ℕ → Exp → Outcome E ℕ
  from_scaled_amount scaled_amount idx = do
    i ← to_ray idx
    multiplied ← unwrap (ray_mul i (ray scaled_amount))
    as_u128 multiplied.mantissa

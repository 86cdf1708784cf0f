-- ===== src/Pool/Exchange/Laws.antt =====
-- The laws of the exchange rate and of the split of seized tokens, logics/impls/pool/utils.rs.
use starlay_protocol_wasm.Prelude.{
  ℕ, ◌+◌, ◌-◌, ◌*◌, ◌/◌, ◌≤◌, ◌<◌, ◌≡◌, ◌⊎◌, inl, inr, refl, zero, suc, arith, ok,
}
use native.Mathlib.Nat.{div-mul-le_self}
use starlay_protocol_wasm.Words.{add128_exact, sub128_exact, u128_mod}
use starlay_protocol_wasm.Math.Exp.{exp_scale, Exp, exp, mul_scalar_truncate, exp_ray_ratio}
use starlay_protocol_wasm.Pool.Exchange.{exchange_rate, protocol_seize_amount}
use starlay_protocol_wasm.Pool.Scaled.{from_scaled_amount}
use starlay_protocol_wasm.Pool.Scaled.RoundTrip.{from_scaled_amount-IsNearest}

-- Seized tokens are split between the liquidator and the protocol with none lost: the protocol gets
-- its share rounded down and the liquidator the rest. The protocol's amount is what its tokens are
-- worth at the exchange rate, rounded down.
pub protocol_seize_amount_splits :
    {E : Type 0} (rate : Exp) (seize share : ℕ) {l a t : ℕ}
    → protocol_seize_amount {E = E} rate seize share ≡ ok (l, a, t)
    → (l + t ≡ seize)
      × (t * exp_scale ≤ seize * share)
      × (seize * share < (t + 1) * exp_scale)
      × (a * exp_scale ≤ rate.mantissa * t)
      × (rate.mantissa * t < (a + 1) * exp_scale)
unfolding protocol_seize_amount mul_scalar_truncate
protocol_seize_amount_splits rate seize share e = ground arith

zero_or_pos : (n : ℕ) → (n ≡ 0) ⊎ (0 < n)
zero_or_pos zero = inl refl
zero_or_pos (suc n) = inr (omega arith)

pub exchange_rate_value :
    {E : Type 0} (supply cash borrows reserves initial : ℕ)
    → 0 < supply
    → cash + borrows < u128_mod
    → reserves ≤ cash + borrows
    → exchange_rate {E = E} supply cash borrows reserves initial
      ≡ ok ((cash + borrows - reserves) * exp_scale / supply)
unfolding exchange_rate
exchange_rate_value supply cash borrows reserves initial h k l =
    ground (arith, add128_exact cash borrows k, sub128_exact (cash + borrows) reserves l)

-- Solvency of the exchange rate: while cash and debt cover the reserves, and fit together in 128 bits, all
-- pool tokens together, valued at the exchange rate, are worth at most what is left after the reserves.
pub exchange_rate_solvent :
    {E : Type 0} (supply cash borrows reserves initial : ℕ) {r v : ℕ}
    → cash + borrows < u128_mod
    → reserves ≤ cash + borrows
    → exchange_rate {E = E} supply cash borrows reserves initial ≡ ok r
    → from_scaled_amount {E = E} supply (exp r) ≡ ok v
    → v ≤ cash + borrows - reserves
exchange_rate_solvent {E} supply cash borrows reserves initial {r} {v} k l e f =
    let n = (cash + borrows - reserves) * exp_scale in
    let near = from_scaled_amount-IsNearest supply r f in
    let product : r * exp_ray_ratio * supply ≡ exp_ray_ratio * (r * supply) = grind arith in
    elim (zero_or_pos supply) [
      | inl none ↦ let nothing : r * supply ≡ 0 = rw none (omega arith) in omega arith
      | inr some ↦
          let value = exchange_rate_value {E = E} supply cash borrows reserves initial some k l in
          let rate : r ≡ n / supply = ground arith in
          let covered : r * supply ≤ n = rw rate (div-mul-le_self n supply) in omega arith
    ]

-- ===== src/Pool/Exchange.antt =====
-- The exchange rate of pool tokens and the split of seized tokens, logics/impls/pool/utils.rs.
pub mod Laws
pub mod Growth
use starlay_protocol_wasm.Prelude.{ℕ, ◌*◌, ◌/◌, ◌^◌, ◌==◌, if◌then◌else◌, Outcome, ok, ◌>>=◌}
use starlay_protocol_wasm.Words.{add128, sub128, sub256, mul256, div256, as_u128}
use starlay_protocol_wasm.Math.Exp.{exp_scale, Exp, exp, truncate, mul_scalar_truncate}

abbrev pub protocol_seize_share_mantissa : ℕ
protocol_seize_share_mantissa = exp_scale * 28 / (10 * 100)

module _ {E : Type 0} where
  -- The liquidator's tokens, the protocol's amount of underlying and the protocol's tokens.
  unfoldable pub protocol_seize_amount : Exp → ℕ → ℕ → Outcome E (ℕ × ℕ × ℕ)
  unfolding sub256 mul256 as_u128 truncate
  protocol_seize_amount exchange_rate seize_tokens share = do
    p ← mul256 seize_tokens share
    protocol_seize_tokens ← truncate (exp p)
    liquidator_seize_tokens ← sub256 seize_tokens protocol_seize_tokens
    l ← as_u128 liquidator_seize_tokens
    a ← mul_scalar_truncate exchange_rate protocol_seize_tokens
    amount ← as_u128 a
    t ← as_u128 protocol_seize_tokens
    ok (l, amount, t)

  unfoldable pub exchange_rate :
      (total_supply total_cash total_borrows total_reserves default_mantissa : ℕ) → Outcome E ℕ
  unfolding mul256 div256 add128 sub128
  exchange_rate total_supply total_cash total_borrows total_reserves default_mantissa =
      if total_supply == 0 then ok default_mantissa else do
        let cash_plus_borrows_minus_reserves =
            sub128 (add128 total_cash total_borrows) total_reserves
        n ← mul256 cash_plus_borrows_minus_reserves exp_scale
        div256 n total_supply

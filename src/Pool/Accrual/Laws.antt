-- ===== src/Pool/Accrual/Laws.antt =====
-- What an accrual of interest writes, and what it leaves out, `_accrue_interest_at` of
-- logics/impls/pool/mod.rs.
use starlay_protocol_wasm.Prelude.{
  ℕ, ◌+◌, ◌*◌, ◌/◌, ◌<◌, ◌≡◌, ◌⊎◌, inl, inr, sym, ap, ◌∙◌, arith, ok, ok-injective, >>=-elim, ok_or,
  unwrap,
}
use starlay_protocol_wasm.Math.Exp.{exp_scale, exp_ray_ratio}
use starlay_protocol_wasm.Words.{u128_mod}
use starlay_protocol_wasm.Pool.Errors.{Error, interest_rate_model_is_not_set}
use starlay_protocol_wasm.Pool.Environment.{TokenLibrary, Contracts, Context}
use starlay_protocol_wasm.Pool.State.{State}
use starlay_protocol_wasm.Pool.Interest.{CalculateInterestOutput}
use starlay_protocol_wasm.Pool.Interest.Growth.{calculate_interest_grows}
use starlay_protocol_wasm.Pool.Scaled.RoundTrip.{from_scaled_amount-IsNearest}
use starlay_protocol_wasm.Pool.Views.{
  total_borrows, total_reserves, get_interest_at, get_cash_prior,
}
use starlay_protocol_wasm.Pool.Accrual.{accrue_interest_at}

module _ (lib : TokenLibrary) (contracts : Contracts lib.Psp22Error) (ctx : Context) where
  -- An accrual that succeeds leaves the state as it was, or writes the time and the index that were computed,
  -- and nothing else.
  pub accrue_interest_at-eq-ok :
      (at : ℕ) (s : State lib contracts) {t : State lib contracts} {x : Unit {0}}
      → accrue_interest_at lib contracts ctx at s ≡ ok (x, t)
      → (t ≡ s)
        ⊎ ((out : CalculateInterestOutput) × (get_interest_at lib contracts ctx s at ≡ ok out)
            × (t ≡ record s {
              pool = record s.pool {
                accrual_block_timestamp = at;
                borrow_index = out.borrow_index;
              };
            }))
  unfolding accrue_interest_at
  accrue_interest_at-eq-ok at s e = ground arith

  -- The interest of an accrual is that of `calculate_interest` at the totals of the storage.
  interest-reserves :
      (at : ℕ) (s : State lib contracts) {borrows reserves : ℕ} {out : CalculateInterestOutput}
      → total_borrows {E = Error lib.Psp22Error} s.pool ≡ ok borrows
      → total_reserves {E = Error lib.Psp22Error} s.pool ≡ ok reserves
      → get_interest_at lib contracts ctx s at ≡ ok out
      → out.interest_accumulated + borrows < u128_mod
      → out.total_reserves
        ≡ reserves + s.pool.reserve_factor_mantissa * out.interest_accumulated / exp_scale
  unfolding get_interest_at
  interest-reserves at s {borrows} {reserves} {out} eb er e fits =
      >>=-elim (total_borrows {E = Error lib.Psp22Error} s.pool) _ e λ b eb' e1.
        >>=-elim (total_reserves {E = Error lib.Psp22Error} s.pool) _ e1 λ r er' e2.
          >>=-elim (ok_or s.pool.rate_model interest_rate_model_is_not_set) _ e2 λ model _ e3.
            >>=-elim
              (unwrap
                (contracts.get_borrow_rate s.world model (get_cash_prior lib contracts ctx s) b r))
              _ e3
              λ rate _ e4.
                let same_b : b ≡ borrows = ok-injective (sym eb' ∙ eb) in
                let same_r : r ≡ reserves = ok-injective (sym er' ∙ er) in
                let grown =
                  calculate_interest_grows
                    (record {
                      total_borrows = b;
                      total_reserves = r;
                      borrow_index = s.pool.borrow_index;
                      borrow_rate = rate;
                      old_block_timestamp = s.pool.accrual_block_timestamp;
                      new_block_timestamp = at;
                      reserve_factor_mantissa = s.pool.reserve_factor_mantissa;
                    })
                    e4 (omega (arith, same_b, fits)) in
                rw same_r at grown.3

  no_reserves :
      (s : State lib contracts) {r : ℕ}
      → s.pool.reserves_scaled ≡ 0
      → total_reserves {E = Error lib.Psp22Error} s.pool ≡ ok r
      → r ≡ 0
  unfolding total_reserves
  no_reserves s {r} none_yet e =
      let near = from_scaled_amount-IsNearest s.pool.reserves_scaled s.pool.borrow_index e in
      let nothing : s.pool.borrow_index * exp_ray_ratio * s.pool.reserves_scaled ≡ 0 =
        rw none_yet (omega arith) in
      omega arith

  -- The share of the interest that the reserve factor sets aside never reaches the reserves. In a pool
  -- without reserves the computation of an accrual puts that share into its reserves, for sums
  -- that fit in 128 bits; behind the accrual the pool's reserves are still zero.
  pub accrue_interest_at_keeps_no_reserves :
      (at borrows reserves after : ℕ) (s t : State lib contracts) {out : CalculateInterestOutput}
      → s.pool.reserves_scaled ≡ 0
      → total_borrows {E = Error lib.Psp22Error} s.pool ≡ ok borrows
      → total_reserves {E = Error lib.Psp22Error} s.pool ≡ ok reserves
      → get_interest_at lib contracts ctx s at ≡ ok out
      → out.interest_accumulated + borrows < u128_mod
      → accrue_interest_at lib contracts ctx at s ≡ ok (tt, t)
      → total_reserves {E = Error lib.Psp22Error} t.pool ≡ ok after
      → (out.total_reserves ≡ s.pool.reserve_factor_mantissa * out.interest_accumulated / exp_scale)
        × (after ≡ 0)
  accrue_interest_at_keeps_no_reserves at borrows reserves after s t none_yet eb er e fits h ea =
      let unwritten : t.pool.reserves_scaled ≡ s.pool.reserves_scaled =
        elim (accrue_interest_at-eq-ok at s h) [
          | inl same ↦ ap (λ u. u.pool.reserves_scaled) same
          | inr (_, _, written) ↦ ap (λ u. u.pool.reserves_scaled) written
        ] in
      (
        omega (arith, no_reserves s none_yet er, interest-reserves at s eb er e fits),
        no_reserves t (unwritten ∙ none_yet) ea,
      )

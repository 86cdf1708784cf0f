-- ===== src/Pool/Exchange/Growth.antt =====
-- What an accrual of interest does to the exchange rate that a pool stores, logics/impls/pool/mod.rs.
use starlay_protocol_wasm.Prelude.{
  ℕ, ◌+◌, ◌-◌, ◌*◌, ◌/◌, ◌≤◌, ◌<◌, ◌≡◌, refl, sym, ◌∙◌, arith, inl, inr, ok, ◌==◌, Bool-cases,
  ok-injective, >>=-elim,
}
use native.Mathlib.Nat.{div-lt_iff_lt-mul}
use starlay_protocol_wasm.Math.Rounding.{IsNearest, lt_of_div-lt}
use starlay_protocol_wasm.Words.{u128_mod, div_le}
use starlay_protocol_wasm.Math.Exp.{exp_scale, exp_ray_ratio}
use starlay_protocol_wasm.Math.WadRay.{ray_scale}
use starlay_protocol_wasm.Pool.Errors.{Error}
use starlay_protocol_wasm.Pool.Environment.{TokenLibrary, Contracts, Context}
use starlay_protocol_wasm.Pool.State.{Data, State}
use starlay_protocol_wasm.Pool.Scaled.RoundTrip.{from_scaled_amount-IsNearest}
use starlay_protocol_wasm.Pool.Exchange.{exchange_rate}
use starlay_protocol_wasm.Pool.Exchange.Laws.{exchange_rate_value}
use starlay_protocol_wasm.Pool.Views.{
  total_borrows, total_reserves, get_cash_prior, exchange_rate_stored,
}
use starlay_protocol_wasm.Pool.Accrual.{accrue_interest_at}
use starlay_protocol_wasm.Pool.Accrual.Laws.{accrue_interest_at-eq-ok}
use starlay_protocol_wasm.Pool.Invariants.{get_interest_at-grows}

-- A division loses at most one when its sum is split.
add_div-le : (a b d : ℕ) → 0 < d → (a + b) / d ≤ a / d + b / d + 1
add_div-le a b d h =
    let one : a < (a / d + 1) * d = lt_of_div-lt a d (a / d + 1) h (omega arith) in
    let two : b < (b / d + 1) * d = lt_of_div-lt b d (b / d + 1) h (omega arith) in
    let both : (a / d + b / d + 2) * d ≡ (a / d + 1) * d + (b / d + 1) * d = grind arith in
    let less : (a + b) / d < a / d + b / d + 2 = (div-lt_iff_lt-mul h).1 (omega arith) in
    omega arith

split_surplus : (r x i y : ℕ) → i * (r + x) + (i + y) * r ≤ (i + y) * (r + x) + i * r
split_surplus r x i y = grind arith

surplus_grows : (r b i j : ℕ) → r ≤ b → i ≤ j → i * b + j * r ≤ j * b + i * r
surplus_grows r b i j h k =
    let b_is : b ≡ r + (b - r) = omega arith in
    let j_is : j ≡ i + (j - i) = omega arith in rw (b_is, j_is) (split_surplus r (b - r) i (j - i))

-- Two scaled balances, the first covered by the second, before and behind a growth of the index: rounded to
-- whole units, the second's surplus shrinks by at most one unit.
surplus-le :
    (r b i j : ℕ) {x y x' y' : ℕ}
    → r ≤ b
    → i ≤ j
    → IsNearest (i * exp_ray_ratio * r) ray_scale x
    → IsNearest (i * exp_ray_ratio * b) ray_scale y
    → IsNearest (j * exp_ray_ratio * r) ray_scale x'
    → IsNearest (j * exp_ray_ratio * b) ray_scale y'
    → (x ≤ y) × (x' ≤ y') × (y ≤ y') × (y + x' ≤ y' + x + 1)
surplus-le r b i j covered grows nx ny nx' ny' =
    let p : i * exp_ray_ratio * r ≤ i * exp_ray_ratio * b = grind arith in
    let q : j * exp_ray_ratio * r ≤ j * exp_ray_ratio * b = grind arith in
    let u : i * exp_ray_ratio * b ≤ j * exp_ray_ratio * b = grind arith in
    let v : i * exp_ray_ratio * b + j * exp_ray_ratio * r
        ≤ j * exp_ray_ratio * b + i * exp_ray_ratio * r =
      surplus_grows r b (i * exp_ray_ratio) (j * exp_ray_ratio) covered (omega arith) in
    (omega arith, omega arith, omega arith, omega arith)

total_borrows-IsNearest :
    {E : Type 0} (d : Data) {n : ℕ}
    → total_borrows {E = E} d ≡ ok n
    → IsNearest (d.borrow_index * exp_ray_ratio * d.borrows_scaled) ray_scale n
unfolding total_borrows
total_borrows-IsNearest {E} d {n} e = elim (Bool-cases (d.borrows_scaled == 0)) [
  | inl none ↦
      let no_debt : d.borrows_scaled ≡ 0 = ground arith in
      let zero_is : 0 ≡ n = ok-injective (rw none at e) in
      rw (no_debt, sym zero_is) (omega arith, omega arith)
  | inr some ↦
      (from_scaled_amount-IsNearest {E = E} d.borrows_scaled d.borrow_index (rw some at e)).1
]

total_reserves-IsNearest :
    {E : Type 0} (d : Data) {n : ℕ}
    → total_reserves {E = E} d ≡ ok n
    → IsNearest (d.borrow_index * exp_ray_ratio * d.reserves_scaled) ray_scale n
unfolding total_reserves
total_reserves-IsNearest d e = (from_scaled_amount-IsNearest d.reserves_scaled d.borrow_index e).1

-- A rate is a share of a surplus, and one unit less lowers it by one unit's share.
rate-le :
    (x y s : ℕ) → 0 < s → x ≤ y + 1 → x * exp_scale / s ≤ y * exp_scale / s + exp_scale / s + 1
rate-le x y s h k =
    let up = div_le (x * exp_scale) (y * exp_scale + exp_scale) s (omega arith) in
    let split = add_div-le (y * exp_scale) exp_scale s h in omega arith

module _ (lib : TokenLibrary) (contracts : Contracts lib.Psp22Error) (ctx : Context) where
  -- The sums that a stored exchange rate is computed from, and its value.
  record Stored (s : State lib contracts) (rate : ℕ) : Type 0 where
    pub borrows : ℕ
    pub reserves : ℕ
    pub borrows_are : total_borrows {E = Error lib.Psp22Error} s.pool ≡ ok borrows
    pub reserves_are : total_reserves {E = Error lib.Psp22Error} s.pool ≡ ok reserves
    pub computed :
        exchange_rate {E = Error lib.Psp22Error}
          (lib.supply s.token)
          (get_cash_prior lib contracts ctx s)
          borrows
          reserves
          s.pool.initial_exchange_rate_mantissa
        ≡ ok rate

  exchange_rate_stored-Stored :
      (s : State lib contracts) {rate : ℕ}
      → exchange_rate_stored lib contracts ctx {E = Error lib.Psp22Error} s ≡ ok rate
      → Stored s rate
  unfolding exchange_rate_stored
  exchange_rate_stored-Stored s e = >>=-elim (total_borrows s.pool) _ e λ borrows eb e1.
      >>=-elim (total_reserves s.pool) _ e1 λ reserves er e2. record {
        borrows = borrows;
        reserves = reserves;
        borrows_are = eb;
        reserves_are = er;
        computed = e2;
      }

  -- What an accrual leaves of the numbers behind the exchange rate.
  record Grown (s t : State lib contracts) : Type 0 where
    pub borrows_kept : t.pool.borrows_scaled ≡ s.pool.borrows_scaled
    pub reserves_kept : t.pool.reserves_scaled ≡ s.pool.reserves_scaled
    pub index : s.pool.borrow_index ≤ t.pool.borrow_index
    pub supply : lib.supply t.token ≡ lib.supply s.token
    pub cash : get_cash_prior lib contracts ctx t ≡ get_cash_prior lib contracts ctx s

  accrue_interest_at-Grown :
      (at : ℕ) (s t : State lib contracts)
      → accrue_interest_at lib contracts ctx at s ≡ ok (tt, t)
      → Grown s t
  unfolding get_cash_prior
  accrue_interest_at-Grown at s t e = elim (accrue_interest_at-eq-ok lib contracts ctx at s e) [
    | inl same ↦ rw same (record {
      borrows_kept = refl;
      reserves_kept = refl;
      index = omega arith;
      supply = refl;
      cash = refl;
    })
    | inr (out, eo, written) ↦ rw written (record {
      borrows_kept = refl;
      reserves_kept = refl;
      index = get_interest_at-grows lib contracts ctx s at eo;
      supply = refl;
      cash = refl;
    })
  ]

  -- An accrual of interest hardly lowers the exchange rate that the pool stores. In a pool with tokens in
  -- circulation, whose scaled debts cover its scaled reserves, the rate behind a successful accrual is lower at most
  -- by one more than the share of a pool token in a single unit of the underlying token, which is what rounding
  -- the two totals may cost. The rate can be computed before and behind the accrual, and the cash and the new
  -- debts fit together in 128 bits.
  pub accrual_keeps_rate :
      (at rate rate' borrows' : ℕ) (s t : State lib contracts)
      → s.pool.reserves_scaled ≤ s.pool.borrows_scaled
      → 0 < lib.supply s.token
      → accrue_interest_at lib contracts ctx at s ≡ ok (tt, t)
      → total_borrows {E = Error lib.Psp22Error} t.pool ≡ ok borrows'
      → get_cash_prior lib contracts ctx s + borrows' < u128_mod
      → exchange_rate_stored lib contracts ctx {E = Error lib.Psp22Error} s ≡ ok rate
      → exchange_rate_stored lib contracts ctx {E = Error lib.Psp22Error} t ≡ ok rate'
      → rate ≤ rate' + exp_scale / lib.supply s.token + 1
  accrual_keeps_rate at rate rate' borrows' s t covered tokens accrued eb fits e e' =
      let g = accrue_interest_at-Grown at s t accrued in
      let a = exchange_rate_stored-Stored s e in
      let b = exchange_rate_stored-Stored t e' in
      let supply = lib.supply s.token in
      let cash = get_cash_prior lib contracts ctx s in
      let same_debts : b.borrows ≡ borrows' = ok-injective (sym b.borrows_are ∙ eb) in
      let (small, small', more, kept) =
        surplus-le s.pool.reserves_scaled s.pool.borrows_scaled s.pool.borrow_index
          t.pool.borrow_index covered g.index (total_reserves-IsNearest s.pool a.reserves_are)
          (total_borrows-IsNearest s.pool a.borrows_are)
          (rw g.reserves_kept at (total_reserves-IsNearest t.pool b.reserves_are))
          (rw g.borrows_kept at (total_borrows-IsNearest t.pool b.borrows_are)) in
      let before : (cash + a.borrows - a.reserves) * exp_scale / supply ≡ rate = ok-injective (
        sym (
          exchange_rate_value supply cash a.borrows a.reserves s.pool.initial_exchange_rate_mantissa
            tokens (omega arith) (omega arith))
        ∙ a.computed) in
      let behind : (cash + b.borrows - b.reserves) * exp_scale / supply ≡ rate' = ok-injective (
        sym (
          exchange_rate_value supply cash b.borrows b.reserves t.pool.initial_exchange_rate_mantissa
            tokens (omega arith) (omega arith))
        ∙ rw (g.supply, g.cash) at b.computed) in
      let le =
        rate-le (cash + a.borrows - a.reserves) (cash + b.borrows - b.reserves) supply tokens
          (omega arith) in
      omega (arith, before, behind, le)

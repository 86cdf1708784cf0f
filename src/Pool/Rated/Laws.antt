-- ===== src/Pool/Rated/Laws.antt =====
-- The two rates of a pool with an interest rate model of this repository, logics/impls/pool/mod.rs and
-- logics/impls/interest_rate_model.rs.
use starlay_protocol_wasm.Prelude.{ℕ, ◌≤◌, ◌<◌, ◌≡◌, refl, arith, Outcome, ok, unwrap, >>=-elim}
use starlay_protocol_wasm.Words.{u128_mod}
use starlay_protocol_wasm.Rates.{Model, borrow_rate}
use starlay_protocol_wasm.Rates.Bounds.{supply_rate_total, supply_rate-le-borrow_rate}
use starlay_protocol_wasm.Pool.Errors.{Error}
use starlay_protocol_wasm.Pool.Environment.{TokenLibrary, Contracts, Context}
use starlay_protocol_wasm.Pool.State.{State}
use starlay_protocol_wasm.Pool.Views.{
  total_borrows, total_reserves, get_cash_prior, borrow_rate_per_msec,
}
use starlay_protocol_wasm.Pool.Queries.{supply_rate_per_msec}
use starlay_protocol_wasm.Pool.Calls.{History}
use starlay_protocol_wasm.Pool.Deployment.{Arguments}
use starlay_protocol_wasm.Pool.Deployment.Laws.{Made, deployed-Standing}
use starlay_protocol_wasm.Pool.Rated.{get_supply_rate, rated}

unwrapped-eq-ok : {E F A : Type 0} (o : Outcome E A) {a : A} → unwrap {F = F} o ≡ ok a → o ≡ ok a
unwrapped-eq-ok o e = ground arith

module _ (lib : TokenLibrary) (contracts : Contracts lib.Psp22Error)
    (models : contracts.World → (account : ℕ) → Model) (token : lib.Token) (world : contracts.World)
    (ctx now : Context) where
  -- In a pool that one of the constructors made, behind any history of messages: where the borrow rate comes
  -- out, and fits in 128 bits, and the pool's cash covers its reserves, the supply rate comes out too and is at
  -- most the borrow rate. The interest rate model is this repository's, whatever its settings.
  pub deployed_rates_ordered :
      (a : Arguments) (s t : State lib (rated contracts models)) (reserves rate : ℕ)
      → Made lib (rated contracts models) token world ctx a s
      → History lib (rated contracts models) s t
      → total_reserves {E = Error lib.Psp22Error} t.pool ≡ ok reserves
      → reserves ≤ get_cash_prior lib (rated contracts models) now t
      → borrow_rate_per_msec lib (rated contracts models) now t ≡ ok rate
      → rate < u128_mod
      → (paid : ℕ) × (supply_rate_per_msec lib
            (rated contracts models)
            now
            (get_supply_rate contracts models)
            t
          ≡ ok paid)
        × (paid ≤ rate)
  unfolding borrow_rate_per_msec supply_rate_per_msec
  deployed_rates_ordered a s t reserves rate made history er covered e fits =
      let standing =
        deployed-Standing lib (rated contracts models) token world ctx a s t made history in
      let cash = get_cash_prior lib (rated contracts models) now t in
      let model = models t.world a.rate_model in
      >>=-elim (total_borrows {E = Error lib.Psp22Error} t.pool) _ e λ borrows eb e1.
        let charged : borrow_rate {E = Unit {0}} model cash borrows reserves ≡ ok rate =
          unwrapped-eq-ok _ (rw (er, standing.rate_model) at e1) in
        let (paid, ep) =
          supply_rate_total model cash borrows reserves t.pool.reserve_factor_mantissa covered
            standing.factor fits charged in
        (
          paid,
          rw (eb, er, standing.rate_model, ep) refl,
          supply_rate-le-borrow_rate model cash borrows reserves t.pool.reserve_factor_mantissa
              covered charged ep,
        )

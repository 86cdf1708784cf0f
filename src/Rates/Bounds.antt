-- ===== src/Rates/Bounds.antt =====
-- Bounds of the rates of logics/impls/interest_rate_model.rs, and how they move.
use starlay_protocol_wasm.Prelude.{ℕ, ◌-◌, ◌*◌, ◌/◌, ◌≤◌, ◌<◌, ◌≡◌, arith, ok, >>=-eq-ok}
use starlay_protocol_wasm.Words.{u128_mod, sub256}
use starlay_protocol_wasm.Rates.{
  Model, base, supply_rate_of, utilization_rate, borrow_rate, supply_rate,
}

-- While the reserves are covered by cash, the utilization is at most one.
pub utilization_rate-le-base :
    {E : Type 0} (cash borrows reserves : ℕ) {u : ℕ}
    → reserves ≤ cash
    → utilization_rate {E = E} cash borrows reserves ≡ ok u
    → u ≤ base
unfolding utilization_rate
utilization_rate-le-base cash borrows reserves h e = grind arith

scaled_down_le : (a b : ℕ) → b ≤ base → a * b / base ≤ a
scaled_down_le a b h = grind arith

supply_rate_of-le :
    {E : Type 0} (u r k : ℕ) {s : ℕ}
    → u ≤ base
    → k ≤ base
    → supply_rate_of {E = E} u r k ≡ ok s
    → s ≤ r
unfolding supply_rate_of
supply_rate_of-le u r k h g e =
    ground (arith, scaled_down_le r k g, scaled_down_le (r * k / base) u h)

sub256-le : {E : Type 0} (a b : ℕ) {k : ℕ} → sub256 {E = E} a b ≡ ok k → k ≤ a
unfolding sub256
sub256-le a b e = ground arith

-- With reserves covered by cash, lenders are paid at most the rate that borrowers pay.
pub supply_rate-le-borrow_rate :
    {E : Type 0} (m : Model) (cash borrows reserves reserve_factor : ℕ) {r s : ℕ}
    → reserves ≤ cash
    → borrow_rate {E = E} m cash borrows reserves ≡ ok r
    → supply_rate {E = E} m cash borrows reserves reserve_factor ≡ ok s
    → s ≤ r
unfolding supply_rate
supply_rate-le-borrow_rate {E} m c b rs f {r} {s} h p q =
    let (k, ek, q1) = >>=-eq-ok (sub256 {E = E} base f) _ q in
    let (u, eu, q2) = >>=-eq-ok (utilization_rate {E = E} c b rs) _ (rw p at q1) in
    supply_rate_of-le u r k (utilization_rate-le-base c b rs h eu) (sub256-le base f ek) q2

supply_rate_of_total :
    {E : Type 0} (u r k : ℕ)
    → u ≤ base
    → k ≤ base
    → r < u128_mod
    → (s : ℕ) × (supply_rate_of {E = E} u r k ≡ ok s)
unfolding supply_rate_of
supply_rate_of_total u r k h g fits =
    let paid : r * k / base ≤ r = scaled_down_le r k g in
    let a : r * k ≤ u128_mod * base = grind arith in
    let b : u * (r * k / base) ≤ base * u128_mod = grind arith in
    (u * (r * k / base) / base, ground (arith, a, b))

borrow_rate-utilization_rate :
    {E : Type 0} (m : Model) (cash borrows reserves : ℕ) {r : ℕ}
    → borrow_rate {E = E} m cash borrows reserves ≡ ok r
    → (u : ℕ) × (utilization_rate {E = E} cash borrows reserves ≡ ok u)
unfolding borrow_rate
borrow_rate-utilization_rate {E} m c b rs p =
    let (u, eu, _) = >>=-eq-ok (utilization_rate {E = E} c b rs) _ p in (u, eu)

sub256_ok : {E : Type 0} (a b : ℕ) → b ≤ a → sub256 {E = E} a b ≡ ok (a - b)
unfolding sub256
sub256_ok a b h = ground arith

-- A supply rate comes out whenever a borrow rate of 128 bits does, with reserves covered by cash and a reserve
-- factor of at most one.
pub supply_rate_total :
    {E : Type 0} (m : Model) (cash borrows reserves reserve_factor : ℕ) {r : ℕ}
    → reserves ≤ cash
    → reserve_factor ≤ base
    → r < u128_mod
    → borrow_rate {E = E} m cash borrows reserves ≡ ok r
    → (s : ℕ) × (supply_rate {E = E} m cash borrows reserves reserve_factor ≡ ok s)
unfolding supply_rate
supply_rate_total {E} m c b rs f {r} h g fits p =
    let (u, eu) = borrow_rate-utilization_rate m c b rs p in
    let (s, es) =
      supply_rate_of_total {E = E} u r (base - f) (utilization_rate-le-base c b rs h eu)
        (omega arith) fits in
    (s, rw (sub256_ok {E = E} base f g, p, eu) es)

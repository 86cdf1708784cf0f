-- ===== src/Lens/Prices.antt =====
-- Where the lens traps for want of a price, contracts/lens/lib.rs.
use starlay_protocol_wasm.Prelude.{
  ℕ, ◌≡◌, ◌≢◌, refl, ap, ◌∙◌, arith, true, Option, none, some, List, [], ◌∷◌, Outcome, ok, err,
  panic, ◌⊎◌, inl, inr, ◌==◌, Bool-cases,
}
use starlay_protocol_wasm.Prelude.Lists.{mem}
use starlay_protocol_wasm.Prelude.Actions.{Action, view, lift, bind-ok, bind-panic}
use starlay_protocol_wasm.Lens.{
  PoolUnderlyingPrice, Controllers, Peers, collect, price_of, pool_underlying_price,
  pool_underlying_price_all,
}

-- Calls that leave the world alone and that succeed or trap: one that traps makes `collect` trap.
collect-panic :
    {W E B : Type 0} (f : ℕ → W → Outcome E (B × W)) (w : W) (asked : List ℕ) (a : ℕ)
    → ((p : ℕ) → (f p w ≡ panic) ⊎ ((b : B) × (f p w ≡ ok (b, w))))
    → mem a asked ≡ true
    → f a w ≡ panic
    → collect f asked w ≡ panic
unfolding collect mem
collect-panic f w [] a h l e = absurd (cc)
collect-panic f w (p ∷ rest) a h l e = elim (h p) [
  | inl trap ↦ bind-panic (f p) _ trap
  | inr (b, answered) ↦ elim (Bool-cases (a == p)) [
    | inl same ↦ let equal : a ≡ p = ground arith in absurd (ground (arith, ap (λ q. f q w) equal))
    | inr other ↦
        bind-ok (f p) _ answered
        ∙ bind-panic (collect f rest) _ (collect-panic f w rest a h (ground arith) e)
  ]
]

-- A pool whose links lead to an oracle that has no price for its token.
pub record HasNoPrice {W : Type 0} (controllers : Controllers W) (peers : Peers W) (w : W)
    (pool : ℕ) : Type 0 where
  pub controller : ℕ
  pub asset : ℕ
  pub oracle : ℕ
  pub controller_is : peers.controller w pool ≡ some controller
  pub asset_is : peers.underlying w pool ≡ some asset
  pub oracle_is : controllers.oracle w controller ≡ some oracle
  pub no_price : peers.get_price w oracle asset ≡ none

module _ {W : Type 0} (controllers : Controllers W) (peers : Peers W) {E : Type 0} where
  abbrev price_action : (pool : ℕ) → Action W E ℕ
  price_action pool =
      view λ w. price_of controllers peers (peers.controller w pool) (peers.underlying w pool) w

  pool_underlying_price-traps :
      (w : W) (pool : ℕ)
      → HasNoPrice controllers peers w pool
      → pool_underlying_price controllers peers {E = E} pool w ≡ panic
  unfolding pool_underlying_price price_of
  pool_underlying_price-traps w pool h =
      let missing : price_of controllers peers {E = E} (peers.controller w pool)
            (peers.underlying w pool) w
          ≡ panic =
        rw (h.controller_is, h.asset_is) (ground (arith, h.oracle_is, h.no_price)) in
      bind-panic (price_action pool) _ (ap (λ o. lift o w) missing)

  -- A price is reported or the call traps, and the world stays as it is.
  price_view :
      (w : W) (pool : ℕ) (o : Outcome E ℕ)
      → ((x : E) → o ≢ err x)
      → price_of controllers peers {E = E} (peers.controller w pool) (peers.underlying w pool) w ≡ o
      → (pool_underlying_price controllers peers {E = E} pool w ≡ panic)
        ⊎ ((b : PoolUnderlyingPrice) × (pool_underlying_price controllers peers {E = E} pool w
              ≡ ok (b, w)))
  unfolding pool_underlying_price
  price_view w pool (ok price) h e = inr (
    record { pool = pool; underlying_price = price },
    bind-ok (price_action pool) _ (ap (λ o. lift o w) e),
  )
  price_view w pool (err x) h e = absurd (h x refl)
  price_view w pool panic h e = inl (bind-panic (price_action pool) _ (ap (λ o. lift o w) e))

  price_of-ne-err :
      (w : W) (controller asset : Option ℕ) (x : E)
      → price_of controllers peers {E = E} controller asset w ≢ err x
  unfolding price_of
  price_of-ne-err w controller asset x e = ground arith

  -- One pool without a price takes all the others with it: the prices of a list of pools are not reported
  -- but trap, wherever in the list a pool stands for whose token the oracle has no price.
  pub pool_underlying_price_all-traps :
      (asked : List ℕ) (w : W) (pool : ℕ)
      → mem pool asked ≡ true
      → HasNoPrice controllers peers w pool
      → pool_underlying_price_all controllers peers {E = E} asked w ≡ panic
  unfolding pool_underlying_price_all
  pool_underlying_price_all-traps asked w pool l h =
      collect-panic (pool_underlying_price controllers peers) w asked pool
        (λ p.
          price_view w p _ (λ x. price_of-ne-err w (peers.controller w p) (peers.underlying w p) x)
            refl)
        l (pool_underlying_price-traps w pool h)

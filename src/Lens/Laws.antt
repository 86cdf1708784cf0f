-- ===== src/Lens/Laws.antt =====
-- What the lens reports of the controller of this repository, contracts/lens/lib.rs and
-- logics/impls/controller/mod.rs.
use mathlib.Core.Path.{subst}
use starlay_protocol_wasm.Prelude.{
  ℕ, ◌≡◌, ◌≢◌, refl, sym, ap, ◌∙◌, arith, Bool, true, false, Option, none, some, List, [], ◌∷◌,
  Outcome, ok, err, panic, unwrap, unwrap_or, ok-injective,
}
use starlay_protocol_wasm.Prelude.Lists.{mem}
use starlay_protocol_wasm.Prelude.Actions.{bind-elim, view-elim}
use starlay_protocol_wasm.Controller.Markets.{Data, State, is_listed}
use starlay_protocol_wasm.Controller.Markets.Calls.{History}
use starlay_protocol_wasm.Controller.Markets.Deployment.{new, deployed-WellFormed}
use starlay_protocol_wasm.Controller.Markets.Laws.{WellFormed}
use starlay_protocol_wasm.Lens.{
  PoolMetadata, Controllers, Peers, or_default, collect, market_of, pool_metadata,
  pool_metadata_all, pools,
}

-- The controllers that the lens asks, where each is the controller of logics/impls/controller/mod.rs with
-- the storage `stored`: its view messages.
abbrev pub controllers_of : {W : Type 0} → (W → (controller : ℕ) → Data) → Controllers W
controllers_of stored = record {
  markets = λ w c. (stored w c).markets;
  manager = λ w c. (stored w c).manager;
  oracle = λ w c. (stored w c).oracle;
  seize_guardian_paused = λ w c. (stored w c).seize_guardian_paused;
  transfer_guardian_paused = λ w c. (stored w c).transfer_guardian_paused;
  liquidation_incentive_mantissa = λ w c. (stored w c).liquidation_incentive_mantissa;
  close_factor_mantissa = λ w c. (stored w c).close_factor_mantissa;
  is_listed = λ w c pool. is_listed (stored w c) pool;
  collateral_factor_mantissa = λ w c pool. (stored w c).collateral_factor_mantissa pool;
  borrow_cap = λ w c pool. (stored w c).borrow_caps pool;
  mint_guardian_paused = λ w c pool. (stored w c).mint_guardian_paused pool;
  borrow_guardian_paused = λ w c pool. (stored w c).borrow_guardian_paused pool;
}

-- What the lens reports of one listed market: the settings of the controller, none of them a default.
pub record Report (d : Data) (pool : ℕ) (m : PoolMetadata) : Type 0 where
  pub pool_is : m.pool ≡ pool
  pub listed : m.is_listed ≡ true
  pub mint_flag : d.mint_guardian_paused pool ≡ some m.mint_guardian_paused
  pub borrow_flag : d.borrow_guardian_paused pool ≡ some m.borrow_guardian_paused
  pub factor : m.collateral_factor_mantissa ≡ unwrap_or (d.collateral_factor_mantissa pool) 0
  pub cap : m.borrow_cap ≡ d.borrow_caps pool

pub data Reports (d : Data) : List ℕ → List PoolMetadata → Type 0 where
  done : Reports d [] []
  next :
      {pool : ℕ} {m : PoolMetadata} {rest : List ℕ} {ms : List PoolMetadata}
      → Report d pool m
      → Reports d rest ms
      → Reports d (pool ∷ rest) (m ∷ ms)

-- The part of a report that is about the controller.
market_part : PoolMetadata → Bool × ℕ × Option ℕ × Bool × Bool
market_part m = (
  m.is_listed, m.collateral_factor_mantissa, m.borrow_cap, m.mint_guardian_paused,
  m.borrow_guardian_paused,
)

known_flag : (o : Option Bool) → o ≢ none → o ≡ some (unwrap_or o false)
known_flag none h = absurd (h refl)
known_flag (some b) h = refl

module _ {W : Type 0} (controllers : Controllers W) (peers : Peers W) {E : Type 0} where
  -- A report may change the world by one accrual of its pool.
  pool_metadata-eq-ok :
      (pool : ℕ) (w w' : W) (m : PoolMetadata)
      → pool_metadata controllers peers {E = E} pool w ≡ ok (m, w')
      → (m.pool ≡ pool)
        × (market_part m ≡ market_of controllers pool (peers.controller w pool) w)
        × (x : ℕ) × (or_default {E = E} (peers.exchange_rate_current pool) w ≡ ok (x, w'))
  unfolding pool_metadata market_part
  pool_metadata-eq-ok pool w w' m e =
      view-elim (λ u. unwrap (peers.total_supply u pool)) _ {s = w} e
        λ supply _ k1.
          view-elim (λ u. unwrap (peers.total_borrows u pool)) _ k1
            λ borrows _ k2.
              view-elim (λ u. unwrap (peers.total_reserves u pool)) _ k2
                λ reserves _ k3.
                  bind-elim (or_default (peers.exchange_rate_current pool)) _ k3
                    λ rate v accrued k4.
                      view-elim (λ u. unwrap (peers.supply_rate_per_msec u pool)) _ k4
                        λ supply_rate _ k5.
                          view-elim (λ u. unwrap (peers.borrow_rate_per_msec u pool)) _ k5
                            λ borrow_rate _ k6.
                              let made = sym (ok-injective k6) in
                              (
                                ap (λ x. x.0.pool) made,
                                ap (λ x. market_part x.0) made,
                                rate,
                                accrued ∙ ap (λ x. ok (rate, x.1)) (sym made),
                              )

-- The answers of pools do not change the storage `d` of a controller `c`, nor which controller they name.
pub record Keeps {W : Type 0} (stored : W → (controller : ℕ) → Data) (peers : Peers W) (c : ℕ)
    (d : Data) : Type 0 where
  pub linked :
      (w : W) (pool : ℕ)
      → stored w c ≡ d
      → mem pool d.markets ≡ true
      → peers.controller w pool ≡ some c
  pub accrues :
      (w w' : W) (pool x : ℕ)
      → stored w c ≡ d
      → peers.exchange_rate_current pool w ≡ ok (x, w')
      → stored w' c ≡ d

module _ {W : Type 0} (stored : W → (controller : ℕ) → Data) (peers : Peers W) (c : ℕ) (d : Data)
    (keeps : Keeps stored peers c d) {E : Type 0} where
  or_default-keeps :
      (w w' : W) (pool x : ℕ)
      → stored w c ≡ d
      → or_default {E = E} (peers.exchange_rate_current pool) w ≡ ok (x, w')
      → stored w' c ≡ d
  or_default-keeps w w' pool x h e = go (peers.exchange_rate_current pool w) refl e
    where
      go :
          (o : Outcome peers.PoolError (ℕ × W))
          → peers.exchange_rate_current pool w ≡ o
          → ◌≡◌ {A = Outcome E (ℕ × W)}
              (elim o [ ok r ↦ ok r | err y ↦ ok (0, w) | panic ↦ panic ])
              (ok (x, w'))
          → stored w' c ≡ d
      go (ok r) p q = keeps.accrues w w' pool x h (p ∙ ap (λ z. ok z) (ok-injective q))
      go (err y) p q = ap (λ z. stored z.1 c) (sym (ok-injective q)) ∙ h
      go panic p q = absurd (cc)

  pool_metadata-Report :
      (pool : ℕ) (w w' : W) (m : PoolMetadata)
      → stored w c ≡ d
      → WellFormed d
      → mem pool d.markets ≡ true
      → pool_metadata (controllers_of stored) peers {E = E} pool w ≡ ok (m, w')
      → Report d pool m × (stored w' c ≡ d)
  unfolding market_of market_part is_listed
  pool_metadata-Report pool w w' m h form l e =
      let (named, part, x, accrued) =
        pool_metadata-eq-ok (controllers_of stored) peers pool w w' m e in
      let all = rw (keeps.linked w pool h l) at part in
      let known = rw h at all in
      (
        record {
          pool_is = named;
          listed = ap (λ p. p.0) known ∙ l;
          mint_flag =
              known_flag (d.mint_guardian_paused pool) (form.mint_flag pool l)
              ∙ ap (λ b. some b) (sym (ap (λ p. p.3) known));
          borrow_flag =
              known_flag (d.borrow_guardian_paused pool) (form.borrow_flag pool l)
              ∙ ap (λ b. some b) (sym (ap (λ p. p.4) known));
          factor = ap (λ p. p.1) known;
          cap = ap (λ p. p.2) known;
        },
        or_default-keeps w w' pool x h accrued,
      )

  collect-Reports :
      (listed : List ℕ) (w w' : W) (ms : List PoolMetadata)
      → stored w c ≡ d
      → WellFormed d
      → ((pool : ℕ) → mem pool listed ≡ true → mem pool d.markets ≡ true)
      → pool_metadata_all (controllers_of stored) peers {E = E} listed w ≡ ok (ms, w')
      → Reports d listed ms
  unfolding pool_metadata_all collect mem
  collect-Reports [] w w' ms h form l e =
      subst (Reports d []) (ap (λ x. x.0) (ok-injective e)) Reports.done
  collect-Reports (pool ∷ rest) w w' ms h form l e =
      bind-elim (pool_metadata (controllers_of stored) peers pool) _ {s = w} e λ m v em e1.
        bind-elim (collect (pool_metadata (controllers_of stored) peers) rest) _ {s = v} e1
          λ more u er e2.
            let (report, kept) =
              pool_metadata-Report pool w v m h form (l pool (ground arith)) em in
            subst (Reports d (pool ∷ rest)) (ap (λ x. x.0) (ok-injective e2)) (
              Reports.next report
                (collect-Reports rest v u more kept form (λ p q. l p (ground arith)) er))

  -- The lens over the markets of a controller. Behind the constructor and any history of messages of the
  -- controller, a report on all its pools that succeeds is one report for each listed market, in the order of
  -- the list: of that pool, as listed, with the pause flags that the controller has stored, and with its
  -- collateral factor, zero if none is set, and its cap. The pools name this controller, and what they do for
  -- the lens leaves the controller as it is.
  pub deployed-Reports :
      (manager : ℕ) (t : State) (w w1 w' : W) (listed : List ℕ) (ms : List PoolMetadata)
      → History (new manager) t
      → t.controller ≡ d
      → stored w c ≡ d
      → pools (controllers_of stored) peers {E = E} c w ≡ ok (listed, w1)
      → pool_metadata_all (controllers_of stored) peers {E = E} listed w1 ≡ ok (ms, w')
      → (listed ≡ d.markets) × Reports d listed ms
  unfolding pools
  deployed-Reports manager t w w1 w' listed ms history is h ep em =
      let same : listed ≡ d.markets =
        ap (λ x. x.0) (sym (ok-injective ep)) ∙ ap (λ x. x.markets) h in
      let kept : stored w1 c ≡ d = ap (λ x. stored x.1 c) (sym (ok-injective ep)) ∙ h in
      let form : WellFormed d =
        subst (λ x. WellFormed x) is (deployed-WellFormed manager t history) in
      (same, collect-Reports listed w1 w' ms kept form (λ p l. rw (sym same) l) em)

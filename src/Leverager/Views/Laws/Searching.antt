-- ===== src/Leverager/Views/Laws/Searching.antt =====
-- When the search for a withdrawable amount ends, logics/impls/leverager.rs.
use starlay_protocol_wasm.Prelude.{
  ℕ, ◌*◌, ◌/◌, ◌≤◌, ◌<◌, ◌≡◌, inl, inr, sym, ap, ◌∙◌, arith, leb, zero, suc, some, Outcome, ok,
  panic, ◌>>=◌, ok-injective, Bool-cases,
}
use starlay_protocol_wasm.Words.{u128_mod, u256_mod, mul256, div256, as_u128}
use starlay_protocol_wasm.Controller.Account.{AccountData}
use starlay_protocol_wasm.Leverager.Environment.{Data, Contracts}
use starlay_protocol_wasm.Leverager.Views.{
  health_factor_limit, shrink, liquidation_threshold, get_health_factor,
}
use starlay_protocol_wasm.Leverager.Views.Laws.Leaving.{health_after_below, health_after-le}
use starlay_protocol_wasm.Leverager.Views.Laws.Withdrawing.{health_after-get_health_factor}

-- One round of the search.
shrink-suc :
    {E : Type 0} (health : ℕ → Outcome E ℕ) (rounds amount h : ℕ)
    → amount < u128_mod
    → h ≤ health_factor_limit
    → shrink health (suc rounds) amount h
      ≡ (health (amount * 95 / 100) >>= shrink health rounds (amount * 95 / 100))
unfolding shrink mul256 div256 as_u128
shrink-suc health rounds amount h small low = ground arith

-- The health factors of an account, as far as an amount.
abbrev Known : {E : Type 0} → (ℕ → Outcome E ℕ) → ℕ → Type 0
Known health amount = (n : ℕ) → n ≤ amount → (k : ℕ) × (health n ≡ ok k)

module _ {E : Type 0} (health : ℕ → Outcome E ℕ) where
  positive : (amount h k : ℕ) → health 0 ≡ ok h → health amount ≡ ok k → k < h → 0 < amount
  positive zero h k e f less = let same : h ≡ k = ok-injective (sym e ∙ f) in absurd (omega arith)
  positive (suc n) h k e f less = omega arith

  rounds_suffice :
      (rounds amount h k : ℕ)
      → Known health amount
      → health 0 ≡ ok h
      → health_factor_limit < h
      → health amount ≡ ok k
      → amount ≤ rounds
      → amount < u128_mod
      → (v : ℕ) × (shrink health rounds amount k ≡ ok v)
        × (v ≤ amount)
        × (j : ℕ) × (health v ≡ ok j)
        × (health_factor_limit < j)
  unfolding shrink
  rounds_suffice zero amount h k known eh high ek le small =
      let none_left : amount ≡ 0 = omega arith in
      let same : h ≡ k = ok-injective (sym eh ∙ ap health (sym none_left) ∙ ek) in
      (amount, ground arith, omega arith, k, ek, omega arith)
  rounds_suffice (suc rounds) amount h k known eh high ek le small =
      elim (Bool-cases (leb k health_factor_limit)) [
        | inr over ↦ (amount, rw (over, shrink), omega arith, k, ek, ground arith)
        | inl low ↦
            let some_left = positive amount h k eh ek (ground arith) in
            let (j, ej) = known (amount * 95 / 100) (omega arith) in
            let (v, ev, le', j', ej', above) =
              rounds_suffice rounds (amount * 95 / 100) h j (λ n p. known n (omega arith)) eh high
                ej (omega arith) (omega arith) in
            (
              v,
              shrink-suc health rounds amount k small (ground arith)
                  ∙ ap (λ o. o >>= shrink health rounds (amount * 95 / 100)) ej
                  ∙ ev,
              omega arith,
              j',
              ej',
              above,
            )
      ]

  low_traps :
      (rounds amount k : ℕ)
      → Known health amount
      → ((n j : ℕ) → health n ≡ ok j → j ≤ health_factor_limit)
      → health amount ≡ ok k
      → amount < u128_mod
      → shrink health rounds amount k ≡ panic
  unfolding shrink
  low_traps zero amount k known low ek small = let below = low amount k ek in ground arith
  low_traps (suc rounds) amount k known low ek small =
      let (j, ej) = known (amount * 95 / 100) (omega arith) in
      shrink-suc health rounds amount k small (low amount k ek)
      ∙ ap (λ o. o >>= shrink health rounds (amount * 95 / 100)) ej
      ∙ low_traps rounds (amount * 95 / 100) j (λ n p. known n (omega arith)) low ej (omega arith)

module _ {P : Type 0} (contracts : Contracts P) (d : Data) (w : contracts.World) where
  -- The search for a withdrawable amount ends for an account that the controller knows, of an asset that the
  -- oracle has a price for, if the account's health factor is above the limit when nothing is withdrawn, and
  -- if the amount that the search starts with, below 2^128, has a health factor. It takes at most as many
  -- rounds as this amount, and finds an amount that is no larger and whose health factor is above the limit.
  -- The account's debt is a number of 256 bits.
  pub search_ends :
      {E : Type 0} (rounds account asset controller oracle price amount h k : ℕ) {a : AccountData}
      → d.controller ≡ some controller
      → contracts.calculate_user_account_data w controller account ≡ ok a
      → d.price_oracle ≡ some oracle
      → contracts.get_price w oracle asset ≡ some price
      → a.total_debt_in_base_currency < u256_mod
      → get_health_factor contracts d w {E = E} account asset 0 ≡ ok h
      → health_factor_limit < h
      → get_health_factor contracts d w {E = E} account asset amount ≡ ok k
      → amount ≤ rounds
      → amount < u128_mod
      → (v : ℕ) × (shrink (get_health_factor contracts d w {E = E} account asset) rounds amount k
          ≡ ok v)
        × (v ≤ amount)
        × (j : ℕ) × (get_health_factor contracts d w {E = E} account asset v ≡ ok j)
        × (health_factor_limit < j)
  search_ends {E} rounds account asset controller oracle price amount h k {a} ec ea eo ep debt eh
        high ek le small =
      let threshold = liquidation_threshold contracts d w asset in
      let same = λ (n : ℕ).
        health_after-get_health_factor contracts d w {E = E} account asset n controller oracle price
          ec ea eo ep in
      rounds_suffice (get_health_factor contracts d w account asset) rounds amount h k
        (λ n p.
          let (j, ej) =
            health_after_below {E = E} a threshold price amount n debt (sym (same amount) ∙ ek) p in
          (j, same n ∙ ej))
        eh high ek le small

  -- The search for a withdrawable amount never ends for an account that the controller knows, of an asset that
  -- the oracle has a price for, if the account has debt, if its health factor is not above the limit when
  -- nothing is withdrawn, and if the amount that the search starts with, below 2^128, has a health factor:
  -- no withdrawal leaves the account more health, and however many rounds the gas pays for, the call traps. The debt, and the collateral weighted by the liquidation threshold, fit in 128 bits.
  pub search_traps :
      {E : Type 0} (rounds account asset controller oracle price amount h k : ℕ) {a : AccountData}
      → d.controller ≡ some controller
      → contracts.calculate_user_account_data w controller account ≡ ok a
      → d.price_oracle ≡ some oracle
      → contracts.get_price w oracle asset ≡ some price
      → 0 < a.total_debt_in_base_currency
      → a.total_debt_in_base_currency < u128_mod
      → a.avg_liquidation_threshold * a.total_collateral_in_base_currency < u128_mod
      → get_health_factor contracts d w {E = E} account asset 0 ≡ ok h
      → h ≤ health_factor_limit
      → get_health_factor contracts d w {E = E} account asset amount ≡ ok k
      → amount < u128_mod
      → shrink (get_health_factor contracts d w {E = E} account asset) rounds amount k ≡ panic
  search_traps {E} rounds account asset controller oracle price amount h k {a} ec ea eo ep some_debt
        debt weighted eh low ek small =
      let threshold = liquidation_threshold contracts d w asset in
      let same = λ (n : ℕ).
        health_after-get_health_factor contracts d w {E = E} account asset n controller oracle price
          ec ea eo ep in
      low_traps (get_health_factor contracts d w account asset) rounds amount k
        (λ n p.
          let (j, ej) =
            health_after_below {E = E} a threshold price amount n (omega arith)
              (sym (same amount) ∙ ek) p in
          (j, same n ∙ ej))
        (λ n j ej.
          let less =
            health_after-le {E = E} a threshold price n some_debt debt weighted (sym (same 0) ∙ eh)
              (sym (same n) ∙ ej) in
          omega arith)
        ek small

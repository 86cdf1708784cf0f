-- ===== src/Leverager/Views/Laws/Withdrawing.antt =====
-- The amount that the leverager withdraws passes the controller's test, logics/impls/leverager.rs.
use starlay_protocol_wasm.Prelude.{
  ℕ, ◌≤◌, ◌<◌, ◌≡◌, refl, sym, ap, ◌∙◌, arith, true, leb, Option, none, some, Outcome, ok, err,
  panic, >>=-elim, ok-injective, some-injective,
}
use mathlib.Core.Path.{subst}
use starlay_protocol_wasm.Words.{mul256, div256, sub256, as_u128}
use starlay_protocol_wasm.Controller.Account.{AccountData}
use starlay_protocol_wasm.Controller.Errors.{Error}
use starlay_protocol_wasm.Controller.Health.{
  price_precision, or_else, balance_decrease_allowed, health_factor_liquidation_threshold,
}
use starlay_protocol_wasm.Leverager.Environment.{Data, Contracts}
use starlay_protocol_wasm.Leverager.Views.{
  Withdrawable, health_factor_limit, if_some, health_after, shrink, liquidation_threshold,
  get_health_factor, withdrawable, priced,
}
use starlay_protocol_wasm.Leverager.Views.Laws.{
  as_u128-eq-ok, decrease_of, health_after_agrees, shrink-eq-ok,
}

if_some-elim :
    {A E B C : Type 0} (o : Option A) (otherwise : Outcome E B) (f : A → Outcome E B) {v : B}
    → if_some o otherwise f ≡ ok v
    → (otherwise ≡ ok v → C)
    → ((a : A) → o ≡ some a → f a ≡ ok v → C)
    → C
if_some-elim none otherwise f e missing use_parts = missing e
if_some-elim (some a) otherwise f e missing use_parts = use_parts a refl e

or_else-elim :
    {A F E B C : Type 0} (o : Outcome F A) (otherwise : B) (f : A → Outcome E B) {v : B}
    → or_else o otherwise f ≡ ok v
    → (otherwise ≡ v → C)
    → ((a : A) → o ≡ ok a → f a ≡ ok v → C)
    → C
or_else-elim (ok a) otherwise f e missing use_parts = use_parts a refl e
or_else-elim (err x) otherwise f e missing use_parts = missing (ok-injective e)
or_else-elim panic otherwise f e missing use_parts = absurd (cc)

if_some-eq :
    {A B : Type 0} {o : Option A} {a : A}
    → o ≡ some a
    → (otherwise : B) (f : A → B) → if_some o otherwise f ≡ f a
if_some-eq e otherwise f = ap (λ o. if_some o otherwise f) e

or_else-eq :
    {A F E B : Type 0} {o : Outcome F A} {a : A}
    → o ≡ ok a
    → (otherwise : B) (f : A → Outcome E B) → or_else o otherwise f ≡ f a
or_else-eq e otherwise f = ap (λ o. or_else o otherwise f) e

enough : (h : ℕ) → health_factor_limit < h → leb health_factor_liquidation_threshold h ≡ true
enough h high = ground arith

none-absurd : {E A C : Type 0} {a : A} → ◌≡◌ {A = Outcome E (Option A)} (ok none) (ok (some a)) → C
none-absurd e = absurd (cc)

module _ {P : Type 0} (contracts : Contracts P) (d : Data) (w : contracts.World) where
  -- What holds of a withdrawable amount.
  pub record Fits (account asset : ℕ) (x : Withdrawable) : Type 0 where
    pub controller : ℕ
    pub account_data : AccountData
    pub oracle : ℕ
    pub price : ℕ
    pub controller_set : d.controller ≡ some controller
    pub oracle_set : d.price_oracle ≡ some oracle
    pub priced_at : contracts.get_price w oracle asset ≡ some price
    pub known : contracts.calculate_user_account_data w controller account ≡ ok account_data
    pub smaller : x.withdraw_amount ≤ x.withdrawable_collateral
    pub allowed :
        balance_decrease_allowed {E = Error} (
          decrease_of account_data
            (liquidation_threshold contracts d w asset)
            price
            x.withdraw_amount)
        ≡ ok true

  priced-eq-some :
      (asset : ℕ) {price : ℕ}
      → priced contracts d w asset ≡ some price
      → (oracle : ℕ) × (d.price_oracle ≡ some oracle)
        × (contracts.get_price w oracle asset ≡ some price)
  priced-eq-some asset e = grind arith

  -- The leverager's health factor of a listed and priced asset.
  pub health_after-get_health_factor :
      {E : Type 0} (account asset n controller oracle price : ℕ) {a : AccountData}
      → d.controller ≡ some controller
      → contracts.calculate_user_account_data w controller account ≡ ok a
      → d.price_oracle ≡ some oracle
      → contracts.get_price w oracle asset ≡ some price
      → get_health_factor contracts d w {E = E} account asset n
        ≡ health_after a (liquidation_threshold contracts d w asset) price n
  unfolding get_health_factor
  health_after-get_health_factor account asset n controller oracle price ec ea eo ep =
      if_some-eq ec _ _ ∙ or_else-eq ea _ _ ∙ if_some-eq eo _ _ ∙ if_some-eq ep _ _

  -- A withdrawable amount that the search finds is at most the collateral that could be withdrawn, and the
  -- controller's test on the health factor allows a withdrawal of it, at the oracle's price and on the
  -- account data that the controller gives.
  pub withdrawable-Fits :
      (rounds account asset : ℕ) {x : Withdrawable}
      → withdrawable contracts d w {E = Error} rounds account asset ≡ ok (some x)
      → Fits account asset x
  unfolding withdrawable
  withdrawable-Fits rounds account asset {x} e =
      if_some-elim d.controller _ _ e none-absurd λ controller ec e1.
        or_else-elim (contracts.calculate_user_account_data w controller account) _ _ e1
          (λ h. absurd (cc))
          λ a ea e2.
            >>=-elim (mul256 a.total_collateral_in_base_currency a.avg_liquidation_threshold) _ e2
              λ m1 em1 e3. >>=-elim (mul256 a.total_debt_in_base_currency 10000) _ e3 λ m2 em2 e4.
                >>=-elim (sub256 m1 m2) _ e4 λ afford ef e5.
                  >>=-elim (div256 afford (liquidation_threshold contracts d w asset)) _ e5
                    λ free er e6.
                      if_some-elim (priced contracts d w asset) _ _ e6 none-absurd λ price ep e7.
                        >>=-elim (mul256 free price_precision) _ e7 λ v ev e8.
                          >>=-elim (div256 v price) _ e8 λ most em e9.
                            >>=-elim (as_u128 most) _ e9 λ amount en e10.
                              >>=-elim (get_health_factor contracts d w account asset amount) _ e10
                                λ health eh e11.
                                  >>=-elim
                                    (shrink (get_health_factor contracts d w account asset) rounds
                                      most health)
                                    _ e11
                                    λ left el e12.
                                      let same = as_u128-eq-ok most en in
                                      let (smaller, (h, eh', high)) =
                                        shrink-eq-ok (get_health_factor contracts d w account asset)
                                          rounds most health
                                          (subst
                                            (λ u.
                                              get_health_factor contracts d w {E = Error} account
                                                asset u
                                              ≡ ok health)
                                            same eh)
                                          el in
                                      let (oracle, eo, eg) = priced-eq-some asset ep in
                                      let after =
                                        sym (
                                          health_after-get_health_factor account asset left
                                            controller oracle price ec ea eo eg)
                                        ∙ eh' in
                                      let decision =
                                        health_after_agrees a
                                          (liquidation_threshold contracts d w asset) price left
                                          after in
                                      subst (λ o. Fits account asset o)
                                        (some-injective (ok-injective e12))
                                        (record {
                                          controller = controller;
                                          account_data = a;
                                          oracle = oracle;
                                          price = price;
                                          controller_set = ec;
                                          oracle_set = eo;
                                          priced_at = eg;
                                          known = ea;
                                          smaller = smaller;
                                          allowed = decision ∙ ap ok (enough h high);
                                        })

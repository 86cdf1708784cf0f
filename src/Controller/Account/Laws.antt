-- ===== src/Controller/Account/Laws.antt =====
-- The totals of an account are sums over its positions, logics/impls/controller/mod.rs.
use starlay_protocol_wasm.Prelude.{
  ℕ, ◌+◌, ◌*◌, ◌/◌, ◌≡◌, refl, inl, inr, arith, Bool-cases, Option, none, some, List, [], ◌∷◌, ◌++◌,
  ◌==◌, ◌&&◌, not, if◌then◌else◌, ok, ok_or, >>=-elim, ok-injective,
}
use mathlib.Core.Path.{subst}
use starlay_protocol_wasm.Words.{add256, mul256, div256}
use starlay_protocol_wasm.Controller.Errors.{
  Error, invalid_collateral_factor, underlying_is_not_set, pool_is_not_set, oracle_is_not_set,
}
use starlay_protocol_wasm.Controller.Health.{price_precision, calculate_health_factor_from_balances}
use starlay_protocol_wasm.Controller.Liquidity.{is_modified}
use starlay_protocol_wasm.Controller.Markets.{Data}
use starlay_protocol_wasm.Controller.Account.{
  Peers, AccountCollateralData, Totals, no_totals, Param, Start, add_collateral, add_debt, price_of,
  load_caller, add_position, add_market, add_markets, average, user_account_data,
}
use starlay_protocol_wasm.Pool.Environment.{PoolAttributes}

-- An amount in the base currency, rounded down.
abbrev pub value : (price amount : ℕ) → ℕ
value price amount = price * amount / price_precision

abbrev pub deposit_value : Param → ℕ
deposit_value p = value p.oracle_price_mantissa.mantissa p.token_balance

abbrev pub loan_value : Param → ℕ
loan_value p = value p.oracle_price_mantissa.mantissa p.borrow_balance

unfoldable pub sum_of : (Param → ℕ) → List Param → ℕ
sum_of f [] = 0
sum_of f (p ∷ ps) = f p + sum_of f ps

sum_of-push :
    (f : Param → ℕ) (p : Param) (ps : List Param) → sum_of f (ps ++ p ∷ []) ≡ sum_of f ps + f p
unfolding sum_of
sum_of-push f p [] = omega arith
sum_of-push f p (q ∷ ps) = omega (arith, sum_of-push f p ps)

abbrev weighted_ltv : Param → ℕ
weighted_ltv p = deposit_value p * p.collateral_factor_mantissa.mantissa

-- The totals of an account, as sums over its positions.
pub record Sums (a : AccountCollateralData) (ps : List Param) : Type 0 where
  pub collateral : a.total_collateral_in_base_currency ≡ sum_of deposit_value ps
  pub debt : a.total_debt_in_base_currency ≡ sum_of loan_value ps
  pub ltv : a.avg_ltv ≡ (
      if sum_of deposit_value ps == 0 then 0 else sum_of weighted_ltv ps / sum_of deposit_value ps)
  pub health :
      calculate_health_factor_from_balances {E = Error} a.total_collateral_in_base_currency
        a.total_debt_in_base_currency a.avg_liquidation_threshold
      ≡ ok a.health_factor

-- The carried sums are those of the positions so far.
record Agrees (t : Totals) (ps : List Param) : Type 0 where
  pub collateral : t.collateral ≡ sum_of deposit_value ps
  pub ltv : t.ltv ≡ sum_of weighted_ltv ps
  pub debt : t.debt ≡ sum_of loan_value ps

add_collateral-eq-ok :
    (price balance ltv threshold : ℕ) (t : Totals) {u : Totals}
    → add_collateral price balance ltv threshold t ≡ ok u
    → (u.collateral ≡ t.collateral + value price balance)
      × (u.ltv ≡ t.ltv + value price balance * ltv)
      × (u.debt ≡ t.debt)
unfolding add_collateral add256 mul256 div256
add_collateral-eq-ok price balance ltv threshold t e = ground arith

add_debt-eq-ok :
    (price borrowed : ℕ) (t : Totals) {u : Totals}
    → add_debt price borrowed t ≡ ok u
    → (u.collateral ≡ t.collateral) × (u.ltv ≡ t.ltv) × (u.debt ≡ t.debt + value price borrowed)
unfolding add_debt add256 mul256 div256
add_debt-eq-ok price borrowed t e = ground arith

Agrees-push :
    (t u : Totals) (p : Param) (ps : List Param)
    → Agrees t ps
    → u.collateral ≡ t.collateral + deposit_value p
    → u.ltv ≡ t.ltv + weighted_ltv p
    → u.debt ≡ t.debt + loan_value p
    → Agrees u (ps ++ p ∷ [])
Agrees-push t u p ps h c l d = record {
  collateral = omega (arith, h.collateral, sum_of-push deposit_value p ps);
  ltv = omega (arith, h.ltv, sum_of-push weighted_ltv p ps);
  debt = omega (arith, h.debt, sum_of-push loan_value p ps);
}

added :
    (price balance ltv threshold borrowed : ℕ) (t : Totals) {v u : Totals}
    → add_collateral price balance ltv threshold t ≡ ok v
    → add_debt price borrowed v ≡ ok u
    → (u.collateral ≡ t.collateral + value price balance)
      × (u.ltv ≡ t.ltv + value price balance * ltv)
      × (u.debt ≡ t.debt + value price borrowed)
added price balance ltv threshold borrowed t {v} e f =
    let a = add_collateral-eq-ok price balance ltv threshold t e in
    let b = add_debt-eq-ok price borrowed v f in (omega arith, omega arith, omega arith)

none-Agrees : Agrees no_totals []
unfolding sum_of
none-Agrees = record { collateral = refl; ltv = refl; debt = refl }

module _ (d : Data) (peers : Peers) (caller : ℕ) where
  load_caller-Agrees :
      (oracle : ℕ) (attributes : Option PoolAttributes) {s : Start}
      → load_caller d peers caller oracle attributes ≡ ok s
      → Agrees s.totals s.params
  unfolding load_caller
  load_caller-Agrees oracle none e =
      subst (λ r. Agrees r.totals r.params) (ok-injective e) none-Agrees
  load_caller-Agrees oracle (some attrs) e =
      >>=-elim (ok_or attrs.underlying underlying_is_not_set) _ e λ underlying eu e1.
        >>=-elim (ok_or attrs.pool pool_is_not_set) _ e1 λ pool ep e2.
          >>=-elim (ok_or (d.collateral_factor_mantissa pool) invalid_collateral_factor) _ e2
            λ factor ef e3. >>=-elim (price_of peers oracle underlying) _ e3 λ price epr e4.
              >>=-elim
                (add_collateral price attrs.account_balance factor attrs.liquidation_threshold
                  no_totals)
                _ e4
                λ t et e5. >>=-elim (add_debt price attrs.account_borrow_balance t) _ e5 λ u eu' e6.
                  let a =
                    added price attrs.account_balance factor attrs.liquidation_threshold
                      attrs.account_borrow_balance no_totals et eu' in
                  subst (λ r. Agrees r.totals r.params) (ok-injective e6)
                    (Agrees-push no_totals u _ [] none-Agrees a.0 a.1 a.2)

  add_position-Agrees :
      (oracle asset balance borrowed rate : ℕ) (t : Totals) (ps : List Param) {u : Totals}
      {qs : List Param}
      → add_position d peers caller oracle asset balance borrowed rate (t, ps) ≡ ok (u, qs)
      → Agrees t ps
      → Agrees u qs
  unfolding add_position
  add_position-Agrees oracle asset balance borrowed rate t ps {u} {qs} e h =
      let meta = peers.metadata asset in
      >>=-elim (ok_or meta.underlying underlying_is_not_set) _ e λ underlying eu e1.
        >>=-elim (price_of peers oracle underlying) _ e1 λ price epr e2.
          >>=-elim (ok_or (d.collateral_factor_mantissa asset) invalid_collateral_factor) _ e2
            λ factor ef e3.
              >>=-elim (add_collateral price balance factor meta.liquidation_threshold t) _ e3
                λ v ev e4. >>=-elim (add_debt price borrowed v) _ e4 λ w ew e5.
                  let a = added price balance factor meta.liquidation_threshold borrowed t ev ew in
                  subst (λ r. Agrees r.0 r.1) (ok-injective e5) (Agrees-push t w _ ps h a.0 a.1 a.2)

  add_market-Agrees :
      (oracle account : ℕ) (token_modify : Option ℕ) (skip asset : ℕ) (t : Totals) (ps : List Param)
      {u : Totals} {qs : List Param}
      → add_market d peers caller oracle account token_modify skip asset (t, ps) ≡ ok (u, qs)
      → Agrees t ps
      → Agrees u qs
  unfolding add_market
  add_market-Agrees oracle account token_modify skip asset t ps {u} {qs} e h =
      elim (Bool-cases (asset == skip)) [
        | inl same ↦ subst (λ r. Agrees r.0 r.1) (ok-injective (rw same at e)) h
        | inr other ↦
            >>=-elim (peers.get_account_snapshot asset account) _ (rw other at e) λ snap es e1.
              let (balance, borrowed, rate) = snap in
              elim (Bool-cases
                (balance == 0 && borrowed == 0 && not (is_modified token_modify asset))) [
                  | inl empty ↦ subst (λ r. Agrees r.0 r.1) (ok-injective (rw empty at e1)) h
                  | inr used ↦
                      add_position-Agrees oracle asset balance borrowed rate t ps (rw used at e1) h
                ]
      ]

  add_markets-Agrees :
      (oracle account : ℕ) (token_modify : Option ℕ) (skip : ℕ) (assets : List ℕ) (t : Totals)
      (ps : List Param) {u : Totals} {qs : List Param}
      → add_markets d peers caller oracle account token_modify skip assets (t, ps) ≡ ok (u, qs)
      → Agrees t ps
      → Agrees u qs
  unfolding add_markets
  add_markets-Agrees oracle account token_modify skip [] t ps e h =
      subst (λ r. Agrees r.0 r.1) (ok-injective e) h
  add_markets-Agrees oracle account token_modify skip (m ∷ ms) t ps e h =
      >>=-elim (add_market d peers caller oracle account token_modify skip m (t, ps)) _ e λ r er e1.
        add_markets-Agrees oracle account token_modify skip ms r.0 r.1 e1
          (add_market-Agrees oracle account token_modify skip m t ps er h)

  average-eq-ok :
      (sum total : ℕ) {n : ℕ}
      → average d peers caller sum total ≡ ok n
      → n ≡ (if total == 0 then 0 else sum / total)
  unfolding average div256
  average-eq-ok sum total e = ground arith

  -- The two computations of an account agree on its positions: the totals in the base currency are the
  -- sums of the values of the deposits and of the loans that go into the liquidity check, the average
  -- loan-to-value ratio is weighted by the deposits, and the health factor is that of these totals.
  pub user_account_data-Sums :
      (account : ℕ) (attributes : Option PoolAttributes) (token_modify : Option ℕ)
      {a : AccountCollateralData} {ps : List Param}
      → user_account_data d peers caller account attributes token_modify ≡ ok (a, ps)
      → Sums a ps
  unfolding user_account_data
  user_account_data-Sums account attributes token_modify {a} {ps} e =
      >>=-elim (ok_or d.oracle oracle_is_not_set) _ e λ oracle eo e1.
        >>=-elim (load_caller d peers caller oracle attributes) _ e1 λ s es e2.
          >>=-elim
            (add_markets d peers caller oracle account token_modify s.skip_pool d.markets
              (s.totals, s.params))
            _ e2
            λ r er e3. >>=-elim (average d peers caller r.0.ltv r.0.collateral) _ e3 λ l el e4.
              >>=-elim (average d peers caller r.0.threshold r.0.collateral) _ e4 λ t et e5.
                >>=-elim (calculate_health_factor_from_balances r.0.collateral r.0.debt t) _ e5
                  λ h eh e6.
                    let g =
                      add_markets-Agrees oracle account token_modify s.skip_pool d.markets s.totals
                        s.params er (load_caller-Agrees oracle attributes es) in
                    subst (λ x. Sums x.0 x.1) (ok-injective e6)
                      (record {
                        collateral = g.collateral;
                        debt = g.debt;
                        ltv =
                            rw (← g.collateral, ← g.ltv) (average-eq-ok r.0.ltv r.0.collateral el);
                        health = eh;
                      })

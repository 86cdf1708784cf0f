-- ===== src/Controller/Allowed/Laws.antt =====
-- What a check of the controller guarantees when it passes, logics/impls/controller/mod.rs.
use starlay_protocol_wasm.Prelude.{
  ℕ, ◌+◌, ◌-◌, ◌≤◌, ◌<◌, ◌≡◌, ◌⊎◌, inl, inr, arith, Bool-cases, Bool, true, false, not, Option,
  some, List, ltb, ◌==◌, unwrap_or, ok, ok_or, fail_if, >>=-elim,
}
use mathlib.Core.Path.{subst}
use starlay_protocol_wasm.Words.{u128_mod, sub128, sub256}
use starlay_protocol_wasm.Controller.Errors.{
  Error, borrow_is_paused, price_error, insufficient_liquidity, oracle_is_not_set,
  balance_decrease_not_allowed,
}
use starlay_protocol_wasm.Controller.Health.{BalanceDecreaseAllowedParam, balance_decrease_allowed}
use starlay_protocol_wasm.Controller.Liquidity.{
  GetHypotheticalAccountLiquidityInput, get_hypothetical_account_liquidity,
}
use starlay_protocol_wasm.Controller.Liquidity.Laws.{
  sum_collateral, sum_debt, get_hypothetical_account_liquidity_sums,
}
use starlay_protocol_wasm.Controller.Markets.{Data, no_price}
use starlay_protocol_wasm.Controller.Account.{
  Peers, AccountCollateralData, Param, user_account_data, hypothetical_liquidity,
}
use starlay_protocol_wasm.Controller.Allowed.{
  is_paused, redeem_allowed, market_state, check_borrow_cap, borrow_allowed,
}
use starlay_protocol_wasm.Pool.Environment.{PoolAttributes}

-- The positions of an account, and how its debt with a planned redemption and loan compares with its
-- collateral.
module _ (d : Data) (peers : Peers) (caller : ℕ) where
  pub record Positions (account : ℕ) (attributes : Option PoolAttributes) (token_modify : Option ℕ)
      : Type 0 where
    pub totals : AccountCollateralData
    pub params : List Param
    pub run : user_account_data d peers caller account attributes token_modify ≡ ok (totals, params)

  pub hypothetical_liquidity-eq-ok :
      (account : ℕ) (token_modify : Option ℕ) (redeem borrow : ℕ)
      (attributes : Option PoolAttributes) {left missing : ℕ}
      → hypothetical_liquidity d peers caller account token_modify redeem borrow attributes
        ≡ ok (left, missing)
      → (p : Positions account attributes token_modify) × (left
          ≡ sum_collateral p.params - sum_debt token_modify redeem borrow p.params)
        × (missing ≡ sum_debt token_modify redeem borrow p.params - sum_collateral p.params)
  unfolding hypothetical_liquidity sub256
  hypothetical_liquidity-eq-ok account token_modify redeem borrow attributes e =
      >>=-elim (user_account_data d peers caller account attributes token_modify) _ e λ r er e1.
        >>=-elim
          (get_hypothetical_account_liquidity (record {
            asset_params = r.1;
            token_modify = token_modify;
            redeem_tokens = redeem;
            borrow_amount = borrow;
          }))
          _ e1
          λ s es e2.
            let sums =
              get_hypothetical_account_liquidity_sums
                (record {
                  asset_params = r.1;
                  token_modify = token_modify;
                  redeem_tokens = redeem;
                  borrow_amount = borrow;
                })
                es in
            (record { totals = r.0; params = r.1; run = er }, ground arith, ground arith)

  pub fail_if-eq-ok :
      {E : Type 0} (b : Bool) (x : E) {u : Unit {0}} → fail_if b x ≡ ok u → b ≡ false
  fail_if-eq-ok b x e = ground arith

  check_borrow_cap-eq-ok :
      (pool amount total : ℕ)
      → unwrap_or (d.borrow_caps pool) 0 < u128_mod
      → check_borrow_cap d peers caller pool amount total ≡ ok tt
      → (unwrap_or (d.borrow_caps pool) 0 ≡ 0) ⊎ (total + amount ≤ unwrap_or (d.borrow_caps pool) 0)
  unfolding check_borrow_cap sub128
  check_borrow_cap-eq-ok pool amount total h e = ground arith

  -- What the code promises of an allowed loan.
  pub record BorrowIsSafe (pool borrower amount : ℕ) (attrs : PoolAttributes) : Type 0 where
    pub not_paused : d.borrow_guardian_paused pool ≡ some false
    pub within_cap :
        (unwrap_or (d.borrow_caps pool) 0 ≡ 0)
        ⊎ (attrs.total_borrows + amount ≤ unwrap_or (d.borrow_caps pool) 0)
    pub positions : Positions borrower (some attrs) (some pool)
    pub covered : sum_debt (some pool) 0 amount positions.params ≤ sum_collateral positions.params

  not_paused_of : (o : Option Bool) → is_paused o ≡ false → o ≡ some false
  not_paused_of o e = ground arith

  market_state-eq-ok :
      (oracle pool : ℕ) (attrs : PoolAttributes) {price : Option ℕ} {total : ℕ}
      → market_state d peers caller oracle pool (some attrs) ≡ ok (price, total)
      → total ≡ attrs.total_borrows
  unfolding market_state
  market_state-eq-ok oracle pool attrs e = ground arith

  -- A loan that the controller allows to a pool is not paused, keeps the pool's debt within its cap, and
  -- leaves the borrower's collateral, over all their positions, at no less than their debt with the loan.
  pub borrow_allowed-BorrowIsSafe :
      (pool borrower amount : ℕ) (attrs : PoolAttributes)
      → unwrap_or (d.borrow_caps pool) 0 < u128_mod
      → borrow_allowed d peers caller pool borrower amount (some attrs) ≡ ok tt
      → BorrowIsSafe pool borrower amount attrs
  unfolding borrow_allowed
  borrow_allowed-BorrowIsSafe pool borrower amount attrs small e =
      >>=-elim (fail_if (is_paused (d.borrow_guardian_paused pool)) borrow_is_paused) _ e λ _ p e1.
        >>=-elim (ok_or d.oracle oracle_is_not_set) _ e1 λ oracle eo e2.
          >>=-elim (market_state d peers caller oracle pool (some attrs)) _ e2 λ m em e3.
            >>=-elim (fail_if (no_price m.0) price_error) _ e3 λ _ np e4.
              >>=-elim (check_borrow_cap d peers caller pool amount m.1) _ e4 λ _ ec e5.
                >>=-elim
                  (hypothetical_liquidity d peers caller borrower (some pool) 0 amount (some attrs))
                  _ e5
                  λ r er e6.
                    let (positions, left, missing) =
                      hypothetical_liquidity-eq-ok borrower (some pool) 0 amount (some attrs) er in
                    let none_missing = fail_if-eq-ok (not (r.1 == 0)) insufficient_liquidity e6 in
                    let zero : r.1 ≡ 0 = ground arith in
                    let total = market_state-eq-ok oracle pool attrs em in
                    let cap = check_borrow_cap-eq-ok pool amount m.1 small ec in
                    record {
                      not_paused =
                          not_paused_of (d.borrow_guardian_paused pool)
                            (fail_if-eq-ok _ borrow_is_paused p);
                      within_cap =
                          subst
                            (λ t.
                              (unwrap_or (d.borrow_caps pool) 0 ≡ 0)
                              ⊎ (t + amount ≤ unwrap_or (d.borrow_caps pool) 0))
                            total cap;
                      positions = positions;
                      covered = omega arith;
                    }

  -- The decrease that a redemption is checked as.
  abbrev pub decrease_of : AccountCollateralData → ℕ → BalanceDecreaseAllowedParam
  decrease_of a amount = record {
    asset_price = a.asset_price;
    amount_in_base_currency_unit = amount;
    total_collateral_in_base_currency = a.total_collateral_in_base_currency;
    avg_liquidation_threshold = a.avg_liquidation_threshold;
    liquidation_threshold = a.liquidation_threshold;
    total_debt_in_base_currency = a.total_debt_in_base_currency;
  }

  pub record RedeemIsSafe (pool redeemer amount : ℕ) (attrs : Option PoolAttributes) : Type 0 where
    pub positions : Positions redeemer attrs (some pool)
    pub covered : sum_debt (some pool) amount 0 positions.params ≤ sum_collateral positions.params
    pub healthy :
        (positions.totals.total_debt_in_base_currency ≡ 0)
        ⊎ (balance_decrease_allowed {E = Error} (decrease_of positions.totals amount) ≡ ok true)

  -- An allowed redemption leaves the debts covered by the collateral, and where there is debt it passes the
  -- test on the health factor of what remains.
  pub redeem_allowed-RedeemIsSafe :
      (pool redeemer amount : ℕ) (attrs : Option PoolAttributes)
      → redeem_allowed d peers caller pool redeemer amount attrs ≡ ok tt
      → RedeemIsSafe pool redeemer amount attrs
  unfolding redeem_allowed
  redeem_allowed-RedeemIsSafe pool redeemer amount attrs e =
      >>=-elim (user_account_data d peers caller redeemer attrs (some pool)) _ e λ r er e1.
        let input : GetHypotheticalAccountLiquidityInput = record {
          asset_params = r.1;
          token_modify = some pool;
          redeem_tokens = amount;
          borrow_amount = 0;
        } in
        >>=-elim (get_hypothetical_account_liquidity input) _ e1 λ s es e2.
          >>=-elim (fail_if (ltb s.0 s.1) insufficient_liquidity) _ e2 λ _ el e3.
            let sums = get_hypothetical_account_liquidity_sums input es in
            let covered = fail_if-eq-ok (ltb s.0 s.1) insufficient_liquidity el in
            record {
              positions = record { totals = r.0; params = r.1; run = er };
              covered = ground (arith, sums);
              healthy = elim (Bool-cases (r.0.total_debt_in_base_currency == 0)) [
                | inl z ↦ inl (ground arith)
                | inr z ↦ inr (
                    >>=-elim (balance_decrease_allowed (decrease_of r.0 amount)) _ (rw z at e3)
                      λ b eb e4.
                        let yes = fail_if-eq-ok (not b) balance_decrease_not_allowed e4 in
                        ground arith)
              ];
            }

-- ===== src/WethGateway/Laws.antt =====
-- Where the native tokens of a repayment go, logics/impls/weth_gateway.rs.
use starlay_protocol_wasm.Prelude.{
  ℕ, ◌+◌, ◌-◌, ◌≤◌, ◌≡◌, arith, some, ltb, if◌then◌else◌, ok, ok_or, map_err, fail_if, >>=-elim,
  ok-injective, map_err-eq-ok, ok_or-eq-ok, ◌⊎◌, inl, inr, Bool-cases,
}
use starlay_protocol_wasm.WethGateway.{
  Data, Context, Contracts, safe_transfer_eth, wrap, repay_eth, safe_eth_transfer_failed,
  insufficient_payback, weth_is_not_set, pool,
}

module _ {P : Type 0} (contracts : Contracts P) (d : Data) (ctx : Context) where
  -- What a repayment does: the debt is read, part of what was sent is wrapped and repaid, and the rest goes
  -- back.
  pub record Repaid (pool_id amount : ℕ) (w w' : contracts.World) : Type 0 where
    pub debt : ℕ
    pub paid : ℕ
    pub refund : ℕ
    pub read : contracts.World
    pub wrapped : contracts.World
    pub after : contracts.World
    pub reads : contracts.borrow_balance_current pool_id ctx.caller w ≡ ok (debt, read)
    pub at_most : (paid ≤ debt) × (paid ≤ amount)
    pub all_used : paid + refund ≡ ctx.transferred_value
    pub weth : ℕ
    pub wraps : wrap contracts d ctx weth pool_id paid read ≡ ok wrapped
    pub repays :
        contracts.repay_borrow_behalf pool_id ctx.account_id ctx.caller paid wrapped ≡ ok after
    pub refunds :
        ((refund ≡ 0) × (after ≡ w'))
        ⊎ (contracts.transfer ctx.account_id ctx.caller refund after ≡ some w')

  refund_of :
      (paid sent : ℕ) (w : contracts.World) {w' : contracts.World}
      → paid ≤ sent
      → (if ltb paid sent
          then safe_transfer_eth contracts d ctx ctx.caller (sent - paid) w
          else ok w)
        ≡ ok w'
      → ((sent - paid ≡ 0) × (w ≡ w'))
        ⊎ (contracts.transfer ctx.account_id ctx.caller (sent - paid) w ≡ some w')
  unfolding safe_transfer_eth
  refund_of paid sent w le e = elim (Bool-cases (ltb paid sent)) [
    | inl more ↦ inr (ok_or-eq-ok _ safe_eth_transfer_failed (rw more at e))
    | inr exact ↦ inl (ground arith, ok-injective (rw exact at e))
  ]

  -- A repayment through the gateway that succeeds repays at most the debt and at most the amount, and what
  -- was sent along is exactly what it repays and what it gives back to the caller.
  pub repay_eth-Repaid :
      (pool_id amount : ℕ) (w : contracts.World) {w' : contracts.World}
      → repay_eth contracts d ctx pool_id amount w ≡ ok w'
      → Repaid pool_id amount w w'
  unfolding repay_eth
  repay_eth-Repaid pool_id amount w e =
      >>=-elim (map_err pool (contracts.borrow_balance_current pool_id ctx.caller w)) _ e λ r er e1.
        let paid = if ltb amount r.0 then amount else r.0 in
        >>=-elim (fail_if (ltb ctx.transferred_value paid) insufficient_payback) _ e1 λ _ ef e2.
          >>=-elim (ok_or d.weth weth_is_not_set) _ e2 λ weth ew e3.
            >>=-elim (wrap contracts d ctx weth pool_id paid r.1) _ e3 λ w2 e2' e4.
              >>=-elim
                (map_err pool
                  (contracts.repay_borrow_behalf pool_id ctx.account_id ctx.caller paid w2))
                _ e4
                λ w3 e3' e5.
                  let enough : paid ≤ ctx.transferred_value = ground arith in
                  record {
                    debt = r.0;
                    paid = paid;
                    refund = ctx.transferred_value - paid;
                    read = r.1;
                    wrapped = w2;
                    after = w3;
                    reads = map_err-eq-ok pool _ er;
                    at_most = (ground arith, ground arith);
                    all_used = omega arith;
                    weth = weth;
                    wraps = e2';
                    repays = map_err-eq-ok pool _ e3';
                    refunds = refund_of paid ctx.transferred_value w3 enough e5;
                  }

-- ===== src/Leverager/Looping/Legs.antt =====
-- The deposits and loans of a finished loop, `_loop` of logics/impls/leverager.rs.
use starlay_protocol_wasm.Prelude.{
  ℕ, ◌+◌, ◌*◌, ◌≤◌, ◌≡◌, arith, true, ◌==◌, if◌then◌else◌, zero, suc, some, ok, ok_or, >>=-elim,
  ok-injective, ok_or-eq-ok, Bool-cases, inl, inr,
}
use mathlib.Core.Path.{subst}
use starlay_protocol_wasm.Leverager.Environment.{
  Data, Context, Contracts, controller_is_not_set, market_not_listed,
}
use starlay_protocol_wasm.Leverager.Looping.{next_amount, mint_to, borrow_for, rounds, loop}

module _ {P : Type 0} (contracts : Contracts P) (d : Data) (ctx : Context) where
  -- Deposits and loans of the caller, one after the other, with their totals.
  pub data Legs (market : ℕ)
      : contracts.World → (deposited borrowed : ℕ) → contracts.World → Type 0 where
    stop : {w : contracts.World} → Legs market w 0 0 w
    deposit :
        {w w1 w2 : contracts.World} {deposited borrowed : ℕ} (n : ℕ)
        → mint_to contracts d ctx market n w ≡ ok w1
        → Legs market w1 deposited borrowed w2
        → Legs market w (n + deposited) borrowed w2
    loan :
        {w w1 w2 : contracts.World} {deposited borrowed : ℕ} (n : ℕ)
        → borrow_for contracts d ctx market n w ≡ ok w1
        → Legs market w1 deposited borrowed w2
        → Legs market w deposited (n + borrowed) w2

  mints :
      (market amount : ℕ) {w w1 : contracts.World}
      → mint_to contracts d ctx market amount w ≡ ok w1
      → Legs market w amount 0 w1
  mints market amount {w} {w1} e =
      subst (λ n. Legs market w n 0 w1) (omega arith) (deposit amount e stop)

  next_amount_bound : (amount ratio : ℕ) → next_amount amount ratio * 10000 ≤ amount * ratio
  unfolding next_amount
  next_amount_bound amount ratio = grind arith

  zero_of : {n : ℕ} → (n == 0) ≡ true → n ≡ 0
  zero_of {n} e = ground arith

  append :
      {market : ℕ} {w w1 w2 : contracts.World} {a b : ℕ} (n : ℕ)
      → Legs market w a b w1
      → mint_to contracts d ctx market n w1 ≡ ok w2
      → Legs market w (a + n) b w2
  append {market} {w} {w1} {w2} n stop e =
      subst (λ t. Legs market w t 0 w2) (omega arith) (mints market n e)
  append {market} {w} {w1} {w2} n (deposit {deposited = a} {borrowed = b} m f rest) e =
      subst (λ t. Legs market w t b w2) (omega arith) (deposit m f (append n rest e))
  append n (loan m f rest) e = loan m f (append n rest e)

  -- What the rounds of the loop have done: `left` is borrowed and not yet deposited.
  record Done (market ratio amount left : ℕ) (w w' : contracts.World) : Type 0 where
    pub deposited : ℕ
    pub borrowed : ℕ
    pub legs : Legs market w deposited borrowed w'
    pub balance : deposited + left ≡ amount + borrowed
    pub ratio_kept : borrowed * 10000 ≤ ratio * deposited

  rounds-Done :
      (market ratio count amount : ℕ) (w : contracts.World) {left : ℕ} {w' : contracts.World}
      → rounds contracts d ctx market ratio count amount w ≡ ok (left, w')
      → Done market ratio amount left w w'
  unfolding rounds
  rounds-Done market ratio zero amount w {left} {w'} e =
      subst (λ r. Done market ratio amount r.0 w r.1) (ok-injective e)
        (record {
          deposited = 0;
          borrowed = 0;
          legs = stop;
          balance = omega arith;
          ratio_kept = omega arith;
        })
  rounds-Done market ratio (suc count) amount w {left} {w'} e =
      >>=-elim (mint_to contracts d ctx market amount w) _ e λ w1 em e1.
        elim (Bool-cases (next_amount amount ratio == 0)) [
          | inl none_left ↦
              subst (λ r. Done market ratio amount r.0 w r.1) (ok-injective (rw none_left at e1))
                (record {
                  deposited = amount;
                  borrowed = 0;
                  legs = mints market amount em;
                  balance = omega (arith, zero_of none_left);
                  ratio_kept = omega arith;
                })
          | inr more ↦
              >>=-elim (borrow_for contracts d ctx market (next_amount amount ratio) w1) _
                (rw more at e1)
                λ w2 eb e2.
                  let rest = rounds-Done market ratio count (next_amount amount ratio) w2 e2 in
                  record {
                    deposited = amount + rest.deposited;
                    borrowed = next_amount amount ratio + rest.borrowed;
                    legs = deposit amount em (loan (next_amount amount ratio) eb rest.legs);
                    balance = omega (arith, rest.balance);
                    ratio_kept = grind (arith, rest.ratio_kept, next_amount_bound amount ratio);
                  }
        ]

  -- The deposit after the loop.
  last :
      (market ratio amount left : ℕ) {w w' w'' : contracts.World}
      (done : Done market ratio amount left w w')
      → (if left == 0 then ok w' else mint_to contracts d ctx market left w') ≡ ok w''
      → (total : ℕ) × Legs market w total done.borrowed w''
        × (total ≡ amount + done.borrowed)
        × (done.borrowed * 10000 ≤ ratio * total)
  last market ratio amount left {w} {w'} {w''} done e = elim (Bool-cases (left == 0)) [
    | inl none_left ↦ (
      done.deposited,
      subst (Legs market w done.deposited done.borrowed) (ok-injective (rw none_left at e))
          done.legs,
      omega (arith, done.balance, zero_of none_left),
      done.ratio_kept,
    )
    | inr more ↦ (
      done.deposited + left,
      append left done.legs (rw more at e),
      done.balance,
      grind (arith, done.ratio_kept),
    )
  ]

  -- What a loop leaves, in the market of the asset: the caller's deposits are the amount and all that was
  -- borrowed, and the loans are at most the ratio's share, in hundredths of a percent, of the deposits.
  pub record Leveraged (asset ratio amount : ℕ) (w w' : contracts.World) : Type 0 where
    pub controller : ℕ
    pub market : ℕ
    pub controller_set : d.controller ≡ some controller
    pub market_listed : contracts.market_of_underlying w controller asset ≡ some market
    pub deposited : ℕ
    pub borrowed : ℕ
    pub legs : Legs market w deposited borrowed w'
    pub balance : deposited ≡ amount + borrowed
    pub ratio_kept : borrowed * 10000 ≤ ratio * deposited

  pub loop-Leveraged :
      (asset amount ratio count : ℕ) (w : contracts.World) {w' : contracts.World}
      → loop contracts d ctx asset amount ratio count w ≡ ok w'
      → Leveraged asset ratio amount w w'
  unfolding loop
  loop-Leveraged asset amount ratio count w {w'} e =
      >>=-elim (ok_or d.controller controller_is_not_set) _ e λ controller ec e1.
        >>=-elim (ok_or (contracts.market_of_underlying w controller asset) market_not_listed) _ e1
          λ market em e2.
            >>=-elim (rounds contracts d ctx market ratio count amount w) _ e2 λ r er e3.
              let done = rounds-Done market ratio count amount w er in
              let (total, legs, balance, kept) = last market ratio amount r.0 done e3 in
              record {
                controller = controller;
                market = market;
                controller_set = ok_or-eq-ok d.controller controller_is_not_set ec;
                market_listed = ok_or-eq-ok _ market_not_listed em;
                deposited = total;
                borrowed = done.borrowed;
                legs = legs;
                balance = balance;
                ratio_kept = kept;
              }

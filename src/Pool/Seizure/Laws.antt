-- ===== src/Pool/Seizure/Laws.antt =====
-- The pool tokens that a seizure takes out of circulation, `_seize` of logics/impls/pool/mod.rs.
use mathlib.Core.Path.{subst}
use starlay_protocol_wasm.Prelude.{
  ℕ, ◌+◌, ◌-◌, ◌*◌, ◌/◌, ◌<◌, ◌≤◌, ◌≡◌, ◌≢◌, ap, ◌∙◌, arith, ◌==◌, if◌then◌else◌, ok,
}
use starlay_protocol_wasm.Words.{u128_mod, add128, sub128, add128_exact}
use starlay_protocol_wasm.Math.Exp.{exp_scale, exp}
use starlay_protocol_wasm.Pool.Environment.{TokenLibrary, Contracts, Context}
use starlay_protocol_wasm.Pool.State.{State}
use starlay_protocol_wasm.Pool.Exchange.{protocol_seize_share_mantissa}
use starlay_protocol_wasm.Pool.Exchange.Laws.{protocol_seize_amount_splits}
use starlay_protocol_wasm.Pool.Liquidation.{seize_inner}
use starlay_protocol_wasm.Pool.Seizure.{Seizure, seize_inner-Seizure}

-- Taking the protocol's part from a supply, burning all and minting the rest takes that part twice.
sub128_twice :
    (supply kept seized part : ℕ)
    → part + kept ≡ seized
    → 2 * kept ≤ seized
    → supply < u128_mod
    → seized < u128_mod
    → add128 (sub128 (sub128 supply kept) seized) part ≡ sub128 supply (2 * kept)
unfolding add128 sub128
sub128_twice supply kept seized part split small below fits = omega arith

-- What the standard PSP22 keeps in its book: a supply and balances, which burning lowers and minting raises.
pub record KeepsBook (lib : TokenLibrary) : Type 0 where
  pub set_supply :
      (n : ℕ) (t : lib.Token)
      → (lib.supply (lib.set_supply n t) ≡ n)
        × ((v : ℕ) → lib.balance_of (lib.set_supply n t) v ≡ lib.balance_of t v)
  pub burned :
      (account amount : ℕ) (t u : lib.Token)
      → lib.burn_from account amount t ≡ ok u
      → (amount ≤ lib.balance_of t account)
        × (lib.supply u ≡ sub128 (lib.supply t) amount)
        × ((v : ℕ)
            → lib.balance_of u v
              ≡ (if v == account then lib.balance_of t account - amount else lib.balance_of t v))
  pub minted :
      (account amount : ℕ) (t u : lib.Token)
      → lib.mint_to account amount t ≡ ok u
      → (lib.supply u ≡ add128 (lib.supply t) amount)
        × ((v : ℕ)
            → lib.balance_of u v ≡ (
                if v == account
                then add128 (lib.balance_of t account) amount
                else lib.balance_of t v))

module _ (lib : TokenLibrary) (contracts : Contracts lib.Psp22Error) where
  -- The balances and the supply behind a seizure in which the protocol keeps `kept` tokens.
  pub record Loses (liquidator borrower seize_tokens kept : ℕ) (s t : State lib contracts)
      : Type 0 where
    pub borrower_pays :
        lib.balance_of t.token borrower + seize_tokens ≡ lib.balance_of s.token borrower
    pub liquidator_gets :
        lib.balance_of t.token liquidator + kept ≡ lib.balance_of s.token liquidator + seize_tokens
    pub others_keep :
        (v : ℕ)
        → v ≢ liquidator
        → v ≢ borrower
        → lib.balance_of t.token v ≡ lib.balance_of s.token v
    pub supply_falls : lib.supply t.token ≡ sub128 (lib.supply s.token) (2 * kept)

module _ (lib : TokenLibrary) (contracts : Contracts lib.Psp22Error) (ctx : Context)
    (book : KeepsBook lib) where
  Seizure-Loses :
      (liquidator borrower seize_tokens : ℕ) (s t : State lib contracts)
      (d : Seizure lib contracts ctx liquidator borrower seize_tokens s t)
      → d.liquidator_tokens + d.protocol_tokens ≡ seize_tokens
      → 2 * d.protocol_tokens ≤ seize_tokens
      → lib.supply s.token < u128_mod
      → lib.balance_of s.token liquidator + seize_tokens < u128_mod
      → Loses lib contracts liquidator borrower seize_tokens d.protocol_tokens s t
  Seizure-Loses liquidator borrower seize_tokens s t d split enough below fits =
      let kept = d.protocol_tokens in
      let part = d.liquidator_tokens in
      let supply = lib.supply s.token in
      let (lowered, same) = book.set_supply (sub128 supply kept) s.token in
      let (paid, supply1, balance1) = book.burned borrower seize_tokens _ d.burned d.burns in
      let (supply2, balance2) = book.minted liquidator part d.burned t.token d.mints in
      let g = add128_exact (lib.balance_of s.token liquidator) part (omega arith) in
      let held : lib.balance_of d.burned liquidator ≡ lib.balance_of s.token liquidator =
        ground (arith, balance1 liquidator, same liquidator, d.distinct) in
      let twice = sub128_twice supply kept seize_tokens part split enough below (omega arith) in
      let left : lib.supply d.burned ≡ sub128 (sub128 supply kept) seize_tokens =
        supply1 ∙ ap (λ n. sub128 n seize_tokens) lowered in
      let end : lib.supply t.token ≡ add128 (sub128 (sub128 supply kept) seize_tokens) part =
        supply2 ∙ ap (λ n. add128 n part) left in
      record {
        borrower_pays =
            ground (arith, balance2 borrower, balance1 borrower, same borrower, d.distinct);
        liquidator_gets = ground (arith, rw held at balance2 liquidator, g);
        others_keep = λ v p q. ground (arith, balance2 v, balance1 v, same v);
        supply_falls = end ∙ twice;
      }

  -- A seizure loses pool tokens. Where the token library is a standard PSP22, and the supply and the
  -- liquidator's balance with the seized tokens fit in 128 bits, a seizure that succeeds takes the seized
  -- tokens from the borrower and gives them to the liquidator but for the protocol's share of 2.8 %, rounded
  -- down, and no other balance changes. So the balances lose that share once, but the supply, modulo 2^128,
  -- loses it twice.
  pub seize_inner_lowers_supply_twice :
      (seizer_token liquidator borrower seize_tokens : ℕ) (s t : State lib contracts)
      → lib.supply s.token < u128_mod
      → lib.balance_of s.token liquidator + seize_tokens < u128_mod
      → seize_inner lib contracts ctx seizer_token liquidator borrower seize_tokens s ≡ ok (tt, t)
      → Loses lib contracts liquidator borrower seize_tokens
          (seize_tokens * protocol_seize_share_mantissa / exp_scale)
          s
          t
  seize_inner_lowers_supply_twice seizer_token liquidator borrower seize_tokens s t below fits e =
      let d =
        seize_inner-Seizure lib contracts ctx seizer_token liquidator borrower seize_tokens s t e in
      let (split, low, high, _, _) =
        protocol_seize_amount_splits (exp d.rate) seize_tokens protocol_seize_share_mantissa
          d.split in
      let kept : d.protocol_tokens ≡ seize_tokens * protocol_seize_share_mantissa / exp_scale =
        ground arith in
      subst (λ k. Loses lib contracts liquidator borrower seize_tokens k s t) kept
        (Seizure-Loses liquidator borrower seize_tokens s t d split (omega arith) below fits)

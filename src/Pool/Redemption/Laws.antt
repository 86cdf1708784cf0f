-- ===== src/Pool/Redemption/Laws.antt =====
-- What a redemption costs the redeemer, `_redeem` of logics/impls/pool/mod.rs.
use starlay_protocol_wasm.Prelude.{
  ℕ, ◌+◌, ◌*◌, ◌/◌, ◌<◌, ◌≤◌, ◌≡◌, sym, ap, ◌∙◌, arith, Bool, true, false, not, ◌||◌, some, ◌==◌,
  ok, ok-injective, suc, zero, refl,
}
use mathlib.Core.Path.{subst}
use starlay_protocol_wasm.Prelude.Actions.{when}
use starlay_protocol_wasm.Math.Exp.{exp_scale, exp_ray_ratio}
use starlay_protocol_wasm.Math.WadRay.{ray_scale}
use starlay_protocol_wasm.Pool.Errors.{Error}
use starlay_protocol_wasm.Pool.Environment.{TokenLibrary, Contracts, Context}
use starlay_protocol_wasm.Pool.State.{State}
use starlay_protocol_wasm.Pool.Scaled.RoundTrip.{scaled_amount_of-IsNearest}
use starlay_protocol_wasm.Pool.Views.{using_reserve_as_collateral, exchange_rate_stored}
use starlay_protocol_wasm.Pool.Accrual.{accrue_reward}
use starlay_protocol_wasm.Pool.Lending.{redeem_inner, redeem_checked}
use starlay_protocol_wasm.Pool.Runs.{accrue_reward-elim}
use starlay_protocol_wasm.Pool.Redemption.{Redemption, redeem_checked-Redemption}

nothing_nearest : (q n d : ℕ) → q * d ≤ n + d / 2 → n + d / 2 < d → q ≡ 0
nothing_nearest zero n d h k = refl
nothing_nearest (suc q) n d h k =
    let grown : suc q * d ≡ q * d + d = grind arith in absurd (omega arith)

module _ (lib : TokenLibrary) (contracts : Contracts lib.Psp22Error) (ctx : Context) where
  -- A call of `_redeem` from the state behind its reward's call: it does nothing, for the amount zero and
  -- for an account that does not use its deposit as collateral, or it redeems.
  pub data Redeems (redeemer amount : ℕ) (s t : State lib contracts) : Type 0 where
    nothing :
        (amount == 0 || not (using_reserve_as_collateral s.pool redeemer)) ≡ true
        → t ≡ s
        → Redeems redeemer amount s t
    redeems :
        (amount == 0 || not (using_reserve_as_collateral s.pool redeemer)) ≡ false
        → Redemption lib contracts ctx redeemer amount s t
        → Redeems redeemer amount s t

  when-Redeems :
      (skip : Bool) (redeemer amount : ℕ) (s t : State lib contracts)
      → (amount == 0 || not (using_reserve_as_collateral s.pool redeemer)) ≡ skip
      → when (not skip) (redeem_checked lib contracts ctx redeemer amount) s ≡ ok (tt, t)
      → Redeems redeemer amount s t
  when-Redeems true redeemer amount s t p e =
      Redeems.nothing p (ap (λ x. x.1) (sym (ok-injective e)))
  when-Redeems false redeemer amount s t p e =
      Redeems.redeems p (redeem_checked-Redemption lib contracts ctx redeemer amount s t e)

  -- A successful call of `_redeem`, seen from right behind its reward's call. For the amount zero, or for an
  -- account that does not use its deposit as collateral, it changes nothing. Otherwise interest was accrued
  -- at this block's time and the pool holds the amount; the redeemer is debited the tokens that the amount
  -- scales to at the exchange rate of the moment and is paid the whole amount of the underlying token; and of
  -- the storage only the redeemer's collateral flag may differ, which is cleared just when the amount is all
  -- that the deposit is worth.
  pub redeem_inner-Redeems :
      (redeemer amount : ℕ) (s u t : State lib contracts)
      → accrue_reward lib contracts ctx redeemer s ≡ ok (tt, u)
      → redeem_inner lib contracts ctx redeemer amount s ≡ ok (tt, t)
      → Redeems redeemer amount u t
  unfolding redeem_inner
  redeem_inner-Redeems redeemer amount s u t rewards e =
      accrue_reward-elim lib contracts ctx _ s redeemer e λ w again k.
        subst (λ x. Redeems redeemer amount x t)
          (ap (λ x. x.1) (ok-injective (sym again ∙ rewards)))
          (when-Redeems _ redeemer amount (record s { world = w }) t refl k)

  -- For a positive amount that is worth less than half a token at the exchange rate, by an account that uses
  -- its deposit as collateral, a redemption that succeeds burns no token and pays the amount all the same.
  pub redeem_inner_dust :
      (redeemer amount r : ℕ) (s u t : State lib contracts)
      → accrue_reward lib contracts ctx redeemer s ≡ ok (tt, u)
      → exchange_rate_stored lib contracts ctx {E = Error lib.Psp22Error} u ≡ ok r
      → using_reserve_as_collateral u.pool redeemer ≡ true
      → 0 < amount
      → 2 * amount * exp_scale < r
      → redeem_inner lib contracts ctx redeemer amount s ≡ ok (tt, t)
      → (lib.burn_from redeemer 0 u.token ≡ ok t.token)
        × (token : ℕ) × (u.pool.underlying ≡ some token)
        × (contracts.token_transfer token ctx.account_id redeemer amount u.world ≡ ok t.world)
  redeem_inner_dust redeemer amount r s u t rewards er flag some_amount small e =
      elim (redeem_inner-Redeems redeemer amount s u t rewards e) [
        | Redeems.nothing skipped _ ↦ absurd (ground (arith, skipped, flag))
        | Redeems.redeems _ d ↦
            let rate : d.rate ≡ r = ok-injective (sym d.rate_is ∙ er) in
            let near = scaled_amount_of-IsNearest amount d.rate d.tokens_are in
            let none_burnt : d.tokens ≡ 0 =
              nothing_nearest d.tokens (amount * ray_scale) (d.rate * exp_ray_ratio) (near.2.0)
                (omega (arith, rate, small)) in
            (rw (sym none_burnt) d.debited, d.underlying, d.underlying_is, d.paid)
      ]

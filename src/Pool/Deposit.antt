-- ===== src/Pool/Deposit.antt =====
-- What a deposit does to the pool's tokens, the underlying token and the collateral flag, `_mint` of
-- logics/impls/pool/mod.rs.
pub mod Laws
use mathlib.Core.Path.{subst}
use starlay_protocol_wasm.Prelude.{
  ℕ, ◌*◌, ◌/◌, ◌<◌, ◌≡◌, sym, ap, ◌∙◌, arith, Bool, true, ◌||◌, ◌&&◌, some, ◌==◌, ok,
}
use starlay_protocol_wasm.Prelude.Actions.{when, ◌>>◌, bind-elim, view-elim, ok_or_throw-elim}
use starlay_protocol_wasm.Words.{u128_mod, mul256, div256, as_u128}
use starlay_protocol_wasm.Math.Exp.{exp_scale}
use starlay_protocol_wasm.Pool.Errors.{Error, controller_is_not_set}
use starlay_protocol_wasm.Pool.Environment.{TokenLibrary, Contracts, Context}
use starlay_protocol_wasm.Pool.State.{State, Event, emit, on_token}
use starlay_protocol_wasm.Pool.Views.{
  using_reserve_as_collateral, exchange_rate_stored, principal_balance_of,
}
use starlay_protocol_wasm.Pool.Accrual.{accrue_reward}
use starlay_protocol_wasm.Pool.Collateral.{set_collateral_flag}
use starlay_protocol_wasm.Pool.Lending.{mint_inner}
use starlay_protocol_wasm.Pool.Runs.{
  on_token-elim, ask_controller-elim, assert_fresh-elim, transfer_underlying_from-elim,
  accrue_reward-elim, when-set_collateral_flag-Flagged,
}

module _ (lib : TokenLibrary) (contracts : Contracts lib.Psp22Error) (ctx : Context) where
  -- A deposit of `amount` by the caller for `minter` between two states: `rewarded` is the state of the
  -- other contracts behind the reward's call.
  pub record Deposit (minter amount : ℕ) (s t : State lib contracts) : Type 0 where
    pub rewarded : contracts.World
    pub rewards : accrue_reward lib contracts ctx minter s ≡ ok (tt, record s { world = rewarded })
    pub fresh : s.pool.accrual_block_timestamp ≡ ctx.block_timestamp
    pub rate : ℕ
    pub rate_is :
        exchange_rate_stored lib contracts ctx {E = Error lib.Psp22Error}
          (record s { world = rewarded })
        ≡ ok rate
    pub rate_positive : 0 < rate
    pub underlying : ℕ
    pub underlying_is : s.pool.underlying ≡ some underlying
    pub paid :
        contracts.token_transfer_from underlying ctx.account_id ctx.caller ctx.account_id amount
          rewarded
        ≡ ok t.world
    pub credited : lib.mint_to minter (amount * exp_scale / rate) s.token ≡ ok t.token
    pub fits : amount * exp_scale / rate < u128_mod
    pub only_flags :
        t.pool ≡ record s.pool { using_reserve_as_collateral = t.pool.using_reserve_as_collateral }
    pub flags :
        (u : ℕ)
        → using_reserve_as_collateral t.pool u ≡ (
            lib.balance_of s.token ctx.caller == 0 && u == minter
            || using_reserve_as_collateral s.pool u)

  minted_value :
      {E : Type 0} (amount rate : ℕ) {scaled quotient minted : ℕ}
      → mul256 {E = E} amount exp_scale ≡ ok scaled
      → div256 {E = E} scaled rate ≡ ok quotient
      → as_u128 {E = E} quotient ≡ ok minted
      → (0 < rate) × (minted ≡ amount * exp_scale / rate) × (minted < u128_mod)
  unfolding mul256 div256 as_u128
  minted_value amount rate a b c = ground arith

  -- What the last calls of `_mint` do: the flag, by a test of the caller's tokens, the credit and the event.
  record Credited (minter minted : ℕ) (first : Bool) (s t : State lib contracts) : Type 0 where
    pub world : t.world ≡ s.world
    pub tokens : lib.mint_to minter minted s.token ≡ ok t.token
    pub only_flags :
        t.pool ≡ record s.pool { using_reserve_as_collateral = t.pool.using_reserve_as_collateral }
    pub flags :
        (u : ℕ)
        → using_reserve_as_collateral t.pool u
          ≡ (first && u == minter || using_reserve_as_collateral s.pool u)

  credit-Credited :
      (minter minted : ℕ) (first : Bool) (event : Event) (s t : State lib contracts)
      → (when first (set_collateral_flag lib contracts ctx minter true)
            >> (on_token lib contracts (lib.mint_to minter minted) >> emit lib contracts event))
          s
        ≡ ok (tt, t)
      → Credited minter minted first s t
  credit-Credited minter minted first event s t e =
      bind-elim (when first (set_collateral_flag lib contracts ctx minter true)) _ {s = s} e
        λ _ u flag k.
          on_token-elim lib contracts (lib.mint_to minter minted) _ k λ token credited end.
            let f = when-set_collateral_flag-Flagged lib contracts ctx first minter true s u flag in
            let last : t ≡ record u { token = token; events = t.events } = cc in
            let kept : u.pool ≡ t.pool = cc in
            record {
              world = ap (λ v. v.world) last ∙ ap (λ v. v.world) f.only_pool;
              tokens =
                  ap (lib.mint_to minter minted) (sym (ap (λ v. v.token) f.only_pool))
                  ∙ credited
                  ∙ ap (λ v. ok v) (sym (ap (λ v. v.token) last));
              only_flags =
                  subst
                    (λ p. p ≡ record s.pool {
                      using_reserve_as_collateral = p.using_reserve_as_collateral;
                    })
                    kept f.only_flags;
              flags = λ v.
                  subst
                    (λ p.
                      using_reserve_as_collateral p v
                      ≡ (first && v == minter || using_reserve_as_collateral s.pool v))
                    kept (ground (arith, f.flags v));
            }

  -- A deposit that succeeds: the caller pays the whole amount of the underlying token into the pool, and the
  -- minter is credited with the amount at the exchange rate of the moment, rounded down, where the rate is
  -- not zero and the tokens fit in 128 bits. Interest was accrued at this block's time. Of the storage only
  -- the collateral flags may differ, and only by this: where the caller, not the minter, had no pool tokens,
  -- the minter's flag is set.
  pub mint_inner-Deposit :
      (minter amount : ℕ) (s t : State lib contracts)
      → mint_inner lib contracts ctx minter amount s ≡ ok (tt, t)
      → Deposit minter amount s t
  unfolding mint_inner principal_balance_of
  mint_inner-Deposit minter amount s t e =
      accrue_reward-elim lib contracts ctx _ s minter e λ w1 rewards k1.
        ok_or_throw-elim s.pool.controller controller_is_not_set _ k1 λ controller ec k2.
          ask_controller-elim lib contracts
            (λ w. contracts.mint_allowed w controller ctx.account_id minter amount) _ k2
            λ _ _ k3. assert_fresh-elim lib contracts ctx _ k3 λ fresh k4.
              view-elim (exchange_rate_stored lib contracts ctx) _ k4 λ rate er k5.
                transfer_underlying_from-elim lib contracts ctx _ _ ctx.caller ctx.account_id amount
                  k5
                  λ underlying eu w2 paid k6.
                    view-elim (λ _. mul256 amount exp_scale) _ k6
                      λ scaled es k7.
                        view-elim (λ _. div256 scaled rate) _ k7
                          λ quotient eq k8.
                            view-elim (λ _. as_u128 quotient) _ k8
                              λ minted em k9.
                                let c =
                                  credit-Credited minter minted
                                    (lib.balance_of s.token ctx.caller == 0) _
                                    (record s { world = w2 }) t k9 in
                                let (positive, value, fits) = minted_value amount rate es eq em in
                                record {
                                  rewarded = w1;
                                  rewards = rewards;
                                  fresh = fresh;
                                  rate = rate;
                                  rate_is = er;
                                  rate_positive = positive;
                                  underlying = underlying;
                                  underlying_is = eu;
                                  paid = paid ∙ ap (λ w. ok w) (sym c.world);
                                  credited =
                                      subst (λ n. lib.mint_to minter n s.token ≡ ok t.token) value
                                        c.tokens;
                                  fits = rw (sym value) fits;
                                  only_flags = c.only_flags;
                                  flags = c.flags;
                                }

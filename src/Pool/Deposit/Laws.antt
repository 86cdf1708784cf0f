-- ===== src/Pool/Deposit/Laws.antt =====
-- What a deposit is worth, to the depositor and to those who hold pool tokens already: `_mint` of
-- logics/impls/pool/mod.rs.
use mathlib.Core.Path.{subst}
use native.Mathlib.Nat.{div-mul-le_self, le-div_iff_mul-le}
use starlay_protocol_wasm.Prelude.{
  ℕ, ◌+◌, ◌-◌, ◌*◌, ◌/◌, ◌<◌, ◌≤◌, ◌≡◌, ◌≢◌, sym, ap, ◌∙◌, arith, some, ok, >>=-elim, ok-injective,
  some-injective,
}
use starlay_protocol_wasm.Words.{u128_mod, add128, add128_exact}
use starlay_protocol_wasm.Math.Exp.{exp_scale, exp, exp_ray_ratio}
use starlay_protocol_wasm.Pool.Errors.{Error}
use starlay_protocol_wasm.Pool.Environment.{TokenLibrary, Contracts, Context}
use starlay_protocol_wasm.Pool.State.{State}
use starlay_protocol_wasm.Pool.Scaled.{from_scaled_amount}
use starlay_protocol_wasm.Pool.Scaled.RoundTrip.{from_scaled_amount-IsNearest}
use starlay_protocol_wasm.Pool.Exchange.{exchange_rate}
use starlay_protocol_wasm.Pool.Exchange.Laws.{exchange_rate_value}
use starlay_protocol_wasm.Pool.Views.{
  exchange_rate_stored, total_borrows, total_reserves, get_cash_prior,
}
use starlay_protocol_wasm.Pool.Accrual.{accrue_reward}
use starlay_protocol_wasm.Pool.Lending.{mint_inner}
use starlay_protocol_wasm.Pool.Deposit.{Deposit, mint_inner-Deposit}

-- What a token of the standard PSP22 does, of the token library that keeps the pool tokens and of the
-- underlying token: minting adds to the supply, and a transfer from another account adds to the balance.
pub record CountsSupply (lib : TokenLibrary) : Type 0 where
  pub minted :
      (account amount : ℕ) (t u : lib.Token)
      → lib.mint_to account amount t ≡ ok u
      → lib.supply u ≡ add128 (lib.supply t) amount

pub record Credits {P : Type 0} (contracts : Contracts P) (account token : ℕ) : Type 0 where
  pub received :
      (spender sender value : ℕ) (w w' : contracts.World)
      → sender ≢ account
      → contracts.token_transfer_from token spender sender account value w ≡ ok w'
      → contracts.token_balance_of w' token account
        ≡ contracts.token_balance_of w token account + value

-- Tokens rounded down from a deposit at a rate are worth no more than the deposit at that rate.
minted-le :
    {E : Type 0} (amount rate : ℕ) {v : ℕ}
    → 0 < rate
    → from_scaled_amount {E = E} (amount * exp_scale / rate) (exp rate) ≡ ok v
    → v ≤ amount
minted-le {E} amount rate {v} h e =
    let minted = amount * exp_scale / rate in
    let near = from_scaled_amount-IsNearest {E = E} minted rate e in
    let covered : minted * rate ≤ amount * exp_scale = div-mul-le_self (amount * exp_scale) rate in
    let product : rate * exp_ray_ratio * minted ≡ exp_ray_ratio * (minted * rate) = omega arith in
    omega arith

-- Adding cash and tokens in the ratio of a rate rounded down does not lower the rate.
rate-le :
    (net supply amount rate : ℕ)
    → 0 < supply
    → rate ≡ net * exp_scale / supply
    → rate ≤ (net + amount) * exp_scale / (supply + amount * exp_scale / rate)
rate-le net supply amount rate h e =
    let minted = amount * exp_scale / rate in
    let old : rate * supply ≤ net * exp_scale = rw e (div-mul-le_self (net * exp_scale) supply) in
    let added : minted * rate ≤ amount * exp_scale = div-mul-le_self (amount * exp_scale) rate in
    let product : rate * (supply + minted) ≡ rate * supply + minted * rate = grind arith in
    (le-div_iff_mul-le (omega arith)).1 (omega arith)

module _ (lib : TokenLibrary) (contracts : Contracts lib.Psp22Error) (ctx : Context) where
  -- The parts of a stored exchange rate.
  exchange_rate_stored-eq-ok :
      {E : Type 0} (s : State lib contracts) {r : ℕ}
      → exchange_rate_stored lib contracts ctx {E = E} s ≡ ok r
      → (borrows : ℕ) × (reserves : ℕ) × (total_borrows {E = E} s.pool ≡ ok borrows)
        × (total_reserves {E = E} s.pool ≡ ok reserves)
        × (exchange_rate {E = E}
              (lib.supply s.token)
              (get_cash_prior lib contracts ctx s)
              borrows
              reserves
              s.pool.initial_exchange_rate_mantissa
            ≡ ok r)
  unfolding exchange_rate_stored
  exchange_rate_stored-eq-ok {E} s e = >>=-elim (total_borrows {E = E} s.pool) _ e λ borrows eb e1.
      >>=-elim (total_reserves {E = E} s.pool) _ e1
        λ reserves er e2. (borrows, reserves, eb, er, e2)

  -- A state in which the exchange rate is computed from tokens, and without wrapping around.
  pub record IsSound (s : State lib contracts) (borrows reserves room : ℕ) : Type 0 where
    pub has_tokens : 0 < lib.supply s.token
    pub borrows_are : total_borrows {E = Error lib.Psp22Error} s.pool ≡ ok borrows
    pub reserves_are : total_reserves {E = Error lib.Psp22Error} s.pool ≡ ok reserves
    pub covered : reserves ≤ get_cash_prior lib contracts ctx s + borrows
    pub fits : get_cash_prior lib contracts ctx s + borrows + room < u128_mod

  sound_rate :
      (s : State lib contracts) {borrows reserves room r : ℕ}
      → IsSound s borrows reserves room
      → exchange_rate_stored lib contracts ctx {E = Error lib.Psp22Error} s ≡ ok r
      → r
        ≡ (get_cash_prior lib contracts ctx s + borrows - reserves) * exp_scale / lib.supply s.token
  sound_rate s {borrows} {reserves} h e =
      let (b, c, eb, ec, value) = exchange_rate_stored-eq-ok s e in
      let known =
        exchange_rate_value {E = Error lib.Psp22Error} (lib.supply s.token)
          (get_cash_prior lib contracts ctx s) borrows reserves
          s.pool.initial_exchange_rate_mantissa h.has_tokens (omega (arith, h.fits)) h.covered in
      let same_borrows : b ≡ borrows = ok-injective (sym eb ∙ h.borrows_are) in
      let same_reserves : c ≡ reserves = ok-injective (sym ec ∙ h.reserves_are) in
      ok-injective (sym value ∙ rw (same_borrows, same_reserves) known)

  cash_value :
      (s : State lib contracts) (token : ℕ)
      → s.pool.underlying ≡ some token
      → get_cash_prior lib contracts ctx s ≡ contracts.token_balance_of s.world token ctx.account_id
  unfolding get_cash_prior
  cash_value s token h = rw h

  -- The deposit's changes to what the exchange rate is computed from.
  record Paid (amount minted : ℕ) (u t : State lib contracts) : Type 0 where
    pub cash : get_cash_prior lib contracts ctx t ≡ get_cash_prior lib contracts ctx u + amount
    pub supply : lib.supply t.token ≡ lib.supply u.token + minted
    pub borrows :
        total_borrows {E = Error lib.Psp22Error} t.pool
        ≡ total_borrows {E = Error lib.Psp22Error} u.pool
    pub reserves :
        total_reserves {E = Error lib.Psp22Error} t.pool
        ≡ total_reserves {E = Error lib.Psp22Error} u.pool

  Deposit-Paid :
      (minter amount token : ℕ) (s t : State lib contracts)
      (d : Deposit lib contracts ctx minter amount s t)
      → CountsSupply lib
      → Credits contracts ctx.account_id token
      → s.pool.underlying ≡ some token
      → ctx.caller ≢ ctx.account_id
      → lib.supply s.token + amount * exp_scale / d.rate < u128_mod
      → Paid amount (amount * exp_scale / d.rate) (record s { world = d.rewarded }) t
  unfolding total_borrows total_reserves
  Deposit-Paid minter amount token s t d counts credits eu other room =
      let minted = amount * exp_scale / d.rate in
      let same : d.underlying ≡ token = some-injective (sym d.underlying_is ∙ eu) in
      let still : t.pool.underlying ≡ some token = ap (λ p. p.underlying) d.only_flags ∙ eu in
      let paid =
        credits.received ctx.account_id ctx.caller amount d.rewarded t.world other
          (rw same at d.paid) in
      record {
        cash =
            cash_value t token still
            ∙ paid
            ∙ ap (λ n. n + amount) (sym (cash_value (record s { world = d.rewarded }) token eu));
        supply =
            counts.minted minter minted s.token t.token d.credited
            ∙ add128_exact (lib.supply s.token) minted room;
        borrows = ap (λ p. total_borrows {E = Error lib.Psp22Error} p) d.only_flags;
        reserves = ap (λ p. total_reserves {E = Error lib.Psp22Error} p) d.only_flags;
      }

  Paid-rate-le :
      (amount r r' borrows reserves : ℕ) (u t : State lib contracts)
      → Paid amount (amount * exp_scale / r) u t
      → IsSound u borrows reserves amount
      → exchange_rate_stored lib contracts ctx {E = Error lib.Psp22Error} u ≡ ok r
      → exchange_rate_stored lib contracts ctx {E = Error lib.Psp22Error} t ≡ ok r'
      → r ≤ r'
  Paid-rate-le amount r r' borrows reserves u t paid sound e f =
      let cash = get_cash_prior lib contracts ctx u in
      let after =
        sound_rate t {borrows = borrows} {reserves = reserves} {room = 0}
          (record {
            has_tokens = omega (arith, sound.has_tokens, paid.supply);
            borrows_are = paid.borrows ∙ sound.borrows_are;
            reserves_are = paid.reserves ∙ sound.reserves_are;
            covered = omega (arith, sound.covered, paid.cash);
            fits = omega (arith, sound.fits, paid.cash);
          })
          f in
      let less =
        rate-le (cash + borrows - reserves) (lib.supply u.token) amount r sound.has_tokens
          (sound_rate u sound e) in
      let net : cash + amount + borrows - reserves ≡ cash + borrows - reserves + amount =
        omega (arith, sound.covered) in
      rw (after, paid.cash, paid.supply, net) less

  -- A deposit of an account other than the pool, of a standard token, is fair to both sides. Take the
  -- exchange rate right behind the reward's call, with tokens in circulation, the reserves covered by cash
  -- and debt, and sums that fit in 128 bits. The minter is credited with the deposit at that rate, rounded
  -- down, which is worth at most the deposit, and the exchange rate of the holders is no lower after it.
  pub mint_inner_fair :
      (minter amount token r r' v borrows reserves : ℕ) (s u t : State lib contracts)
      → CountsSupply lib
      → Credits contracts ctx.account_id token
      → u.pool.underlying ≡ some token
      → ctx.caller ≢ ctx.account_id
      → accrue_reward lib contracts ctx minter s ≡ ok (tt, u)
      → exchange_rate_stored lib contracts ctx {E = Error lib.Psp22Error} u ≡ ok r
      → IsSound u borrows reserves amount
      → lib.supply u.token + amount * exp_scale / r < u128_mod
      → mint_inner lib contracts ctx minter amount s ≡ ok (tt, t)
      → from_scaled_amount {E = Error lib.Psp22Error} (amount * exp_scale / r) (exp r) ≡ ok v
      → exchange_rate_stored lib contracts ctx {E = Error lib.Psp22Error} t ≡ ok r'
      → (lib.mint_to minter (amount * exp_scale / r) u.token ≡ ok t.token) × (v ≤ amount) × (r ≤ r')
  mint_inner_fair minter amount token r r' v borrows reserves s u t counts credits eu other rewards
        er sound room e ev er' =
      let d = mint_inner-Deposit lib contracts ctx minter amount s t e in
      let w = d.rewarded in
      let same : u ≡ record s { world = w } =
        ap (λ x. x.1) (ok-injective (sym rewards ∙ d.rewards)) in
      let eu' : s.pool.underlying ≡ some token = ap (λ x. x.pool.underlying) (sym same) ∙ eu in
      let er0 =
        subst (λ x. exchange_rate_stored lib contracts ctx {E = Error lib.Psp22Error} x ≡ ok r) same
          er in
      let rate : d.rate ≡ r = ok-injective (sym d.rate_is ∙ er0) in
      let supplies : lib.supply s.token ≡ lib.supply u.token =
        ap (λ x. lib.supply x.token) (sym same) in
      let paid =
        Deposit-Paid minter amount token s t d counts credits eu' other
          (rw (rate, supplies) room) in
      let grown =
        Paid-rate-le amount r r' borrows reserves (record s { world = w }) t (rw rate at paid)
          (subst (λ x. IsSound x borrows reserves amount) same sound) er0 er' in
      let positive : 0 < r = subst (λ x. 0 < x) rate d.rate_positive in
      (
        subst (λ x. lib.mint_to minter (amount * exp_scale / r) x ≡ ok t.token)
            (ap (λ x. x.token) (sym same)) (rw rate at d.credited),
        minted-le amount r positive ev,
        grown,
      )

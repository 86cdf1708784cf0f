-- ===== src/FlashloanReceiver/Steps.antt =====
-- What the tokens, the receiver and the gateway do in a flash loan of one asset,
-- logics/impls/flashloan_receiver.rs and logics/impls/flashloan_gateway.rs.
use starlay_protocol_wasm.Prelude.{
  ℕ, ◌+◌, ◌-◌, ◌≤◌, ◌≡◌, ◌≢◌, refl, ap, ◌∙◌, arith, Bool, true, false, none, some, Option, List, [],
  ◌∷◌, ltb, ◌==◌, if◌then◌else◌, Outcome, ok, err, panic, map_err, >>=-elim, ok-injective,
  map_err-eq-ok,
}
use starlay_protocol_wasm.Words.{add128}
use starlay_protocol_wasm.FlashloanGateway
use starlay_protocol_wasm.FlashloanGateway.{Context, Contracts}
use starlay_protocol_wasm.FlashloanReceiver.{
  Data, Tokens, allow_return, take_premiums, execute_operation,
}

module _ {P : Type 0} (contracts : Contracts P)
    (balance_of : contracts.World → (token account : ℕ) → ℕ) where
  -- `value` of a token has gone from one account to another, and no other balance of it has changed.
  pub record Moved (token src dst value : ℕ) (w w' : contracts.World) : Type 0 where
    pub enough : value ≤ balance_of w token src
    pub balances :
        (account : ℕ)
        → balance_of w' token account ≡ (
            if account == dst
            then (if account == src
                then balance_of w token account - value
                else balance_of w token account)
              + value
            else if account == src
            then balance_of w token account - value
            else balance_of w token account)

  pub Moved-src :
      {token src dst value : ℕ} {w w' : contracts.World}
      → Moved token src dst value w w'
      → src ≢ dst
      → balance_of w token src ≡ balance_of w' token src + value
  Moved-src {token} {src} m d = ground (arith, m.balances src, m.enough)

  pub Moved-dst :
      {token src dst value : ℕ} {w w' : contracts.World}
      → Moved token src dst value w w'
      → src ≢ dst
      → balance_of w' token dst ≡ balance_of w token dst + value
  Moved-dst {dst} m d = ground (arith, m.balances dst)

  pub Moved-other :
      {token src dst value : ℕ} {w w' : contracts.World} (account : ℕ)
      → Moved token src dst value w w'
      → account ≢ src
      → account ≢ dst
      → balance_of w' token account ≡ balance_of w token account
  Moved-other account m d e = ground (arith, m.balances account)

  -- What the standard PSP22 says of a token's transfers and approvals, and what a pool's two messages do
  -- to the balances of its underlying token.
  pub record Lawful
      (approve : (token sender spender value : ℕ) → contracts.World → Outcome P contracts.World)
      (token market : ℕ) : Type 0 where
    pub transfers :
        (spender src dst value : ℕ) (w w' : contracts.World)
        → contracts.transfer_from token spender src dst value w ≡ ok w'
        → Moved token src dst value w w'
    pub approvals :
        (sender spender value : ℕ) (w w' : contracts.World)
        → approve token sender spender value w ≡ ok w'
        → (account : ℕ) → balance_of w' token account ≡ balance_of w token account
    pub lends :
        (sender receiver amount : ℕ) (w w' : contracts.World)
        → contracts.transfer_underlying market sender receiver amount w ≡ ok w'
        → Moved token market receiver amount w w'
    pub accrues :
        (sender : ℕ) (w w' : contracts.World)
        → contracts.accrue_interest market sender w ≡ ok w'
        → (account : ℕ) → balance_of w' token account ≡ balance_of w token account

-- What an answer `true` of the receiver to a loan of one asset means.
pub record Taken {P W : Type 0} (tokens : Tokens P W) (account asset amount premium initiator : ℕ)
    (w w' : W) : Type 0 where
  pub gateway : ℕ
  pub between : W
  pub taken : tokens.transfer_from asset account initiator account premium w ≡ ok between
  pub held : add128 amount premium ≤ tokens.balance_of between asset account
  pub approved : tokens.approve asset account gateway (add128 amount premium) between ≡ ok w'

-- A call of a token whose failure makes the answer `false`.
answered-eq-ok :
    {P W : Type 0} (o : Outcome P W) (f : W → Outcome (Unit {0}) (Bool × W)) (w : W) {w' : W}
    → ◌≡◌ {A = Outcome (Unit {0}) (Bool × W)}
        (elim o [ ok v ↦ f v | err x ↦ ok (false, w) | panic ↦ panic ])
        (ok (true, w'))
    → (v : W) × (o ≡ ok v) × (f v ≡ ok (true, w'))
answered-eq-ok (ok v) f w h = (v, refl, h)
answered-eq-ok (err x) f w h = absurd (ground arith)
answered-eq-ok panic f w h = absurd (ground arith)

-- A test whose failure makes the answer `false`.
passed-eq-ok :
    {W : Type 0} (b : Bool) (o : Outcome (Unit {0}) (Bool × W)) (w : W) {w' : W}
    → (if b then ok (false, w) else o) ≡ ok (true, w')
    → (b ≡ false) × (o ≡ ok (true, w'))
passed-eq-ok true o w h = absurd (ground arith)
passed-eq-ok false o w h = (refl, h)

gateway-eq-ok :
    {W : Type 0} (o : Option ℕ) (f : ℕ → Outcome (Unit {0}) (Bool × W)) (w : W) {w' : W}
    → ◌≡◌ {A = Outcome (Unit {0}) (Bool × W)}
        (elim o [ none ↦ ok (false, w) | some gateway ↦ f gateway ])
        (ok (true, w'))
    → (gateway : ℕ) × (f gateway ≡ ok (true, w'))
gateway-eq-ok none f w h = absurd (ground arith)
gateway-eq-ok (some gateway) f w h = (gateway, h)

pub execute_operation-Taken :
    {P W : Type 0} (tokens : Tokens P W) (account asset amount premium initiator : ℕ)
    (params : List ℕ) (r : Data) (w w' : W)
    → execute_operation tokens account r
        (asset ∷ [])
        (amount ∷ [])
        (premium ∷ [])
        initiator
        params
        w
      ≡ ok (true, w')
    → Taken tokens account asset amount premium initiator w w'
unfolding execute_operation take_premiums allow_return
execute_operation-Taken {W} tokens account asset amount premium initiator params r w w' e =
    let n = add128 amount premium in
    let done : W → Outcome (Unit {0}) (Bool × W) = λ v. ok (true, v) in
    let (_, h) = passed-eq-ok r.fail_execution _ w e in
    let (gateway, k) =
      gateway-eq-ok r.flashloan_gateway
        (λ g. take_premiums tokens account g initiator (asset ∷ []) (amount ∷ []) (premium ∷ []) w)
        w h in
    let (between, taken, l) =
      answered-eq-ok (tokens.transfer_from asset account initiator account premium w)
        (allow_return tokens account gateway asset n done) w k in
    let (enough, m) = passed-eq-ok (ltb (tokens.balance_of between asset account) n) _ between l in
    let (after, approved, final) =
      answered-eq-ok (tokens.approve asset account gateway n between) done between m in
    record {
      gateway = gateway;
      between = between;
      taken = taken;
      held = ground arith;
      approved = approved ∙ ground arith;
    }

-- The gateway's settling of one amount that is given back.
pub returned-eq-ok :
    {P : Type 0} (contracts : Contracts P) (d : FlashloanGateway.Data) (ctx : Context)
    (receiver : ℕ) (leg : FlashloanGateway.Leg) (w : contracts.World) {w' : contracts.World}
    → FlashloanGateway.settle_all contracts d ctx receiver (0 ∷ []) (leg ∷ []) w ≡ ok w'
    → (v : contracts.World) × (contracts.accrue_interest leg.market ctx.account_id w ≡ ok v)
      × (contracts.transfer_from leg.asset ctx.account_id receiver leg.market
            (add128 leg.amount leg.premium)
            v
          ≡ ok w')
unfolding FlashloanGateway.settle_all FlashloanGateway.settle
returned-eq-ok contracts d ctx receiver leg w e =
    >>=-elim (FlashloanGateway.settle contracts d ctx receiver 0 leg w) _ e λ u es done.
      >>=-elim
        (map_err FlashloanGateway.pool (contracts.accrue_interest leg.market ctx.account_id w)) _ es
        λ v accrued moved. (
          v,
          map_err-eq-ok FlashloanGateway.pool _ accrued,
          map_err-eq-ok FlashloanGateway.psp22 _ moved ∙ ap (λ x. ok x) (ok-injective done),
        )

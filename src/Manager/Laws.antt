-- ===== src/Manager/Laws.antt =====
-- The manager with the controller of this repository: what its role holders can do to the controller.
use starlay_protocol_wasm.Prelude.{
  ℕ, true, false, not, ◌≡◌, ◌⊎◌, inl, inr, refl, sym, ap, ◌∙◌, arith, Option, Outcome, ok, err,
  panic, fail_if, map_err, ◌>>=◌, >>=-elim, ok-injective, map_err-eq-ok,
}
use mathlib.Core.Path.{subst}
use starlay_protocol_wasm.Controller.Errors.{Error as ControllerError}
use starlay_protocol_wasm.Controller.Markets.{State as ControllerState}
use starlay_protocol_wasm.Controller.Markets.Calls.{Call as ControllerCall, run, History}
use starlay_protocol_wasm.Controller.Markets.Flags.{sets_flag, flags, run-KeepsFlags}
use starlay_protocol_wasm.Pool.Errors.{Error as PoolError}
use starlay_protocol_wasm.Manager.{
  Message, AccessControl, Contracts, State, role, perform, receive, access_control, controller,
  pool, send, send_pool,
}

-- The controller's answer without the unit that comes with it.
abbrev state_of :
    Outcome ControllerError (Unit {0} × ControllerState) → Outcome ControllerError ControllerState
state_of (ok (u, s)) = ok s
state_of (err e) = err e
state_of panic = panic

state_of-eq-ok :
    (o : Outcome ControllerError (Unit {0} × ControllerState)) {s : ControllerState}
    → state_of o ≡ ok s
    → o ≡ ok (tt, s)
state_of-eq-ok (ok (tt, t)) e = cc
state_of-eq-ok (err x) e = absurd (cc)
state_of-eq-ok panic e = absurd (cc)

-- The controller of this repository, and pools with a storage of their own. The controller's storage is that
-- of the one controller, and `price` is what its oracle answers.
module _ {P Pools : Type 0} (price : (oracle pool : ℕ) → Option ℕ)
    (set_factor reduce sweep : (pool sender n : ℕ) → Pools → Outcome (PoolError P) Pools) where
  abbrev on_pools :
      (Pools → Outcome (PoolError P) Pools)
      → ControllerState × Pools
      → Outcome (PoolError P) (ControllerState × Pools)
  on_pools f (c, p) = do p' ← f p; ok (c, p')

  abbrev pub joined : Contracts P
  joined = record {
    World = ControllerState × Pools;
    call_controller = λ c sender call w. do
      s ← state_of (run price sender call w.0)
      ok (s, w.1);
    set_reserve_factor_mantissa = λ pool sender n. on_pools (set_factor pool sender n);
    reduce_reserves = λ pool sender n. on_pools (reduce pool sender n);
    sweep_token = λ pool sender asset. on_pools (sweep pool sender asset);
  }

  module _ (access : AccessControl) (account_id : ℕ) where
    abbrev pub Global : Type 0
    Global = State access joined account_id

    -- Messages that accounts have sent to the manager with success.
    pub data Received (s : Global) : Global → Type 0 where
      here : Received s s
      received :
          {t u : Global} (caller : ℕ) (message : Message)
          → Received s t
          → receive access joined account_id caller message t ≡ ok u
          → Received s u

    -- One more call of the controller by the manager's account, or none.
    abbrev pub Sends : Global → Global → Type 0
    Sends s t =
        (t.world.0 ≡ s.world.0)
        ⊎ ((call : ControllerCall) × (sets_flag call ≡ false)
            × (run price account_id call s.world.0 ≡ ok (tt, t.world.0)))

    send-Sends :
        (call : ControllerCall) (s t : Global)
        → sets_flag call ≡ false
        → send access joined account_id call s ≡ ok t
        → Sends s t
    send-Sends call s t h e =
        >>=-elim
          (map_err controller (joined.call_controller s.manager.controller account_id call s.world))
          _ e
          λ w ew e1.
            >>=-elim (state_of (run price account_id call s.world.0)) _
              (map_err-eq-ok controller _ ew)
              λ c ec e2.
                let same : c ≡ t.world.0 =
                  ap (λ v. v.0) (ok-injective e2) ∙ ap (λ u. u.world.0) (ok-injective e1) in
                inr (
                  call,
                  h,
                  subst (λ v. run price account_id call s.world.0 ≡ ok (tt, v)) same
                      (state_of-eq-ok _ ec),
                )

    send_pool-Sends :
        (f : Pools → Outcome (PoolError P) Pools) (s t : Global)
        → send_pool access joined account_id (on_pools f) s ≡ ok t
        → Sends s t
    send_pool-Sends f s t e = >>=-elim (map_err pool (on_pools f s.world)) _ e λ w ew e1.
        >>=-elim (f s.world.1) _ (map_err-eq-ok pool _ ew) λ p ep e2.
          inl (sym (ap (λ v. v.0) (ok-injective e2) ∙ ap (λ u. u.world.0) (ok-injective e1)))

    perform-Sends :
        (message : Message) (s t : Global)
        → perform access joined account_id message s ≡ ok t
        → Sends s t
    unfolding perform sets_flag
    perform-Sends (Message.set_controller c) s t e =
        inl (sym (ap (λ u. u.world.0) (ok-injective e)))
    perform-Sends (Message.set_price_oracle o) s t e = send-Sends _ s t refl e
    perform-Sends (Message.set_flashloan_gateway g) s t e = send-Sends _ s t refl e
    perform-Sends (Message.support_market p u) s t e = send-Sends _ s t refl e
    perform-Sends (Message.support_market_with_collateral_factor_mantissa p u f) s t e =
        send-Sends _ s t refl e
    perform-Sends (Message.set_collateral_factor_mantissa p f) s t e = send-Sends _ s t refl e
    perform-Sends (Message.set_mint_guardian_paused p b) s t e = send-Sends _ s t refl e
    perform-Sends (Message.set_borrow_guardian_paused p b) s t e = send-Sends _ s t refl e
    perform-Sends (Message.set_close_factor_mantissa f) s t e = send-Sends _ s t refl e
    perform-Sends (Message.set_liquidation_incentive_mantissa f) s t e = send-Sends _ s t refl e
    perform-Sends (Message.set_borrow_cap p c) s t e = send-Sends _ s t refl e
    perform-Sends (Message.set_reserve_factor_mantissa p f) s t e =
        send_pool-Sends (set_factor p account_id f) s t e
    perform-Sends (Message.reduce_reserves p n) s t e =
        send_pool-Sends (reduce p account_id n) s t e
    perform-Sends (Message.sweep_token p a) s t e = send_pool-Sends (sweep p account_id a) s t e

    -- What a message that succeeds shows of its sender, and has done to the controller.
    pub record Authorised (caller : ℕ) (message : Message) (s t : Global) : Type 0 where
      pub holder : access.has_role (role message) caller ≡ true
      pub sends : Sends s t

    -- A message that succeeds came from a holder of its role. For the controller it was at most one call, by
    -- the manager's account, and not one of the two that pause seizing or transferring.
    pub receive-Authorised :
        (caller : ℕ) (message : Message) (s t : Global)
        → receive access joined account_id caller message s ≡ ok t
        → Authorised caller message s t
    unfolding receive
    receive-Authorised caller message s t e =
        >>=-elim
          (fail_if (not (access.has_role (role message) caller))
            (access_control access.missing_role))
          _ e λ _ er e1. record { holder = ground arith; sends = perform-Sends message s t e1 }

    -- Whatever accounts send to the manager, its messages that succeed are for the controller a history of
    -- calls, so that they keep it as well formed as such a history does.
    pub Received-History : (s t : Global) → Received s t → History s.world.0 t.world.0
    Received-History s t (Received.here) = History.here
    Received-History s u (Received.received {t} caller message before e) =
        elim (receive-Authorised caller message t u e).sends [
          | inl same ↦ subst (History s.world.0) (sym same) (Received-History s t before)
          | inr (call, h, er) ↦
              History.called price account_id call (Received-History s t before) er
        ]

    -- No message to the manager changes whether seizing or transferring is paused, whoever sends it: the
    -- manager passes neither of these two settings on.
    pub Received-flags : (s t : Global) → Received s t → flags t.world.0 ≡ flags s.world.0
    Received-flags s t (Received.here) = refl
    Received-flags s u (Received.received {t} caller message before e) =
        elim (receive-Authorised caller message t u e).sends [
          | inl same ↦ ap flags same ∙ Received-flags s t before
          | inr (call, h, er) ↦
              (run-KeepsFlags price account_id call h).at t.world.0 tt u.world.0 er
              ∙ Received-flags s t before
        ]

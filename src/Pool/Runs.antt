-- ===== src/Pool/Runs.antt =====
-- What a successful run of a pool's message has done, call by call: inversions of the calls that the
-- messages of logics/impls/pool/mod.rs are made of, with the state that each leaves.
use mathlib.Core.Path.{subst}
use starlay_protocol_wasm.Prelude.{
  ℕ, ◌≡◌, refl, ap, ◌∙◌, arith, Bool, false, ◌&&◌, some, ◌==◌, if◌then◌else◌, Outcome, ok, err,
  panic, map_err, map_err-eq-ok, xor, insert, true,
}
use starlay_protocol_wasm.Prelude.Actions.{
  gets, ok_or_throw, when, ◌>>=◌, ◌>>◌, bind-elim, view-elim, ok_or_throw-elim, throw_if-elim,
}
use starlay_protocol_wasm.Prelude.Steps.{
  Steps, IsPreorder, Steps-pure, Steps-gets, Steps-match, Steps-bind, steps_rules,
}
use starlay_protocol_wasm.Controller.Errors.{Error as ControllerError}
use starlay_protocol_wasm.Pool.Errors.{
  Error, controller, psp22, underlying_is_not_set, accrual_block_number_is_not_fresh,
}
use starlay_protocol_wasm.Pool.Environment.{TokenLibrary, Contracts, Context}
use starlay_protocol_wasm.Pool.State.{
  State, Event, Message, update, emit, on_token, on_world, ask_controller,
}
use starlay_protocol_wasm.Pool.Views.{using_reserve_as_collateral}
use starlay_protocol_wasm.Pool.Accrual.{
  accrue_reward, assert_fresh, transfer_underlying_from, transfer_underlying,
}
use starlay_protocol_wasm.Pool.Collateral.{set_collateral_flag}

module _ (lib : TokenLibrary) (contracts : Contracts lib.Psp22Error) where
  pub on_token-elim :
      {B C : Type 0} (g : lib.Token → Outcome lib.Psp22Error lib.Token)
      (f : Unit {0} → Message lib contracts B) {s : State lib contracts}
      {r : B × State lib contracts}
      → (on_token lib contracts g >>= f) s ≡ ok r
      → ((t : lib.Token) → g s.token ≡ ok t → f tt (record s { token = t }) ≡ ok r → C)
      → C
  on_token-elim {B} {C} g f {s} {r} e k = go (g s.token) refl e
    where
      go :
          (o : Outcome lib.Psp22Error lib.Token)
          → g s.token ≡ o
          → (on_token lib contracts (λ _. o) >>= f) s ≡ ok r
          → C
      go (ok t) p q = k t p q
      go (err x) p q = absurd (cc)
      go panic p q = absurd (cc)

  pub on_world-elim :
      {X B C : Type 0} (c : X → Error lib.Psp22Error)
      (g : contracts.World → Outcome X contracts.World) (f : Unit {0} → Message lib contracts B)
      {s : State lib contracts} {r : B × State lib contracts}
      → (on_world lib contracts c g >>= f) s ≡ ok r
      → ((w : contracts.World) → g s.world ≡ ok w → f tt (record s { world = w }) ≡ ok r → C)
      → C
  on_world-elim {X} {B} {C} c g f {s} {r} e k = go (g s.world) refl e
    where
      go :
          (o : Outcome X contracts.World)
          → g s.world ≡ o
          → (on_world lib contracts c (λ _. o) >>= f) s ≡ ok r
          → C
      go (ok w) p q = k w p q
      go (err x) p q = absurd (cc)
      go panic p q = absurd (cc)

  pub ask_controller-elim :
      {A B C : Type 0} (g : contracts.World → Outcome ControllerError A)
      (f : A → Message lib contracts B) {s : State lib contracts} {r : B × State lib contracts}
      → (ask_controller lib contracts g >>= f) s ≡ ok r
      → ((a : A) → g s.world ≡ ok a → f a s ≡ ok r → C)
      → C
  ask_controller-elim g f {s} e k =
      view-elim (λ u. map_err controller (g u.world)) f e
        λ a p q. k a (map_err-eq-ok controller (g s.world) p) q

module _ (lib : TokenLibrary) (contracts : Contracts lib.Psp22Error) (ctx : Context) where
  pub assert_fresh-elim :
      {B C : Type 0} (f : Unit {0} → Message lib contracts B) {s : State lib contracts}
      {r : B × State lib contracts}
      → (assert_fresh lib contracts ctx >>= f) s ≡ ok r
      → (s.pool.accrual_block_timestamp ≡ ctx.block_timestamp → f tt s ≡ ok r → C)
      → C
  unfolding assert_fresh
  assert_fresh-elim f {s} e k =
      throw_if-elim _ accrual_block_number_is_not_fresh f e λ b q. k (ground arith) q

  -- What a call of another contract has done, with no more to come.
  on_world-eq-ok :
      {X : Type 0} (c : X → Error lib.Psp22Error) (g : contracts.World → Outcome X contracts.World)
      (s t : State lib contracts)
      → on_world lib contracts c g s ≡ ok (tt, t)
      → (g s.world ≡ ok t.world) × (t ≡ record s { world = t.world })
  on_world-eq-ok c g s t e = (ground arith, ground arith)

  -- A call `moves` of the underlying token.
  abbrev Moved :
      (moves : (token : ℕ) → contracts.World → Outcome lib.Psp22Error contracts.World)
      → State lib contracts
      → State lib contracts
      → Type 0
  Moved moves s t =
      (token : ℕ) × (s.pool.underlying ≡ some token)
      × (moves token s.world ≡ ok t.world)
      × (t ≡ record s { world = t.world })

  token_call-Moved :
      (moves : (token : ℕ) → contracts.World → Outcome lib.Psp22Error contracts.World)
      (s t : State lib contracts)
      → (ok_or_throw s.pool.underlying underlying_is_not_set >>= λ token.
            on_world lib contracts psp22 (moves token))
          s
        ≡ ok (tt, t)
      → Moved moves s t
  token_call-Moved moves s t e =
      ok_or_throw-elim s.pool.underlying underlying_is_not_set
        (λ token. on_world lib contracts psp22 (moves token)) e
        λ token p q.
          let (moved, same) = on_world-eq-ok psp22 (moves token) s t q in (token, p, moved, same)

  abbrev OnlyWorld : State lib contracts → State lib contracts → Type 0
  OnlyWorld s t = t ≡ record s { world = t.world }

  OnlyWorld-pre : IsPreorder OnlyWorld
  OnlyWorld-pre = record { stay = λ s. refl; join = λ p q. cc }

  on_world-OnlyWorld :
      {X : Type 0} (c : X → Error lib.Psp22Error) (g : contracts.World → Outcome X contracts.World)
      → Steps OnlyWorld (on_world lib contracts c g)
  on_world-OnlyWorld c g = record { at = λ s b t e. (on_world-eq-ok c g s t e).1 }

  -- The reward's call leaves the pool and its tokens as they were.
  accrue_reward-OnlyWorld : (user : ℕ) → Steps OnlyWorld (accrue_reward lib contracts ctx user)
  unfolding accrue_reward
  accrue_reward-OnlyWorld user =
      Steps-bind OnlyWorld-pre (gets λ s. s.pool.incentives_controller) _
        (Steps-gets OnlyWorld-pre _)
        λ o.
          Steps-match OnlyWorld-pre o _ _ (Steps-pure OnlyWorld-pre tt)
            λ ic. search (steps_rules, OnlyWorld-pre, on_world-OnlyWorld) depth 20

  accrue_reward-eq-ok :
      (user : ℕ) (s t : State lib contracts)
      → accrue_reward lib contracts ctx user s ≡ ok (tt, t)
      → t ≡ record s { world = t.world }
  accrue_reward-eq-ok user s t e = (accrue_reward-OnlyWorld user).at s tt t e

  -- What is left to show behind a call that has changed the other contracts alone.
  abbrev pub Next :
      {B : Type 0} (f : Unit {0} → Message lib contracts B) (s : State lib contracts)
      (r : B × State lib contracts) (C : Type 0)
      → (contracts.World → Type 0)
      → Type 0
  Next f s r C P = (w : contracts.World) → P w → f tt (record s { world = w }) ≡ ok r → C

  module _ {B C : Type 0} (f : Unit {0} → Message lib contracts B) (s : State lib contracts)
      {r : B × State lib contracts} where
    world-elim :
        (t : State lib contracts) (P : contracts.World → Type 0)
        → t ≡ record s { world = t.world }
        → P t.world
        → f tt t ≡ ok r
        → Next f s r C P
        → C
    world-elim t P p h e k = k t.world h (subst (λ u. f tt u ≡ ok r) p e)

    pub transfer_underlying_from-elim :
        (sender receiver value : ℕ)
        → (transfer_underlying_from lib contracts ctx sender receiver value >>= f) s ≡ ok r
        → ((token : ℕ)
            → s.pool.underlying ≡ some token
            → Next f s r C (λ w.
              contracts.token_transfer_from token ctx.account_id sender receiver value s.world
              ≡ ok w))
        → C
    unfolding transfer_underlying_from
    transfer_underlying_from-elim sender receiver value e k =
        bind-elim (transfer_underlying_from lib contracts ctx sender receiver value) f {s = s} e
          λ _ t moves rest.
            let (token, p, moved, same) =
              token_call-Moved
                (λ u. contracts.token_transfer_from u ctx.account_id sender receiver value) s t
                moves in
            world-elim t _ same moved rest (k token p)

    pub transfer_underlying-elim :
        (receiver value : ℕ)
        → (transfer_underlying lib contracts ctx receiver value >>= f) s ≡ ok r
        → ((token : ℕ)
            → s.pool.underlying ≡ some token
            → Next f s r C
                (λ w. contracts.token_transfer token ctx.account_id receiver value s.world ≡ ok w))
        → C
    unfolding transfer_underlying
    transfer_underlying-elim receiver value e k =
        bind-elim (transfer_underlying lib contracts ctx receiver value) f {s = s} e
          λ _ t moves rest.
            let (token, p, moved, same) =
              token_call-Moved (λ u. contracts.token_transfer u ctx.account_id receiver value) s t
                moves in
            world-elim t _ same moved rest (k token p)

    pub accrue_reward-elim :
        (user : ℕ)
        → (accrue_reward lib contracts ctx user >>= f) s ≡ ok r
        → Next f s r C
            (λ w. accrue_reward lib contracts ctx user s ≡ ok (tt, record s { world = w }))
        → C
    accrue_reward-elim user e k =
        bind-elim (accrue_reward lib contracts ctx user) f {s = s} e λ _ t rewards rest.
          let same = accrue_reward-eq-ok user s t rewards in
          world-elim t
            (λ w. accrue_reward lib contracts ctx user s ≡ ok (tt, record s { world = w })) same
            (rewards ∙ ap (λ u. ok (tt, u)) same) rest k

  -- The storage with the flag of one user written, if `write` says so, and nothing else.
  pub record Flagged (write : Bool) (user : ℕ) (flag : Bool) (s t : State lib contracts)
      : Type 0 where
    pub only_pool : t ≡ record s { pool = t.pool; events = t.events }
    pub only_flags :
        t.pool ≡ record s.pool { using_reserve_as_collateral = t.pool.using_reserve_as_collateral }
    pub flags :
        (u : ℕ)
        → using_reserve_as_collateral t.pool u
          ≡ (if write && u == user then flag else using_reserve_as_collateral s.pool u)

  abbrev write_flag : (user : ℕ) (flag : Bool) → Message lib contracts (Unit {0})
  write_flag user flag = do
    update lib contracts λ d. record d {
      using_reserve_as_collateral = insert d.using_reserve_as_collateral user flag;
    }
    emit lib contracts (
        if flag
        then Event.reserve_used_as_collateral_enabled user
        else Event.reserve_used_as_collateral_disabled user)

  write_flag-Flagged :
      (user : ℕ) (flag : Bool) (s t : State lib contracts)
      → write_flag user flag s ≡ ok (tt, t)
      → Flagged true user flag s t
  unfolding using_reserve_as_collateral
  write_flag-Flagged user flag s t e = record {
    only_pool = ground arith;
    only_flags = ground arith;
    flags = λ u. ground arith;
  }

  kept-Flagged :
      (write : Bool) (user : ℕ) (flag : Bool) (s t : State lib contracts)
      → (write ≡ true → using_reserve_as_collateral s.pool user ≡ flag)
      → s ≡ t
      → Flagged write user flag s t
  kept-Flagged write user flag s t p same =
      subst (Flagged write user flag s) same
        (record { only_pool = refl; only_flags = refl; flags = λ u. ground arith })

  -- `if write { self._set_use_reserve_as_collateral(user, flag) }`
  pub when-set_collateral_flag-Flagged :
      (write : Bool) (user : ℕ) (flag : Bool) (s t : State lib contracts)
      → when write (set_collateral_flag lib contracts ctx user flag) s ≡ ok (tt, t)
      → Flagged write user flag s t
  unfolding set_collateral_flag xor
  when-set_collateral_flag-Flagged false user flag s t e =
      kept-Flagged false user flag s t (λ h. absurd (cc)) (cc)
  when-set_collateral_flag-Flagged true user flag s t e =
      go flag (using_reserve_as_collateral s.pool user) refl e
    where
      go :
          (flag current : Bool)
          → using_reserve_as_collateral s.pool user ≡ current
          → when (xor current flag) (write_flag user flag) s ≡ ok (tt, t)
          → Flagged true user flag s t
      go true true p q = kept-Flagged true user true s t (λ h. p) (cc)
      go false false p q = kept-Flagged true user false s t (λ h. p) (cc)
      go true false p q = write_flag-Flagged user true s t q
      go false true p q = write_flag-Flagged user false s t q

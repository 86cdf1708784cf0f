-- ===== src/Controller/Markets/Laws.antt =====
-- What the controller's messages keep, and whom they turn away, logics/impls/controller/mod.rs.
use starlay_protocol_wasm.Prelude.{
  ℕ, ◌<◌, ◌≤◌, ◌≡◌, ◌≢◌, refl, arith, Bool, true, false, ◌||◌, Option, some, none, List, [], ◌∷◌,
  ◌==◌, Mapping, insert, ok, err,
}
use starlay_protocol_wasm.Prelude.Actions.{◌>>◌}
use starlay_protocol_wasm.Prelude.Lists.{mem, distinct}
use starlay_protocol_wasm.Prelude.Steps.{Steps, IsPreorder, Steps-modify, Steps-then, steps_rules}
use starlay_protocol_wasm.Controller.Errors.{Error, caller_is_not_manager}
use starlay_protocol_wasm.Controller.Liquidity.{collateral_factor_max_mantissa}
use starlay_protocol_wasm.Controller.Markets.Calls.{Call, run, History}
use starlay_protocol_wasm.Controller.Markets.{
  Data, State, update, is_listed, push, assert_manager, store_collateral_factor, list_market,
  reset_borrow_cap, announce, support_market, support_market_with_collateral_factor_mantissa,
  set_collateral_factor_mantissa, set_price_oracle, set_flashloan_gateway, set_mint_guardian_paused,
  set_borrow_guardian_paused, set_seize_guardian_paused, set_transfer_guardian_paused,
  set_close_factor_mantissa, set_liquidation_incentive_mantissa, set_borrow_cap,
}

-- No market is listed twice; every listed market has its two pause flags; the pool of an underlying is
-- listed; a collateral factor is positive and within the maximum.
pub record Form (markets : List ℕ) (pairs factors : Mapping ℕ) (mint borrow : Mapping Bool)
    : Type 0 where
  pub once : distinct markets ≡ true
  pub mint_flag : (p : ℕ) → mem p markets ≡ true → mint p ≢ none
  pub borrow_flag : (p : ℕ) → mem p markets ≡ true → borrow p ≢ none
  pub paired : (u p : ℕ) → pairs u ≡ some p → mem p markets ≡ true
  pub bounded : (p f : ℕ) → factors p ≡ some f → (0 < f) × (f ≤ collateral_factor_max_mantissa)

abbrev pub WellFormed : Data → Type 0
WellFormed d =
    Form d.markets d.markets_pair d.collateral_factor_mantissa d.mint_guardian_paused
      d.borrow_guardian_paused

abbrev KeepsForm : State → State → Type 0
KeepsForm s t = WellFormed s.controller → WellFormed t.controller

KeepsForm-pre : IsPreorder KeepsForm
KeepsForm-pre = record { stay = λ s h. h; join = λ f g h. g (f h) }

mem-push : (x y : ℕ) (xs : List ℕ) → mem x (push xs y) ≡ (mem x xs || x == y)
unfolding mem
mem-push x y [] = ground arith
mem-push x y (z ∷ zs) = ground (arith, mem-push x y zs)

distinct-push :
    (y : ℕ) (xs : List ℕ) → distinct xs ≡ true → mem y xs ≡ false → distinct (push xs y) ≡ true
unfolding distinct mem
distinct-push y [] d h = refl
distinct-push y (z ∷ zs) d h = ground (arith, mem-push z y zs, distinct-push y zs)

Steps-update :
    (f : Data → Data)
    → ((d : Data) → WellFormed d → WellFormed (f d))
    → Steps {E = Error} KeepsForm (update f)
Steps-update f h = Steps-modify KeepsForm-pre _ λ s. h s.controller

module _ (price : (oracle pool : ℕ) → Option ℕ) (caller : ℕ) where
  listed_Form :
      (d : Data) (pool underlying : ℕ)
      → is_listed d pool ≡ false
      → WellFormed d
      → Form
          (push d.markets pool)
          (insert d.markets_pair underlying pool)
          d.collateral_factor_mantissa
          (insert d.mint_guardian_paused pool false)
          (insert d.borrow_guardian_paused pool false)
  unfolding is_listed
  listed_Form d pool underlying new h = record {
    once = distinct-push pool d.markets h.once new;
    mint_flag = λ p l e. ground (arith, mem-push p pool d.markets, h.mint_flag p);
    borrow_flag = λ p l e. ground (arith, mem-push p pool d.markets, h.borrow_flag p);
    paired = λ u p e. ground (arith, mem-push p pool d.markets, h.paired u p);
    bounded = h.bounded;
  }

  list_market-eq-ok :
      (pool underlying : ℕ) (s t : State)
      → list_market price caller pool underlying s ≡ ok (tt, t)
      → let d = s.controller in
        (is_listed d pool ≡ false)
        × (t.controller ≡ record d {
          markets = push d.markets pool;
          markets_pair = insert d.markets_pair underlying pool;
          mint_guardian_paused = insert d.mint_guardian_paused pool false;
          borrow_guardian_paused = insert d.borrow_guardian_paused pool false;
        })
  unfolding list_market
  list_market-eq-ok pool underlying s t e = ground arith

  list_market-KeepsForm :
      (pool underlying : ℕ) → Steps KeepsForm (list_market price caller pool underlying)
  list_market-KeepsForm pool underlying = record {
    at = λ s b t e h.
        let (new, written) = list_market-eq-ok pool underlying s t e in
        rw written (listed_Form s.controller pool underlying new h);
  }

  factor_Form :
      (d : Data) (pool f : ℕ)
      → 0 < f
      → f ≤ collateral_factor_max_mantissa
      → WellFormed d
      → Form d.markets d.markets_pair
          (insert d.collateral_factor_mantissa pool f)
          d.mint_guardian_paused
          d.borrow_guardian_paused
  factor_Form d pool f k l h = record {
    once = h.once;
    mint_flag = h.mint_flag;
    borrow_flag = h.borrow_flag;
    paired = h.paired;
    bounded = λ p g e. ground (arith, h.bounded p g);
  }

  store_collateral_factor-eq-ok :
      (pool f : ℕ) (s t : State)
      → store_collateral_factor price caller pool f s ≡ ok (tt, t)
      → let d = s.controller in
        (0 < f)
        × (f ≤ collateral_factor_max_mantissa)
        × (t.controller
            ≡ record d { collateral_factor_mantissa = insert d.collateral_factor_mantissa pool f })
  unfolding store_collateral_factor
  store_collateral_factor-eq-ok pool f s t e = ground arith

  store_collateral_factor-KeepsForm :
      (pool f : ℕ) → Steps KeepsForm (store_collateral_factor price caller pool f)
  store_collateral_factor-KeepsForm pool f = record {
    at = λ s b t e h.
        let (low, high, written) = store_collateral_factor-eq-ok pool f s t e in
        rw written (factor_Form s.controller pool f low high h);
  }

  assert_manager-KeepsForm : Steps KeepsForm (assert_manager price caller)
  unfolding assert_manager
  assert_manager-KeepsForm = search (steps_rules, KeepsForm-pre)

  mint_flag_Form :
      (d : Data) (pool : ℕ) (b : Bool)
      → WellFormed d
      → WellFormed (record d { mint_guardian_paused = insert d.mint_guardian_paused pool b })
  mint_flag_Form d pool b h = record {
    once = h.once;
    mint_flag = λ p l e. ground (arith, h.mint_flag p);
    borrow_flag = h.borrow_flag;
    paired = h.paired;
    bounded = h.bounded;
  }

  borrow_flag_Form :
      (d : Data) (pool : ℕ) (b : Bool)
      → WellFormed d
      → WellFormed (record d { borrow_guardian_paused = insert d.borrow_guardian_paused pool b })
  borrow_flag_Form d pool b h = record {
    once = h.once;
    mint_flag = h.mint_flag;
    borrow_flag = λ p l e. ground (arith, h.borrow_flag p);
    paired = h.paired;
    bounded = h.bounded;
  }

  -- A setter: the manager's check, then a write that keeps the invariant.
  setter :
      (f : Data → Data)
      → ((d : Data) → WellFormed d → WellFormed (f d))
      → Steps KeepsForm (assert_manager price caller >> update f)
  setter f h = Steps-then KeepsForm-pre _ _ assert_manager-KeepsForm (Steps-update f h)

  reset_borrow_cap-KeepsForm : (pool : ℕ) → Steps KeepsForm (reset_borrow_cap price caller pool)
  unfolding reset_borrow_cap
  reset_borrow_cap-KeepsForm pool = Steps-update _ λ d h. h

  announce-KeepsForm : (pool : ℕ) → Steps KeepsForm (announce price caller pool)
  unfolding announce
  announce-KeepsForm pool = Steps-modify KeepsForm-pre _ λ s h. h

  pub run-KeepsForm : (call : Call) → Steps KeepsForm (run price caller call)
  unfolding run support_market support_market_with_collateral_factor_mantissa
      set_collateral_factor_mantissa set_price_oracle set_flashloan_gateway set_mint_guardian_paused
      set_borrow_guardian_paused set_seize_guardian_paused set_transfer_guardian_paused
      set_close_factor_mantissa set_liquidation_incentive_mantissa set_borrow_cap
  run-KeepsForm (Call.support_market p u) = Steps-then KeepsForm-pre _ _ assert_manager-KeepsForm (
      Steps-then KeepsForm-pre _ _ (list_market-KeepsForm p u)
        (Steps-then KeepsForm-pre _ _ (reset_borrow_cap-KeepsForm p) (announce-KeepsForm p)))
  run-KeepsForm (Call.support_market_with_collateral_factor_mantissa p u f) =
      Steps-then KeepsForm-pre _ _ assert_manager-KeepsForm (
        Steps-then KeepsForm-pre _ _ (list_market-KeepsForm p u) (
          Steps-then KeepsForm-pre _ _ (store_collateral_factor-KeepsForm p f)
            (Steps-then KeepsForm-pre _ _ (reset_borrow_cap-KeepsForm p) (announce-KeepsForm p))))
  run-KeepsForm (Call.set_collateral_factor_mantissa p f) =
      Steps-then KeepsForm-pre _ _ assert_manager-KeepsForm (store_collateral_factor-KeepsForm p f)
  run-KeepsForm (Call.set_price_oracle o) = setter _ λ d h. h
  run-KeepsForm (Call.set_flashloan_gateway g) = setter _ λ d h. h
  run-KeepsForm (Call.set_mint_guardian_paused p b) = setter _ λ d h. mint_flag_Form d p b h
  run-KeepsForm (Call.set_borrow_guardian_paused p b) = setter _ λ d h. borrow_flag_Form d p b h
  run-KeepsForm (Call.set_seize_guardian_paused b) = setter _ λ d h. h
  run-KeepsForm (Call.set_transfer_guardian_paused b) = setter _ λ d h. h
  run-KeepsForm (Call.set_close_factor_mantissa f) = setter _ λ d h. h
  run-KeepsForm (Call.set_liquidation_incentive_mantissa f) = setter _ λ d h. h
  run-KeepsForm (Call.set_borrow_cap p c) = setter _ λ d h. h

-- In every history of a controller its lists and tables stay well formed: no market is listed twice, every
-- listed market has its two pause flags, the pool of an underlying is listed, and every collateral factor is
-- positive and within the maximum.
pub History-WellFormed :
    (s t : State) → History s t → WellFormed s.controller → WellFormed t.controller
History-WellFormed s t (History.here) h = h
History-WellFormed s u (History.called {t} price caller call before e) h =
    (run-KeepsForm price caller call).at t tt u e (History-WellFormed s t before h)

-- A caller other than the manager is turned away by every message of the controller that writes.
pub run_refuses :
    (price : (oracle pool : ℕ) → Option ℕ) (caller manager : ℕ) (call : Call) (s : State)
    → s.controller.manager ≡ some manager
    → caller ≢ manager
    → run price caller call s ≡ err caller_is_not_manager
unfolding run assert_manager support_market support_market_with_collateral_factor_mantissa
    set_collateral_factor_mantissa set_price_oracle set_flashloan_gateway set_mint_guardian_paused
    set_borrow_guardian_paused set_seize_guardian_paused set_transfer_guardian_paused
    set_close_factor_mantissa set_liquidation_incentive_mantissa set_borrow_cap
run_refuses price caller manager (Call.support_market p u) s m d = ground arith
run_refuses price caller manager (Call.support_market_with_collateral_factor_mantissa p u f) s m d =
    ground arith
run_refuses price caller manager (Call.set_collateral_factor_mantissa p f) s m d = ground arith
run_refuses price caller manager (Call.set_price_oracle o) s m d = ground arith
run_refuses price caller manager (Call.set_flashloan_gateway g) s m d = ground arith
run_refuses price caller manager (Call.set_mint_guardian_paused p b) s m d = ground arith
run_refuses price caller manager (Call.set_borrow_guardian_paused p b) s m d = ground arith
run_refuses price caller manager (Call.set_seize_guardian_paused b) s m d = ground arith
run_refuses price caller manager (Call.set_transfer_guardian_paused b) s m d = ground arith
run_refuses price caller manager (Call.set_close_factor_mantissa f) s m d = ground arith
run_refuses price caller manager (Call.set_liquidation_incentive_mantissa f) s m d = ground arith
run_refuses price caller manager (Call.set_borrow_cap p c) s m d = ground arith

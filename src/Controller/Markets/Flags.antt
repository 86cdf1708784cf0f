-- ===== src/Controller/Markets/Flags.antt =====
-- Which messages of the controller write the two flags that pause seizing and transferring.
use starlay_protocol_wasm.Prelude.{ℕ, ◌≡◌, refl, ◌∙◌, arith, Bool, true, false, Option}
use starlay_protocol_wasm.Prelude.Actions.{◌>>◌}
use starlay_protocol_wasm.Prelude.Steps.{Steps, IsPreorder, Steps-modify, Steps-then, steps_rules}
use starlay_protocol_wasm.Controller.Markets.Calls.{Call, run}
use starlay_protocol_wasm.Controller.Markets.{
  Data, State, update, assert_manager, store_collateral_factor, list_market, reset_borrow_cap,
  announce, support_market, support_market_with_collateral_factor_mantissa,
  set_collateral_factor_mantissa, set_price_oracle, set_flashloan_gateway, set_mint_guardian_paused,
  set_borrow_guardian_paused, set_close_factor_mantissa, set_liquidation_incentive_mantissa,
  set_borrow_cap,
}

unfoldable pub sets_flag : Call → Bool
sets_flag (Call.set_seize_guardian_paused b) = true
sets_flag (Call.set_transfer_guardian_paused b) = true
sets_flag _ = false

abbrev pub flags : State → Bool × Bool
flags s = (s.controller.seize_guardian_paused, s.controller.transfer_guardian_paused)

abbrev KeepsFlags : State → State → Type 0
KeepsFlags s t = flags t ≡ flags s

KeepsFlags-pre : IsPreorder KeepsFlags
KeepsFlags-pre = record { stay = λ s. refl; join = λ p q. q ∙ p }

module _ (price : (oracle pool : ℕ) → Option ℕ) (caller : ℕ) where
  assert_manager-KeepsFlags : Steps KeepsFlags (assert_manager price caller)
  unfolding assert_manager
  assert_manager-KeepsFlags = search (steps_rules, KeepsFlags-pre)

  store_collateral_factor-KeepsFlags :
      (pool factor : ℕ) → Steps KeepsFlags (store_collateral_factor price caller pool factor)
  unfolding store_collateral_factor
  store_collateral_factor-KeepsFlags pool factor = record { at = λ s b t e. ground arith }

  list_market-KeepsFlags :
      (pool underlying : ℕ) → Steps KeepsFlags (list_market price caller pool underlying)
  unfolding list_market
  list_market-KeepsFlags pool underlying = record { at = λ s b t e. ground arith }

  reset_borrow_cap-KeepsFlags : (pool : ℕ) → Steps KeepsFlags (reset_borrow_cap price caller pool)
  unfolding reset_borrow_cap
  reset_borrow_cap-KeepsFlags pool = Steps-modify KeepsFlags-pre _ λ s. refl

  announce-KeepsFlags : (pool : ℕ) → Steps KeepsFlags (announce price caller pool)
  unfolding announce
  announce-KeepsFlags pool = Steps-modify KeepsFlags-pre _ λ s. refl

  setter :
      (f : Data → Data)
      → ((d : Data)
          → ((f d).seize_guardian_paused ≡ d.seize_guardian_paused)
            × ((f d).transfer_guardian_paused ≡ d.transfer_guardian_paused))
      → Steps KeepsFlags (assert_manager price caller >> update f)
  setter f h =
      Steps-then KeepsFlags-pre _ _ assert_manager-KeepsFlags
        (Steps-modify KeepsFlags-pre _ λ s. let k = h s.controller in cc)

  -- Every other message leaves the two flags alone.
  pub run-KeepsFlags :
      (call : Call) → sets_flag call ≡ false → Steps KeepsFlags (run price caller call)
  unfolding sets_flag run support_market support_market_with_collateral_factor_mantissa
      set_collateral_factor_mantissa set_price_oracle set_flashloan_gateway set_mint_guardian_paused
      set_borrow_guardian_paused set_close_factor_mantissa set_liquidation_incentive_mantissa
      set_borrow_cap
  run-KeepsFlags (Call.support_market p u) h =
      Steps-then KeepsFlags-pre _ _ assert_manager-KeepsFlags (
        Steps-then KeepsFlags-pre _ _ (list_market-KeepsFlags p u)
          (Steps-then KeepsFlags-pre _ _ (reset_borrow_cap-KeepsFlags p) (announce-KeepsFlags p)))
  run-KeepsFlags (Call.support_market_with_collateral_factor_mantissa p u f) h =
      Steps-then KeepsFlags-pre _ _ assert_manager-KeepsFlags (
        Steps-then KeepsFlags-pre _ _ (list_market-KeepsFlags p u) (
          Steps-then KeepsFlags-pre _ _ (store_collateral_factor-KeepsFlags p f) (
            Steps-then KeepsFlags-pre _ _ (reset_borrow_cap-KeepsFlags p) (announce-KeepsFlags p))))
  run-KeepsFlags (Call.set_collateral_factor_mantissa p f) h =
      Steps-then KeepsFlags-pre _ _ assert_manager-KeepsFlags
        (store_collateral_factor-KeepsFlags p f)
  run-KeepsFlags (Call.set_price_oracle o) h = setter _ λ d. (refl, refl)
  run-KeepsFlags (Call.set_flashloan_gateway g) h = setter _ λ d. (refl, refl)
  run-KeepsFlags (Call.set_mint_guardian_paused p b) h = setter _ λ d. (refl, refl)
  run-KeepsFlags (Call.set_borrow_guardian_paused p b) h = setter _ λ d. (refl, refl)
  run-KeepsFlags (Call.set_seize_guardian_paused b) h = absurd (cc)
  run-KeepsFlags (Call.set_transfer_guardian_paused b) h = absurd (cc)
  run-KeepsFlags (Call.set_close_factor_mantissa f) h = setter _ λ d. (refl, refl)
  run-KeepsFlags (Call.set_liquidation_incentive_mantissa f) h = setter _ λ d. (refl, refl)
  run-KeepsFlags (Call.set_borrow_cap p c) h = setter _ λ d. (refl, refl)

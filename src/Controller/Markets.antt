-- ===== src/Controller/Markets.antt =====
-- The controller's storage and the messages by which its manager lists markets and sets limits,
-- logics/impls/controller/mod.rs, and the checks that read this storage alone.
pub mod Calls
pub mod Deployment
pub mod Flags
pub mod Laws
use starlay_protocol_wasm.Prelude.{
  ℕ, Bool, true, false, not, ◌||◌, Option, some, none, List, [], ◌∷◌, ◌++◌, ltb, ◌==◌, Mapping,
  insert,
}
use starlay_protocol_wasm.Prelude.Actions.{Action, throw_if, ok_or_throw, gets, modify, ◌>>=◌, ◌>>◌}
use starlay_protocol_wasm.Prelude.Lists.{mem}
use starlay_protocol_wasm.Controller.Errors.{
  Error, market_already_listed, price_error, caller_is_not_manager, invalid_collateral_factor,
  manager_is_not_set, oracle_is_not_set,
}
use starlay_protocol_wasm.Controller.Liquidity.{collateral_factor_max_mantissa}

pub record Data : Type 0 where
  pub markets : List ℕ
  -- from an underlying token to its pool
  pub markets_pair : Mapping ℕ
  pub collateral_factor_mantissa : Mapping ℕ
  pub mint_guardian_paused : Mapping Bool
  pub borrow_guardian_paused : Mapping Bool
  pub seize_guardian_paused : Bool
  pub transfer_guardian_paused : Bool
  pub oracle : Option ℕ
  pub close_factor_mantissa : ℕ
  pub liquidation_incentive_mantissa : ℕ
  pub borrow_caps : Mapping ℕ
  pub manager : Option ℕ
  pub flashloan_gateway : Option ℕ

-- The contract's storage, and the pools of its `MarketListed` events, the latest first.
pub record State : Type 0 where
  pub controller : Data
  pub listed : List ℕ

abbrev pub Message : Type 0
Message = Action State Error (Unit {0})

abbrev pub update : (Data → Data) → Message
update f = modify λ s. record s { controller = f s.controller }

unfoldable pub is_listed : Data → ℕ → Bool
is_listed d pool = mem pool d.markets

-- `None | Some(0)`
abbrev pub no_price : Option ℕ → Bool
no_price none = true
no_price (some p) = p == 0

-- `push` of the markets
abbrev push : List ℕ → ℕ → List ℕ
push xs x = xs ++ x ∷ []

-- The price oracle is another contract: `price` is its `get_underlying_price`.
module _ (price : (oracle pool : ℕ) → Option ℕ) (caller : ℕ) where
  unfoldable pub assert_manager : Message
  assert_manager = do
    manager ← ok_or_throw (← gets (λ s. s.controller.manager)) manager_is_not_set
    throw_if (not (caller == manager)) caller_is_not_manager

  -- `_set_collateral_factor_mantissa`
  unfoldable pub store_collateral_factor : (pool factor : ℕ) → Message
  store_collateral_factor pool factor = do
    throw_if (factor == 0 || ltb collateral_factor_max_mantissa factor) invalid_collateral_factor
    oracle ← ok_or_throw (← gets (λ s. s.controller.oracle)) oracle_is_not_set
    throw_if (no_price (price oracle pool)) price_error
    update λ d. record d {
      collateral_factor_mantissa = insert d.collateral_factor_mantissa pool factor;
    }

  -- `_support_market` up to the optional collateral factor, which ends with the borrow cap of 0.
  unfoldable pub list_market : (pool underlying : ℕ) → Message
  list_market pool underlying = do
    listed ← gets (λ s. is_listed s.controller pool)
    throw_if listed market_already_listed
    update λ d. record d {
      markets = push d.markets pool;
      markets_pair = insert d.markets_pair underlying pool;
      mint_guardian_paused = insert d.mint_guardian_paused pool false;
      borrow_guardian_paused = insert d.borrow_guardian_paused pool false;
    }

  unfoldable pub reset_borrow_cap : (pool : ℕ) → Message
  reset_borrow_cap pool = update λ d. record d { borrow_caps = insert d.borrow_caps pool 0 }

  unfoldable pub announce : (pool : ℕ) → Message
  announce pool = modify λ s. record s { listed = pool ∷ s.listed }

  unfoldable pub support_market : (pool underlying : ℕ) → Message
  support_market pool underlying = do
    assert_manager
    list_market pool underlying
    reset_borrow_cap pool
    announce pool

  unfoldable pub support_market_with_collateral_factor_mantissa :
      (pool underlying factor : ℕ) → Message
  support_market_with_collateral_factor_mantissa pool underlying factor = do
    assert_manager
    list_market pool underlying
    store_collateral_factor pool factor
    reset_borrow_cap pool
    announce pool

  unfoldable pub set_collateral_factor_mantissa : (pool factor : ℕ) → Message
  set_collateral_factor_mantissa pool factor = do
    assert_manager
    store_collateral_factor pool factor

  -- The setters that store their argument after the manager's check.
  unfoldable pub set_price_oracle : ℕ → Message
  set_price_oracle oracle = do assert_manager; update λ d. record d { oracle = some oracle }

  unfoldable pub set_flashloan_gateway : ℕ → Message
  set_flashloan_gateway g = do assert_manager; update λ d. record d { flashloan_gateway = some g }

  unfoldable pub set_mint_guardian_paused : (pool : ℕ) → Bool → Message
  set_mint_guardian_paused pool paused = do
    assert_manager
    update λ d. record d { mint_guardian_paused = insert d.mint_guardian_paused pool paused }

  unfoldable pub set_borrow_guardian_paused : (pool : ℕ) → Bool → Message
  set_borrow_guardian_paused pool paused = do
    assert_manager
    update λ d. record d { borrow_guardian_paused = insert d.borrow_guardian_paused pool paused }

  unfoldable pub set_seize_guardian_paused : Bool → Message
  set_seize_guardian_paused paused = do
    assert_manager
    update λ d. record d { seize_guardian_paused = paused }

  unfoldable pub set_transfer_guardian_paused : Bool → Message
  set_transfer_guardian_paused paused = do
    assert_manager
    update λ d. record d { transfer_guardian_paused = paused }

  unfoldable pub set_close_factor_mantissa : ℕ → Message
  set_close_factor_mantissa factor = do
    assert_manager
    update λ d. record d { close_factor_mantissa = factor }

  unfoldable pub set_liquidation_incentive_mantissa : ℕ → Message
  set_liquidation_incentive_mantissa incentive = do
    assert_manager
    update λ d. record d { liquidation_incentive_mantissa = incentive }

  unfoldable pub set_borrow_cap : (pool cap : ℕ) → Message
  set_borrow_cap pool cap = do
    assert_manager
    update λ d. record d { borrow_caps = insert d.borrow_caps pool cap }

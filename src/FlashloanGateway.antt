-- ===== src/FlashloanGateway.antt =====
-- The flash loan gateway, logics/impls/flashloan_gateway.rs and contracts/flashloan_gateway/lib.rs.
pub mod Laws
pub mod Tests
use starlay_protocol_wasm.Prelude.{
  ℕ, ◌*◌, ◌/◌, ◌%◌, Bool, true, false, not, Option, some, List, [], ◌∷◌, ◌==◌, Outcome, ok, panic,
  ok_or, map_err, unwrap, fail_if, ◌>>=◌, ◌>>◌,
}
use starlay_protocol_wasm.Words.{u128_mod, add128}
use starlay_protocol_wasm.Pool.Errors.{Error as PoolError}

pub record Data : Type 0 where
  pub flashloan_premium_total : ℕ
  pub controller : Option ℕ

-- `_initialize`, called by the constructor: a premium of 0.09 %.
unfoldable pub new : (controller : ℕ) → Data
new controller = record { flashloan_premium_total = 9; controller = some controller }

-- `Error` of logics/traits/flashloan_gateway.rs
pub data Error (P : Type 0) : Type 0 where
  inconsistent_flashloan_params invalid_flashloan_executor_return : Error P
  market_not_listed controller_is_not_set : Error P
  psp22 : P → Error P
  pool : PoolError P → Error P

pub record Context : Type 0 where
  pub caller : ℕ
  pub account_id : ℕ

-- The contracts that the gateway calls, with all their storage in `World`. The first account of a call is
-- the contract that is called, the second of a call that writes is the sender. The receiver of the loan is
-- anyone's contract.
pub record Contracts (P : Type 0) : Type 1 where
  pub World : Type 0
  pub market_of_underlying : World → (controller asset : ℕ) → Option ℕ
  pub transfer_underlying : (pool sender receiver amount : ℕ) → World → Outcome (PoolError P) World
  pub accrue_interest : (pool sender : ℕ) → World → Outcome (PoolError P) World
  pub borrow_for_flashloan : (pool sender borrower amount : ℕ) → World → Outcome (PoolError P) World
  pub transfer_from : (token sender src dst value : ℕ) → World → Outcome P World
  pub execute_operation :
      (receiver sender : ℕ) (assets amounts premiums : List ℕ) (initiator : ℕ) (params : List ℕ)
      → World
      → Outcome (Unit {0}) (Bool × World)

-- What the vectors of the call hold at one index, with the market and the premium that the first loop adds.
pub record Leg : Type 0 where
  pub asset : ℕ
  pub amount : ℕ
  pub market : ℕ
  pub premium : ℕ

-- `amounts[index] * flashloan_premium_total / 10000`
unfoldable pub premium_of : (amount total : ℕ) → ℕ
premium_of amount total = amount * total % u128_mod / 10000

unfoldable pub map_legs : (Leg → ℕ) → List Leg → List ℕ
map_legs f [] = []
map_legs f (leg ∷ legs) = f leg ∷ map_legs f legs

-- `assets.len() != amounts.len()`
unfoldable pub same_length : (assets amounts : List ℕ) → Bool
same_length [] [] = true
same_length (a ∷ assets) (n ∷ amounts) = same_length assets amounts
same_length [] (n ∷ amounts) = false
same_length (a ∷ assets) [] = false

module _ {P : Type 0} (contracts : Contracts P) (d : Data) (ctx : Context) where
  -- The first loop. An index out of range traps.
  unfoldable pub lend :
      (controller receiver : ℕ) (assets amounts : List ℕ)
      → contracts.World
      → Outcome (Error P) (List Leg × contracts.World)
  lend controller receiver [] amounts w = ok ([], w)
  lend controller receiver (asset ∷ assets) [] w = panic
  lend controller receiver (asset ∷ assets) (amount ∷ amounts) w = do
    market ← ok_or (contracts.market_of_underlying w controller asset) market_not_listed
    w1 ← map_err pool (contracts.transfer_underlying market ctx.account_id receiver amount w)
    (legs, w2) ← lend controller receiver assets amounts w1
    ok (
      record {
        asset = asset;
        amount = amount;
        market = market;
        premium = premium_of amount d.flashloan_premium_total;
      }
          ∷ legs,
      w2,
    )

  -- The body of the second loop; the mode 0 is `FlashLoanType::None`.
  unfoldable pub settle :
      (receiver mode : ℕ) → Leg → contracts.World → Outcome (Error P) contracts.World
  settle receiver mode leg w = elim (mode == 0) [
    | true ↦ do
      w1 ← map_err pool (contracts.accrue_interest leg.market ctx.account_id w)
      map_err psp22 (
          contracts.transfer_from leg.asset ctx.account_id receiver leg.market
            (add128 leg.amount leg.premium) w1)
    | false ↦
        map_err pool
          (contracts.borrow_for_flashloan leg.market ctx.account_id ctx.caller leg.amount w)
  ]

  unfoldable pub settle_all :
      (receiver : ℕ) (modes : List ℕ)
      → List Leg
      → contracts.World
      → Outcome (Error P) contracts.World
  settle_all receiver modes [] w = ok w
  settle_all receiver [] (leg ∷ legs) w = panic
  settle_all receiver (mode ∷ modes) (leg ∷ legs) w =
      settle receiver mode leg w >>= settle_all receiver modes legs

  -- The message `flashloan`
  unfoldable pub flashloan :
      (receiver : ℕ) (assets amounts modes params : List ℕ)
      → contracts.World
      → Outcome (Error P) contracts.World
  flashloan receiver assets amounts modes params w = do
    fail_if (not (same_length assets amounts)) inconsistent_flashloan_params
    controller ← ok_or d.controller controller_is_not_set
    (legs, w1) ← lend controller receiver assets amounts w
    (answer, w2) ← unwrap (
        contracts.execute_operation receiver ctx.account_id assets amounts
          (map_legs (λ leg. leg.premium) legs) ctx.caller params w1)
    fail_if (not answer) invalid_flashloan_executor_return
    settle_all receiver modes legs w2

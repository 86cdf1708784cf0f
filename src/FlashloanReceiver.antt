-- ===== src/FlashloanReceiver.antt =====
-- The flash loan receiver, logics/impls/flashloan_receiver.rs and
-- mocks/contracts/flashloan_receiver/lib.rs, and the gateway's other contracts with it among them.
pub mod Laws
pub mod Steps
pub mod Tests
use starlay_protocol_wasm.Prelude.{
  ℕ, Bool, true, false, Option, none, some, List, [], ◌∷◌, ltb, ◌==◌, if◌then◌else◌, Outcome, ok,
  err, panic, ◌>>=◌,
}
use starlay_protocol_wasm.Words.{add128}
use starlay_protocol_wasm.FlashloanGateway.{Contracts}

pub record Data : Type 0 where
  pub flashloan_gateway : Option ℕ
  -- for tests of the gateway
  pub fail_execution : Bool

-- `_initialize`, called by the constructor.
unfoldable pub new : (flashloan_gateway : ℕ) → Data
new flashloan_gateway = record {
  flashloan_gateway = some flashloan_gateway;
  fail_execution = false;
}

unfoldable pub set_fail_execution_transfer : Bool → Data → Data
set_fail_execution_transfer fail d = record d { fail_execution = fail }

-- The calls of tokens that the receiver makes; each token is another contract. The first account of a
-- call is the token, the second of a call that writes is the sender.
pub record Tokens (P W : Type 0) : Type 0 where
  pub transfer_from : (token sender src dst value : ℕ) → W → Outcome P W
  pub balance_of : W → (token account : ℕ) → ℕ
  pub approve : (token sender spender value : ℕ) → W → Outcome P W

module _ {P W : Type 0} (tokens : Tokens P W) (account_id : ℕ) where
  -- The rest of the loop's body, behind the transfer of the premium. A failed call of a token leaves the
  -- world as it was, and the loop answers `false`.
  unfoldable pub allow_return :
      (gateway asset amount_to_return : ℕ)
      → (rest : W → Outcome (Unit {0}) (Bool × W)) → W
      → Outcome (Unit {0}) (Bool × W)
  allow_return gateway asset amount_to_return rest w =
      if ltb (tokens.balance_of w asset account_id) amount_to_return
      then ok (false, w)
      else elim (tokens.approve asset account_id gateway amount_to_return w) [
        | ok w1 ↦ rest w1
        | err x ↦ ok (false, w)
        | panic ↦ panic
      ]

  -- The loop of `execute_operation`. An index out of range traps.
  unfoldable pub take_premiums :
      (gateway initiator : ℕ) (assets amounts premiums : List ℕ) → W → Outcome (Unit {0}) (Bool × W)
  take_premiums gateway initiator [] amounts premiums w = ok (true, w)
  take_premiums gateway initiator (asset ∷ assets) [] premiums w = panic
  take_premiums gateway initiator (asset ∷ assets) (amount ∷ amounts) [] w = panic
  take_premiums gateway initiator (asset ∷ assets) (amount ∷ amounts) (premium ∷ premiums) w =
      elim (tokens.transfer_from asset account_id initiator account_id premium w) [
        | ok w1 ↦
            allow_return gateway asset (add128 amount premium)
              (take_premiums gateway initiator assets amounts premiums) w1
        | err x ↦ ok (false, w)
        | panic ↦ panic
      ]

  unfoldable pub execute_operation :
      Data
      → (assets amounts premiums : List ℕ) (initiator : ℕ) (params : List ℕ) → W
      → Outcome (Unit {0}) (Bool × W)
  execute_operation d assets amounts premiums initiator params w =
      if d.fail_execution then ok (false, w) else elim d.flashloan_gateway [
        | none ↦ ok (false, w)
        | some gateway ↦ take_premiums gateway initiator assets amounts premiums w
      ]

-- The gateway's other contracts, with this receiver at the account `account_id`.
abbrev pub with_receiver :
    {P : Type 0} (contracts : Contracts P)
    → (balance_of : contracts.World → (token account : ℕ) → ℕ)
    → (approve : (token sender spender value : ℕ) → contracts.World → Outcome P contracts.World)
    → Data
    → (account_id : ℕ) → Contracts P
with_receiver contracts balance_of approve d account_id = record contracts {
  execute_operation = λ receiver sender assets amounts premiums initiator params w.
      if receiver == account_id
      then execute_operation
          (record {
            transfer_from = contracts.transfer_from;
            balance_of = balance_of;
            approve = approve;
          })
          account_id d assets amounts premiums initiator params w
      else contracts.execute_operation receiver sender assets amounts premiums initiator params w;
}

-- ===== src/Manager/Tests.antt =====
-- Runs of the manager over a controller, for contracts/manager/lib.rs.
use starlay_protocol_wasm.Prelude.{ℕ, ◌*◌, ◌^◌, ◌≡◌, refl, Option, Outcome, ok, ◌==◌, some}
use starlay_protocol_wasm.Prelude.Lists.{mem}
use starlay_protocol_wasm.Controller.Markets.{
  State, is_listed, assert_manager, list_market, store_collateral_factor, reset_borrow_cap,
  announce, support_market_with_collateral_factor_mantissa,
}
use starlay_protocol_wasm.Controller.Markets.Calls.{run, History}
use starlay_protocol_wasm.Controller.Markets.Flags.{flags}
use starlay_protocol_wasm.Controller.Tests.Markets.{start, one_market}
use starlay_protocol_wasm.Pool.Errors.{Error}
use starlay_protocol_wasm.Manager.{Message, AccessControl, role, perform, receive}
use starlay_protocol_wasm.Manager.Laws.{
  Global, Received, Authorised, receive-Authorised, Received-History, Received-flags,
}

-- Account 7 has every role.
abbrev access : AccessControl
access = record { AccessError = Unit {0}; has_role = λ r account. account == 7; missing_role = tt }

abbrev price : ℕ → ℕ → Option ℕ
price oracle pool = some 100

-- Pools without a storage, that accept every call.
abbrev call_pool : (pool sender n : ℕ) → Unit {0} → Outcome (Error (Unit {0})) (Unit {0})
call_pool pool sender n u = ok u

abbrev global : State → Global price call_pool call_pool call_pool access 1
global c = record { manager = record { controller = 30 }; world = (c, tt) }

abbrev listing : Message
listing = Message.support_market_with_collateral_factor_mantissa 10 20 (8 * 10 ^ 17)

listing-Received :
    Received price call_pool call_pool call_pool access 1 (global start) (global one_market)
unfolding receive role perform run support_market_with_collateral_factor_mantissa assert_manager
    list_market is_listed mem store_collateral_factor reset_borrow_cap announce
listing-Received = Received.received 7 listing Received.here refl

receive-Authorised_example :
    Authorised price call_pool call_pool call_pool access 1 7 listing
      (global start)
      (global one_market)
unfolding receive role perform run support_market_with_collateral_factor_mantissa assert_manager
    list_market is_listed mem store_collateral_factor reset_borrow_cap announce
receive-Authorised_example =
    receive-Authorised price call_pool call_pool call_pool access 1 7 listing (global start)
      (global one_market) refl

Received-History_example : History start one_market
Received-History_example =
    Received-History price call_pool call_pool call_pool access 1 (global start) (global one_market)
      listing-Received

Received-flags_example : flags one_market ≡ flags start
Received-flags_example =
    Received-flags price call_pool call_pool call_pool access 1 (global start) (global one_market)
      listing-Received

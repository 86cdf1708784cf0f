-- ===== src/Leverager/Looping.antt =====
-- Depositing and borrowing in turns, logics/impls/leverager.rs.
pub mod Legs
pub mod Laws
use starlay_protocol_wasm.Prelude.{
  ℕ, ◌*◌, ◌/◌, ◌%◌, true, false, ◌||◌, ltb, leb, ◌==◌, if◌then◌else◌, zero, suc, Outcome, ok, ok_or,
  map_err, fail_if, ◌>>=◌, ◌>>◌,
}
use starlay_protocol_wasm.Words.{u128_mod, u128_max}
use starlay_protocol_wasm.Leverager.Environment.{
  Data, Error, Context, Contracts, controller_is_not_set, market_not_listed,
  inappropriate_borrow_rate, inappropriate_loop_count, weth_is_not_set, pool, psp22,
}
use starlay_protocol_wasm.Leverager.Views.{loan_to_value}

-- `(next_deposit_amount * borrow_ratio) / 10000`
unfoldable pub next_amount : (amount borrow_ratio : ℕ) → ℕ
next_amount amount borrow_ratio = amount * borrow_ratio % u128_mod / 10000

module _ {P : Type 0} (contracts : Contracts P) (d : Data) (ctx : Context) where
  abbrev pub Call : Type 0
  Call = contracts.World → Outcome (Error P) contracts.World

  abbrev pub mint_to : (market amount : ℕ) → Call
  mint_to market amount w =
      map_err pool (contracts.mint_to market ctx.account_id ctx.caller amount w)

  abbrev pub borrow_for : (market amount : ℕ) → Call
  borrow_for market amount w =
      map_err pool (contracts.borrow_for market ctx.account_id ctx.caller amount w)

  -- The `for` of `_loop`, which ends early on a break, and gives the next amount too.
  unfoldable pub rounds :
      (market borrow_ratio : ℕ) (count next : ℕ)
      → contracts.World
      → Outcome (Error P) (ℕ × contracts.World)
  rounds market borrow_ratio zero next w = ok (next, w)
  rounds market borrow_ratio (suc count) next w = do
    w1 ← mint_to market next w
    let next' = next_amount next borrow_ratio
    elim (next' == 0) [
      | true ↦ ok (next', w1)
      | false ↦ do w2 ← borrow_for market next' w1; rounds market borrow_ratio count next' w2
    ]

  -- `_loop`
  unfoldable pub loop : (asset amount borrow_ratio loop_count : ℕ) → Call
  loop asset amount borrow_ratio loop_count w = do
    controller ← ok_or d.controller controller_is_not_set
    market ← ok_or (contracts.market_of_underlying w controller asset) market_not_listed
    (next, w') ← rounds market borrow_ratio loop_count amount w
    if next == 0 then ok w' else mint_to market next w'

  -- The two tests that `_loop_asset` and `_loop_eth` begin with.
  unfoldable pub check_arguments :
      contracts.World → (asset borrow_ratio loop_count : ℕ) → Outcome (Error P) (Unit {0})
  check_arguments w asset borrow_ratio loop_count = do
    ltv ← loan_to_value contracts d w asset
    fail_if (leb borrow_ratio 0 || ltb ltv borrow_ratio) inappropriate_borrow_rate
    fail_if (ltb loop_count 2 || ltb 40 loop_count) inappropriate_loop_count

  unfoldable pub loop_asset : (asset amount borrow_ratio loop_count : ℕ) → Call
  loop_asset asset amount borrow_ratio loop_count w = do
    check_arguments w asset borrow_ratio loop_count
    w1 ←
        map_err psp22
          (contracts.transfer_from asset ctx.account_id ctx.caller ctx.account_id amount w)
    controller ← ok_or d.controller controller_is_not_set
    market ← ok_or (contracts.market_of_underlying w1 controller asset) market_not_listed
    w2 ← map_err psp22 (contracts.approve asset ctx.account_id market u128_max w1)
    loop asset amount borrow_ratio loop_count w2

  unfoldable pub loop_eth : (borrow_ratio loop_count : ℕ) → Call
  loop_eth borrow_ratio loop_count w = do
    weth ← ok_or d.weth weth_is_not_set
    check_arguments w weth borrow_ratio loop_count
    let amount = ctx.transferred_value
    controller ← ok_or d.controller controller_is_not_set
    market ← ok_or (contracts.market_of_underlying w controller weth) market_not_listed
    w1 ← map_err psp22 (contracts.weth_deposit weth ctx.account_id amount w)
    w2 ← map_err psp22 (contracts.approve weth ctx.account_id market u128_max w1)
    loop weth amount borrow_ratio loop_count w2

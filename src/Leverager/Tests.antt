-- ===== src/Leverager/Tests.antt =====
-- Runs of the leverager on a world with one pool, for logics/impls/leverager.rs.
use starlay_protocol_wasm.Prelude.{
  ℕ, ◌+◌, ◌-◌, ◌*◌, ◌^◌, ◌≤◌, ◌<◌, ◌≡◌, refl, arith, ◌==◌, if◌then◌else◌, some, none, ok, panic,
}
use starlay_protocol_wasm.Words.{mul256, div256, sub256, as_u128, sub128}
use starlay_protocol_wasm.Math.Percent.{percent_mul}
use starlay_protocol_wasm.Math.WadRay.{wad_div}
use starlay_protocol_wasm.Controller.Account.{AccountData}
use starlay_protocol_wasm.Controller.Errors.{Error}
use starlay_protocol_wasm.Controller.Health.{calculate_health_factor_from_balances}
use starlay_protocol_wasm.Leverager.Environment.{Data, Context, Contracts}
use starlay_protocol_wasm.Leverager.Views.{
  Withdrawable, health_factor_limit, health_after, shrink, liquidation_threshold, loan_to_value,
  get_health_factor, withdrawable, withdrawable_amount,
}
use starlay_protocol_wasm.Leverager.Views.Laws.Searching.{search_ends, search_traps}
use starlay_protocol_wasm.Leverager.Views.Laws.Withdrawing.{Fits, withdrawable-Fits}
use starlay_protocol_wasm.Leverager.Looping.{next_amount, rounds, loop, check_arguments, loop_asset}
use starlay_protocol_wasm.Leverager.Looping.Laws.{Entered, loop_asset-Entered, loop_asset-le}
use starlay_protocol_wasm.Leverager.Closing.{move_back, close_rounds, close}
use starlay_protocol_wasm.Leverager.Closing.Laws.{Closed, close-Closed}

-- The deposit and the debt of account 5 in pool 10.
record World : Type 0 where
  deposit : ℕ
  debt : ℕ

abbrev world : ℕ → ℕ → World
world deposit debt = record { deposit = deposit; debt = debt }

abbrev account_data : World → AccountData
account_data w = record {
  total_collateral_in_base_currency = w.deposit;
  total_debt_in_base_currency = w.debt;
  avg_ltv = 8 * 10 ^ 17;
  avg_liquidation_threshold = 8500;
  health_factor = 0;
}

abbrev contracts : Contracts (Unit {0})
contracts = record {
  World = World;
  calculate_user_account_data = λ w controller account. ok (account_data w);
  market_of_underlying = λ w controller asset. some 10;
  collateral_factor_mantissa = λ w controller pool. some (8 * 10 ^ 17);
  get_price = λ w oracle asset. some (10 ^ 18);
  transfer_from = λ token sender src dst value w.
      ok (if token == 10 then record w { deposit = w.deposit - value } else w);
  approve = λ token sender spender value w. ok w;
  weth_deposit = λ weth sender value w. ok w;
  liquidation_threshold = λ w pool. 8500;
  mint_to = λ pool sender account amount w. ok (record w { deposit = w.deposit + amount });
  borrow_for = λ pool sender borrower amount w. ok (record w { debt = w.debt + amount });
  redeem = λ pool sender tokens w. ok w;
  repay_borrow_behalf = λ pool sender borrower amount w. ok (record w { debt = w.debt - amount });
  borrow_balance_current = λ pool account w. ok (w.debt, w);
}

abbrev data' : Data
data' = record { controller = some 2; weth = none; price_oracle = some 3; manager = some 1 }

abbrev ctx : Context
ctx = record { caller = 5; account_id = 30; transferred_value = 0 }

-- With a deposit of 1000 and a loan of 500 the search goes from 411 to 390.
abbrev found : Withdrawable
found = record {
  total_collateral_in_base_currency = 1000;
  total_debt_in_base_currency = 500;
  current_liquidation_threshold = 8500;
  afford_in_base_currency = 3500000;
  withdrawable_collateral_in_base_currency = 411;
  withdrawable_collateral = 411;
  withdraw_amount = 390;
}

withdrawable-Fits_example : Fits contracts data' (world 1000 500) 5 20 found
unfolding withdrawable get_health_factor liquidation_threshold health_after shrink mul256 div256
    sub256 as_u128 calculate_health_factor_from_balances percent_mul wad_div
withdrawable-Fits_example = withdrawable-Fits contracts data' (world 1000 500) 10 5 20 refl

search_ends_example :
    (v : ℕ) × (shrink
        (get_health_factor contracts data' (world 1000 500) {E = Error} 5 20)
        411
        411
        1002000000000000000
      ≡ ok v)
    × (v ≤ 411)
    × (j : ℕ) × (get_health_factor contracts data' (world 1000 500) {E = Error} 5 20 v ≡ ok j)
    × (health_factor_limit < j)
unfolding get_health_factor liquidation_threshold health_after mul256 div256 sub256
    calculate_health_factor_from_balances percent_mul wad_div
search_ends_example =
    search_ends contracts data' (world 1000 500) 411 5 20 2 3 (10 ^ 18) 411 (17 * 10 ^ 17)
      1002000000000000000 refl refl refl refl (omega arith) refl (omega arith) refl (omega arith)
      (omega arith)

-- A deposit of 1000 and a loan of 845 have a health factor of about 1.006.
search_traps_example :
    shrink
      (get_health_factor contracts data' (world 1000 845) {E = Error} 5 20)
      1000
      5
      1001183431952662722
    ≡ panic
unfolding get_health_factor liquidation_threshold health_after mul256 div256 sub256
    calculate_health_factor_from_balances percent_mul wad_div
search_traps_example =
    search_traps contracts data' (world 1000 845) 1000 5 20 2 3 (10 ^ 18) 5 1005917159763313609
      1001183431952662722 refl refl refl refl (omega arith) (omega arith) (omega arith) refl
      (omega arith) refl (omega arith)

-- 1000 at a ratio of one half, in three rounds.
loop_asset-Entered_example : Entered contracts data' ctx 20 1000 5000 3 (world 0 0) (world 1875 875)
unfolding loop_asset loop rounds check_arguments next_amount loan_to_value mul256 div256 as_u128
loop_asset-Entered_example = loop_asset-Entered contracts data' ctx 20 1000 5000 3 (world 0 0) refl

loop_asset-le_example :
    (entered : Entered contracts data' ctx 20 1000 5000 3 (world 0 0) (world 1875 875))
    × (entered.leveraged.deposited ≤ 10 * 1000)
unfolding loop_asset loop rounds check_arguments next_amount loan_to_value mul256 div256 as_u128
loop_asset-le_example =
    loop_asset-le contracts data' ctx 20 1000 5000 3 (world 0 0) (λ c m f e. ground arith) refl

close-Closed_example : Closed contracts data' ctx 20 (world 1000 500) (world 500 0)
unfolding close close_rounds move_back withdrawable_amount withdrawable get_health_factor
    liquidation_threshold health_after shrink mul256 div256 sub256 sub128 as_u128
    calculate_health_factor_from_balances percent_mul wad_div
close-Closed_example = close-Closed contracts data' ctx 100 50 20 (world 1000 500) refl

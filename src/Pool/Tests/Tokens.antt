-- ===== src/Pool/Tests/Tokens.antt =====
-- A deposit and a redemption of a pool with 1000 tokens worth three units each, for
-- logics/impls/pool/mod.rs.
use starlay_protocol_wasm.Prelude.{
  ℕ, ◌+◌, ◌-◌, ◌*◌, ◌≤◌, ◌≡◌, refl, arith, Bool, true, false, none, some, [], ◌∷◌, ltb, ◌==◌,
  if◌then◌else◌, insert, ok, err, xor,
}
use starlay_protocol_wasm.Words.{add128, sub128, mul256, div256, as_u128}
use starlay_protocol_wasm.Math.Exp.{exp_scale, to_ray}
use starlay_protocol_wasm.Math.WadRay.{ray_div, ray_mul}
use starlay_protocol_wasm.Pool.Environment.{TokenLibrary, Contracts, Context}
use starlay_protocol_wasm.Pool.State.{State, Event}
use starlay_protocol_wasm.Pool.Scaled.{scaled_amount_of, from_scaled_amount}
use starlay_protocol_wasm.Pool.Exchange.{exchange_rate}
use starlay_protocol_wasm.Pool.Views.{
  using_reserve_as_collateral, get_account_snapshot, exchange_rate_stored, pool_attributes,
  get_cash_prior, borrow_balance_stored, total_borrows, total_reserves, balance_of,
  principal_balance_of,
}
use starlay_protocol_wasm.Pool.Accrual.{
  accrue_reward, assert_fresh, transfer_underlying, transfer_underlying_from,
}
use starlay_protocol_wasm.Pool.Collateral.{set_collateral_flag}
use starlay_protocol_wasm.Pool.Lending.{mint_inner, consent_to_redeem, redeem_checked, redeem_inner}
use starlay_protocol_wasm.Pool.Deposit.{Deposit, mint_inner-Deposit}
use starlay_protocol_wasm.Pool.Deposit.Laws.{CountsSupply, Credits, mint_inner_fair}
use starlay_protocol_wasm.Pool.Redemption.Laws.{Redeems, redeem_inner-Redeems, redeem_inner_dust}
use starlay_protocol_wasm.Pool.Tests.World.{lib, set_balance, pool_data, ctx}

-- The token book with a supply that wraps around as the library's does.
abbrev tokens : TokenLibrary
tokens = record lib {
  mint_to = λ u n t. ok (record {
    total = add128 t.total n;
    balances = set_balance u (add128 (t.balances u) n) t.balances;
  });
}

-- A world that is the pool's cash, and contracts that allow everything.
abbrev pub bank : Contracts Bool
bank = record {
  World = ℕ;
  token_balance_of = λ w t u. w;
  token_transfer = λ t s r n w. if ltb w n then err false else ok (w - n);
  token_transfer_from = λ t p s r n w. ok (w + n);
  get_borrow_rate = λ w m c b r. ok 1000000000;
  handle_action = λ c u td tb d b w. ok w;
  mint_allowed = λ w c p m n. ok tt;
  redeem_allowed = λ w c p r n a. ok tt;
  borrow_allowed = λ w c p b n a. ok tt;
  repay_borrow_allowed = λ w c p y b n. ok tt;
  liquidate_borrow_allowed = λ w c p q l b n a. ok tt;
  seize_allowed = λ w c p q l b n. ok tt;
  transfer_allowed = λ w c p s d n a. ok tt;
  liquidate_calculate_seize_tokens = λ w c p q e n a b. ok n;
  balance_decrease_allowed = λ w c a u n. ok tt;
  flashloan_gateway = λ w c. some 77;
  accrue_interest = λ p w. ok w;
  seize = λ p s l b n w. ok w;
  get_accrual_block_timestamp = λ w p. 0;
  exchange_rate_stored = λ w p. ok exp_scale;
  underlying = λ w p. some p;
  token_decimals = λ w p. 6;
}

abbrev before : State tokens bank
before = record {
  pool = record pool_data { using_reserve_as_collateral = λ u. some (u == 5) };
  token = record { total = 1000; balances = λ u. if u == 5 then 1000 else 0 };
  name = none;
  symbol = none;
  decimals = 6;
  world = 2500;
  events = [];
}

-- Account 6, which has no tokens, pays 100 for account 7.
abbrev payer : Context
payer = record ctx { caller = 6 }

abbrev deposited : State tokens bank
deposited = record before {
  pool = record before.pool {
    using_reserve_as_collateral = insert before.pool.using_reserve_as_collateral 7 true;
  };
  token = record { total = 1033; balances = set_balance 7 33 before.token.balances };
  world = 2600;
  events = Event.mint 7 100 33 ∷ Event.reserve_used_as_collateral_enabled 7 ∷ [];
}

deposit_run : mint_inner tokens bank payer 7 100 before ≡ ok (tt, deposited)
unfolding mint_inner accrue_reward assert_fresh exchange_rate_stored total_borrows total_reserves
    exchange_rate get_cash_prior transfer_underlying_from principal_balance_of set_collateral_flag
    using_reserve_as_collateral from_scaled_amount to_ray ray_mul add128 sub128 mul256 div256
    as_u128 xor
deposit_run = refl

mint_inner-Deposit_example : Deposit tokens bank payer 7 100 before deposited
mint_inner-Deposit_example = mint_inner-Deposit tokens bank payer 7 100 before deposited deposit_run

tokens-CountsSupply : CountsSupply tokens
tokens-CountsSupply = record { minted = λ account amount t u e. ground arith }

bank-Credits : Credits bank 10 20
bank-Credits = record { received = λ spender sender value w v other e. ground arith }

mint_inner_fair_example :
    (tokens.mint_to 7 33 before.token ≡ ok deposited.token)
    × (◌≤◌ 99 100)
    × (◌≤◌ (3 * exp_scale) 3000968054211035818)
unfolding accrue_reward exchange_rate_stored total_borrows total_reserves exchange_rate
    get_cash_prior from_scaled_amount to_ray ray_mul add128 sub128 mul256 div256 as_u128
mint_inner_fair_example =
    mint_inner_fair tokens bank payer 7 100 20 (3 * exp_scale) 3000968054211035818 99 500 0 before
      before deposited tokens-CountsSupply bank-Credits refl (λ e. absurd (omega arith)) refl refl
      (record {
        has_tokens = omega arith;
        borrows_are = refl;
        reserves_are = refl;
        covered = omega arith;
        fits = omega arith;
      })
      (omega arith) deposit_run refl refl

-- One unit is worth a third of a token.
abbrev dusted : State tokens bank
dusted = record before {
  token = record { total = 1000; balances = set_balance 5 1000 before.token.balances };
  world = 2499;
  events = Event.redeem 5 1 ∷ [];
}

dust_run : redeem_inner tokens bank ctx 5 1 before ≡ ok (tt, dusted)
unfolding redeem_inner redeem_checked consent_to_redeem accrue_reward assert_fresh
    get_account_snapshot using_reserve_as_collateral exchange_rate_stored exchange_rate
    pool_attributes get_cash_prior transfer_underlying borrow_balance_stored total_borrows
    total_reserves balance_of principal_balance_of set_collateral_flag scaled_amount_of
    from_scaled_amount to_ray ray_div ray_mul add128 sub128 mul256 div256 as_u128
dust_run = refl

redeem_inner-Redeems_example : Redeems tokens bank ctx 5 1 before dusted
unfolding accrue_reward
redeem_inner-Redeems_example =
    redeem_inner-Redeems tokens bank ctx 5 1 before before dusted refl dust_run

redeem_inner_dust_example :
    (tokens.burn_from 5 0 before.token ≡ ok dusted.token)
    × (token : ℕ) × (before.pool.underlying ≡ some token)
    × (bank.token_transfer token 10 5 1 2500 ≡ ok 2499)
unfolding accrue_reward exchange_rate_stored total_borrows total_reserves exchange_rate
    get_cash_prior from_scaled_amount to_ray ray_mul add128 sub128 mul256 div256 as_u128
    using_reserve_as_collateral
redeem_inner_dust_example =
    redeem_inner_dust tokens bank ctx 5 1 (3 * exp_scale) before before dusted refl refl refl
      (omega arith) (omega arith) dust_run

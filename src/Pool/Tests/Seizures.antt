-- ===== src/Pool/Tests/Seizures.antt =====
-- A seizure in a pool with 1000 tokens worth three units each, for logics/impls/pool/mod.rs.
use starlay_protocol_wasm.Prelude.{
  ◌-◌, refl, arith, none, [], ◌∷◌, ltb, ◌==◌, if◌then◌else◌, ok, err, false,
}
use starlay_protocol_wasm.Words.{add128, sub128, sub256, mul256, div256, as_u128}
use starlay_protocol_wasm.Math.Exp.{to_ray, truncate, mul_scalar_truncate}
use starlay_protocol_wasm.Math.WadRay.{ray_div, ray_mul}
use starlay_protocol_wasm.Pool.Environment.{TokenLibrary}
use starlay_protocol_wasm.Pool.State.{State, Event}
use starlay_protocol_wasm.Pool.Scaled.{scaled_amount_of, from_scaled_amount}
use starlay_protocol_wasm.Pool.Exchange.{exchange_rate, protocol_seize_amount}
use starlay_protocol_wasm.Pool.Views.{
  exchange_rate_stored, get_cash_prior, total_borrows, total_reserves,
}
use starlay_protocol_wasm.Pool.Accrual.{accrue_reward}
use starlay_protocol_wasm.Pool.Liquidation.{raise_reserves, lower_supply, seize_inner}
use starlay_protocol_wasm.Pool.Seizure.Laws.{KeepsBook, Loses, seize_inner_lowers_supply_twice}
use starlay_protocol_wasm.Pool.Tests.Tokens.{bank}
use starlay_protocol_wasm.Pool.Tests.World.{lib, set_balance, pool_data, ctx}

-- The token book with u128 sums and differences.
abbrev tokens : TokenLibrary
tokens = record lib {
  mint_to = λ u n t. ok (record {
    total = add128 t.total n;
    balances = set_balance u (add128 (t.balances u) n) t.balances;
  });
  burn_from = λ u n t.
      if ltb (t.balances u) n
      then err false
      else ok (record {
        total = sub128 t.total n;
        balances = set_balance u (t.balances u - n) t.balances;
      });
}

book : KeepsBook tokens
book = record {
  set_supply = λ n t. (refl, λ v. refl);
  burned = λ account amount t u e. (ground arith, ground arith, λ v. ground arith);
  minted = λ account amount t u e. (ground arith, λ v. ground arith);
}

abbrev before : State tokens bank
before = record {
  pool = pool_data;
  token = record { total = 1000; balances = λ u. if u == 5 then 1000 else 0 };
  name = none;
  symbol = none;
  decimals = 6;
  world = 2500;
  events = [];
}

-- Account 6 seizes 100 tokens of account 5, of which the protocol keeps two, worth six units.
abbrev after : State tokens bank
after = record before {
  pool = record pool_data { reserves_scaled = 6 };
  token = record {
    total = 996;
    balances = set_balance 6 98 (set_balance 5 900 before.token.balances);
  };
  events = Event.reserves_added 10 6 6 ∷ [];
}

seize_inner_lowers_supply_twice_example : Loses tokens bank 6 5 100 2 before after
unfolding seize_inner raise_reserves lower_supply accrue_reward exchange_rate_stored total_borrows
    total_reserves exchange_rate get_cash_prior protocol_seize_amount scaled_amount_of
    from_scaled_amount to_ray truncate mul_scalar_truncate ray_div ray_mul add128 sub128 sub256
    mul256 div256 as_u128
seize_inner_lowers_supply_twice_example =
    seize_inner_lowers_supply_twice tokens bank ctx book 10 6 5 100 before after (omega arith)
      (omega arith) refl

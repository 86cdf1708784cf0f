-- ===== src/Pool/Tests/World.antt =====
-- A small world for runs of the pool's messages: a token book that keeps balances, and other contracts
-- that allow everything and lend at a fixed rate.
use starlay_protocol_wasm.Prelude.{
  ℕ, ◌+◌, ◌-◌, Bool, true, false, none, some, [], ltb, ◌==◌, if◌then◌else◌, ok, err,
}
use starlay_protocol_wasm.Math.Exp.{exp_scale}
use starlay_protocol_wasm.Pool.Environment.{TokenLibrary, Contracts, Context}
use starlay_protocol_wasm.Pool.State.{Data, State}

pub record Book : Type 0 where
  pub total : ℕ
  pub balances : ℕ → ℕ

abbrev pub set_balance : ℕ → ℕ → (ℕ → ℕ) → ℕ → ℕ
set_balance u n b v = if v == u then n else b v

abbrev pub lib : TokenLibrary
lib = record {
  Token = Book;
  Psp22Error = Bool;
  custom = λ text. true;
  insufficient_balance = false;
  insufficient_allowance = false;
  supply = λ t. t.total;
  set_supply = λ n t. record t { total = n };
  balance_of = λ t u. t.balances u;
  allowance = λ t o s. 0;
  mint_to = λ u n t.
      ok (record { total = t.total + n; balances = set_balance u (t.balances u + n) t.balances });
  burn_from = λ u n t.
      if ltb (t.balances u) n
      then err false
      else ok
          (record { total = t.total - n; balances = set_balance u (t.balances u - n) t.balances });
  transfer_from_to = λ s d n t. ok t;
  approve_from_to = λ o s n t. ok t;
}

abbrev pub contracts : Contracts lib.Psp22Error
contracts = record {
  World = Unit {0};
  token_balance_of = λ w t u. 1000000;
  token_transfer = λ t s r n w. ok w;
  token_transfer_from = λ t p s r n w. ok w;
  get_borrow_rate = λ w m c b r. ok 1000000000;
  handle_action = λ c u td tb d b w. ok w;
  mint_allowed = λ w c p m n. ok tt;
  redeem_allowed = λ w c p r n a. ok tt;
  borrow_allowed = λ w c p b n a. ok tt;
  repay_borrow_allowed = λ w c p y b n. ok tt;
  liquidate_borrow_allowed = λ w c p q l b n a. ok tt;
  seize_allowed = λ w c p q l b n. ok tt;
  transfer_allowed = λ w c p s d n a. ok tt;
  liquidate_calculate_seize_tokens = λ w c p q e n a b. ok n;
  balance_decrease_allowed = λ w c a u n. ok tt;
  flashloan_gateway = λ w c. some 77;
  accrue_interest = λ p w. ok w;
  seize = λ p s l b n w. ok w;
  get_accrual_block_timestamp = λ w p. 0;
  exchange_rate_stored = λ w p. ok exp_scale;
  underlying = λ w p. some p;
  token_decimals = λ w p. 6;
}

-- Account 5 calls the pool, which is account 10; account 1 is the manager.
abbrev pub ctx : Context
ctx = record { caller = 5; account_id = 10; block_timestamp = 2000 }

abbrev pub pool_data : Data
pool_data = record {
  underlying = some 20;
  controller = some 30;
  manager = some 1;
  incentives_controller = none;
  rate_model = some 40;
  borrows_scaled = 500;
  reserves_scaled = 0;
  account_borrows = λ u. if u == 5 then some 500 else none;
  accrual_block_timestamp = 2000;
  borrow_index = exp_scale;
  initial_exchange_rate_mantissa = exp_scale;
  reserve_factor_mantissa = 0;
  liquidation_threshold = 8000;
  delegate_allowance = λ o d. none;
  using_reserve_as_collateral = λ u. none;
}

abbrev pub state : State lib contracts
state = record {
  pool = pool_data;
  token = record { total = 0; balances = λ u. 0 };
  name = none;
  symbol = none;
  decimals = 6;
  world = tt;
  events = [];
}

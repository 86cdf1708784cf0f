-- ===== src/Weth/Tests.antt =====
-- Runs of the wrapped token on the books of the pool's tests, for logics/impls/weth.rs.
use starlay_protocol_wasm.Prelude.{
  ℕ, ◌+◌, ◌-◌, ◌≡◌, refl, arith, Option, none, some, ltb, ◌==◌, if◌then◌else◌, false, ok, err,
}
use starlay_protocol_wasm.Pool.Environment.{TokenLibrary}
use starlay_protocol_wasm.Pool.Tests.World.{lib}
use starlay_protocol_wasm.Weth.{State, deposit, withdraw}
use starlay_protocol_wasm.Weth.Laws.{CountsSupply, History, IsBacked, History-IsBacked}

-- The books, where a burn also fails if it is more than the total.
abbrev books : TokenLibrary
books = record lib {
  burn_from = λ u n t.
      if ltb t.total n
      then err false
      else if ltb (t.balances u) n
      then err false
      else ok (record {
        total = t.total - n;
        balances = λ v. if v == u then t.balances u - n else t.balances v;
      });
}

abbrev transfer : (to value balance : ℕ) → Option ℕ
transfer to value balance = if ltb balance value then none else some (balance - value)

abbrev empty : State books
empty = record { token = record { total = 0; balances = λ u. 0 }; native = 0 }

-- Account 5 has deposited 1000 and withdrawn 300.
abbrev used : State books
used = record {
  token = record {
    total = 700;
    balances = λ u. if u == 5 then 700 else if u == 5 then 1000 else 0;
  };
  native = 700;
}

abbrev full : State books
full = record {
  token = record { total = 1000; balances = λ u. if u == 5 then 1000 else 0 };
  native = 1000;
}

deposited-History : History books transfer empty full
unfolding deposit
deposited-History = History.deposited 5 1000 History.here refl

used-History : History books transfer empty used
unfolding withdraw
used-History = History.withdrawn 5 300 deposited-History refl

-- The books raise and lower their total by what is minted and burned.
books-CountsSupply : CountsSupply books
books-CountsSupply = record {
  minted = λ account n t u e. ground arith;
  burned = λ account n t u e. ground arith;
  moved = λ src dst n t u e. ground arith;
  approved = λ owner spender n t u e. ground arith;
}

transfer_pays :
    (to value balance left : ℕ) → transfer to value balance ≡ some left → left + value ≡ balance
transfer_pays to value balance left e = ground arith

History-IsBacked_example : IsBacked books transfer used
History-IsBacked_example =
    History-IsBacked books transfer books-CountsSupply transfer_pays empty used used-History refl

-- ===== src/PriceOracle.antt =====
-- The price oracle, logics/impls/price_oracle.rs and contracts/price_oracle/lib.rs. `underlying` is the
-- pools' answer to the message of that name.
use starlay_protocol_wasm.Prelude.{ℕ, Option, none, some, Mapping, insert}

pub record Data : Type 0 where
  pub fixed_prices : Mapping ℕ

-- The constructor
unfoldable pub new : Data
new = record { fixed_prices = λ asset. none }

unfoldable pub get_price : Data → (asset : ℕ) → Option ℕ
get_price d asset = d.fixed_prices asset

unfoldable pub get_underlying_price : (underlying : ℕ → Option ℕ) → Data → (pool : ℕ) → Option ℕ
get_underlying_price underlying d pool = elim (underlying pool) [
  | some asset ↦ get_price d asset
  | none ↦ none
]

-- There is no test on the caller.
unfoldable pub set_fixed_price : (asset price : ℕ) → Data → Data
set_fixed_price asset price d = record d { fixed_prices = insert d.fixed_prices asset price }

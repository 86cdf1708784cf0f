-- ===== src/Pool/Deployment.antt =====
-- The storage a pool starts with: `Default` of logics/impls/pool/mod.rs and the constructors of
-- contracts/pool/lib.rs.
pub mod Laws
use Prim.Native.String.{String, ◌++◌}
use starlay_protocol_wasm.Prelude.{
  ℕ, ◌==◌, Option, none, some, [], if◌then◌else◌, Outcome, ok, panic, ◌>>=◌, ◌>>◌,
}
use starlay_protocol_wasm.Math.Exp.{exp_scale}
use starlay_protocol_wasm.Pool.Environment.{TokenLibrary, Contracts, Context}
use starlay_protocol_wasm.Pool.State.{Data, State}

unfoldable pub default : Data
default = record {
  underlying = none;
  controller = none;
  manager = none;
  rate_model = none;
  incentives_controller = none;
  borrows_scaled = 0;
  reserves_scaled = 0;
  account_borrows = λ u. none;
  delegate_allowance = λ o d. none;
  accrual_block_timestamp = 0;
  borrow_index = exp_scale;
  initial_exchange_rate_mantissa = 0;
  reserve_factor_mantissa = 0;
  liquidation_threshold = 10000;
  using_reserve_as_collateral = λ u. none;
}

-- What both constructors are given.
pub record Arguments : Type 0 where
  pub incentives_controller : Option ℕ
  pub underlying : ℕ
  pub controller : ℕ
  pub rate_model : ℕ
  pub initial_exchange_rate_mantissa : ℕ
  pub liquidation_threshold : ℕ

-- The two checks that both constructors begin with.
unfoldable pub check_accounts : {E : Type 0} → Arguments → Outcome E (Unit {0})
check_accounts a = if a.underlying == 0 then panic else if a.controller == 0 then panic else ok tt

-- `unwrap()` of an option
abbrev pub unwrap_some : {E A : Type 0} → Option A → Outcome E A
unwrap_some none = panic
unwrap_some (some a) = ok a

-- `token` is the token library's default storage, and `world` that of the other contracts.
module _ (lib : TokenLibrary) (contracts : Contracts lib.Psp22Error) (token : lib.Token)
    (world : contracts.World) (ctx : Context) where
  -- `Self::default()`
  unfoldable pub fresh : State lib contracts
  fresh = record {
    pool = default;
    token = token;
    name = none;
    symbol = none;
    decimals = 0;
    world = world;
    events = [];
  }

  unfoldable pub initialize :
      Arguments
      → (manager : ℕ) (name symbol : String) (decimals : ℕ) → State lib contracts
      → State lib contracts
  initialize a manager name symbol decimals s = record s {
    pool = record s.pool {
      incentives_controller = a.incentives_controller;
      underlying = some a.underlying;
      controller = some a.controller;
      manager = some manager;
      rate_model = some a.rate_model;
      initial_exchange_rate_mantissa = a.initial_exchange_rate_mantissa;
      liquidation_threshold = a.liquidation_threshold;
      accrual_block_timestamp = ctx.block_timestamp;
    };
    name = some name;
    symbol = some symbol;
    decimals = decimals;
  }

  unfoldable pub new :
      {E : Type 0}
      → Arguments
      → (name symbol : String) (decimals : ℕ) → Outcome E (State lib contracts)
  new a name symbol decimals = do
    check_accounts a
    ok (initialize a ctx.caller name symbol decimals fresh)

  -- The underlying token answers with `base_name`, `base_symbol` and `base_decimals`.
  unfoldable pub new_from_asset :
      {E : Type 0}
      → (base_name base_symbol : ℕ → Option String) (base_decimals : ℕ → ℕ) → Arguments
      → Outcome E (State lib contracts)
  new_from_asset base_name base_symbol base_decimals a = do
    check_accounts a
    name ← unwrap_some (base_name a.underlying)
    symbol ← unwrap_some (base_symbol a.underlying)
    ok (
        initialize a ctx.caller ("Starlay " ++ name) ("s" ++ symbol) (base_decimals a.underlying)
          fresh)

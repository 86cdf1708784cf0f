-- ===== src/Pool/Deployment/Laws.antt =====
-- What holds of a pool from its constructor on, contracts/pool/lib.rs.
use Prim.Native.String.{String}
use mathlib.Core.Path.{subst}
use starlay_protocol_wasm.Prelude.{
  ℕ, ◌≤◌, ◌≡◌, ◌≢◌, refl, ◌∙◌, arith, Option, some, [], ok, >>=-elim, ok-injective,
}
use starlay_protocol_wasm.Prelude.Lists.{mem, distinct}
use starlay_protocol_wasm.Math.Exp.{exp_scale}
use starlay_protocol_wasm.Pool.Environment.{TokenLibrary, Contracts, Context}
use starlay_protocol_wasm.Pool.State.{Data, State}
use starlay_protocol_wasm.Pool.Interest.{reserve_factor_max_mantissa}
use starlay_protocol_wasm.Pool.Calls.{History}
use starlay_protocol_wasm.Pool.Ledger.{total_debt}
use starlay_protocol_wasm.Pool.Invariants.{
  DebtsBalance, Onward, History-DebtsBalance, History-Onward,
}
use starlay_protocol_wasm.Pool.Deployment.{
  Arguments, default, check_accounts, fresh, initialize, new, new_from_asset, unwrap_some,
}

-- A storage of a pool that `manager` made with the arguments `a`.
pub record Standing (a : Arguments) (manager : ℕ) (d : Data) : Type 0 where
  pub balance : DebtsBalance d
  pub index : exp_scale ≤ d.borrow_index
  pub factor : d.reserve_factor_mantissa ≤ reserve_factor_max_mantissa
  pub underlying : (d.underlying ≡ some a.underlying) × (a.underlying ≢ 0)
  pub controller : (d.controller ≡ some a.controller) × (a.controller ≢ 0)
  pub manager_kept : d.manager ≡ some manager
  pub rate_model : d.rate_model ≡ some a.rate_model
  pub initial : d.initial_exchange_rate_mantissa ≡ a.initial_exchange_rate_mantissa

check_accounts-eq-ok :
    {E : Type 0} (a : Arguments)
    → check_accounts {E = E} a ≡ ok tt
    → (a.underlying ≢ 0) × (a.controller ≢ 0)
unfolding check_accounts
check_accounts-eq-ok a e = (λ z. ground arith, λ z. ground arith)

Standing-Onward :
    (a : Arguments) (manager : ℕ) {d e : Data}
    → Standing a manager d
    → DebtsBalance e
    → Onward d e
    → Standing a manager e
Standing-Onward a manager h b o = record {
  balance = b;
  index = omega (arith, h.index, o.index);
  factor = o.factor h.factor;
  underlying = (o.underlying ∙ h.underlying.0, h.underlying.1);
  controller = (o.controller ∙ h.controller.0, h.controller.1);
  manager_kept = o.manager ∙ h.manager_kept;
  rate_model = o.rate_model ∙ h.rate_model;
  initial = o.initial ∙ h.initial;
}

module _ (lib : TokenLibrary) (contracts : Contracts lib.Psp22Error) (token : lib.Token)
    (world : contracts.World) (ctx : Context) where
  initialize-Standing :
      (a : Arguments) (name symbol : String) (decimals : ℕ)
      → a.underlying ≢ 0
      → a.controller ≢ 0
      → Standing a ctx.caller
          (initialize lib contracts token world ctx a ctx.caller name symbol decimals
            (fresh lib contracts token world ctx)).pool
  unfolding initialize fresh default distinct mem total_debt
  initialize-Standing a name symbol decimals u c = record {
    balance = record { users = []; once = refl; others = λ v m. refl; sum = refl };
    index = omega arith;
    factor = omega arith;
    underlying = (refl, u);
    controller = (refl, c);
    manager_kept = refl;
    rate_model = refl;
    initial = refl;
  }

  new-Standing :
      {E : Type 0} (a : Arguments) (name symbol : String) (decimals : ℕ) (s : State lib contracts)
      → new lib contracts token world ctx {E = E} a name symbol decimals ≡ ok s
      → Standing a ctx.caller s.pool
  unfolding new
  new-Standing {E} a name symbol decimals s e =
      >>=-elim (check_accounts {E = E} a) _ e λ _ checked made.
        let (u, c) = check_accounts-eq-ok a checked in
        subst (λ x. Standing a ctx.caller x.pool) (ok-injective made)
          (initialize-Standing a name symbol decimals u c)

  new_from_asset-Standing :
      {E : Type 0} (base_name base_symbol : ℕ → Option String) (base_decimals : ℕ → ℕ)
      (a : Arguments) (s : State lib contracts)
      → new_from_asset lib contracts token world ctx {E = E} base_name base_symbol base_decimals a
        ≡ ok s
      → Standing a ctx.caller s.pool
  unfolding new_from_asset
  new_from_asset-Standing {E} base_name base_symbol base_decimals a s e =
      >>=-elim (check_accounts {E = E} a) _ e λ _ checked e1.
        >>=-elim (unwrap_some (base_name a.underlying)) _ e1 λ name en e2.
          >>=-elim (unwrap_some (base_symbol a.underlying)) _ e2 λ symbol es made.
            let (u, c) = check_accounts-eq-ok a checked in
            subst (λ x. Standing a ctx.caller x.pool) (ok-injective made)
              (initialize-Standing a _ _ (base_decimals a.underlying) u c)

  -- A pool that one of the two constructors has made.
  pub data Made (a : Arguments) (s : State lib contracts) : Type 0 where
    by_new :
        (name symbol : String) (decimals : ℕ)
        → new lib contracts token world ctx {E = Unit {0}} a name symbol decimals ≡ ok s
        → Made a s
    from_asset :
        (base_name base_symbol : ℕ → Option String) (base_decimals : ℕ → ℕ)
        → new_from_asset lib contracts token world ctx {E = Unit {0}} base_name base_symbol
            base_decimals a
          ≡ ok s
        → Made a s

  Made-Standing :
      (a : Arguments) (s : State lib contracts) → Made a s → Standing a ctx.caller s.pool
  Made-Standing a s (Made.by_new name symbol decimals e) = new-Standing a name symbol decimals s e
  Made-Standing a s (Made.from_asset base_name base_symbol base_decimals e) =
      new_from_asset-Standing base_name base_symbol base_decimals a s e

  -- After one of the two constructors has made a pool and any history of messages has followed, the debts
  -- of the accounts add up to `borrows_scaled`, modulo 2^128; the borrow index is at least one and the
  -- reserve factor at most one; the underlying token and the controller are those given to the constructor
  -- and not the zero account; the manager is the constructor's caller; the rate model and the initial
  -- exchange rate are those given.
  pub deployed-Standing :
      (a : Arguments) (s t : State lib contracts)
      → Made a s
      → History lib contracts s t
      → Standing a ctx.caller t.pool
  deployed-Standing a s t made h =
      let start = Made-Standing a s made in
      Standing-Onward a ctx.caller start (History-DebtsBalance lib contracts h start.balance)
        (History-Onward lib contracts h)

-- ===== src/Pool/Invariants.antt =====
-- What every history of a pool keeps, logics/impls/pool/mod.rs: the book of debts, the course of the
-- index, and the settings that no message of the contract changes.
use starlay_protocol_wasm.Prelude.{
  ℕ, ◌<◌, ◌≤◌, ◌≡◌, refl, ◌∙◌, arith, Bool, true, false, ok, if◌then◌else◌, inl, inr, insert,
}
use starlay_protocol_wasm.Prelude.Steps.{Steps, IsPreorder}
use starlay_protocol_wasm.Words.{u128_mod, add128, sub128, as_u128}
use starlay_protocol_wasm.Math.Exp.{exp}
use starlay_protocol_wasm.Pool.Environment.{TokenLibrary, Contracts, Context}
use starlay_protocol_wasm.Pool.State.{Data, State}
use starlay_protocol_wasm.Pool.Errors.{Error}
use starlay_protocol_wasm.Pool.Scaled.{scaled_amount_of}
use starlay_protocol_wasm.Pool.Interest.{CalculateInterestOutput, reserve_factor_max_mantissa}
use starlay_protocol_wasm.Pool.Interest.Growth.{calculate_interest-index_grows}
use starlay_protocol_wasm.Pool.Views.{get_interest_at}
use starlay_protocol_wasm.Pool.Accrual.Laws.{accrue_interest_at-eq-ok}
use starlay_protocol_wasm.Pool.Accrual.{accrue_interest}
use starlay_protocol_wasm.Pool.Lending.{increase_debt}
use starlay_protocol_wasm.Pool.Calls.{History}
use starlay_protocol_wasm.Pool.Ledger.{Balances, debt, Balances-add, Balances-sub}
use starlay_protocol_wasm.Pool.Steps.{OnPool}
use starlay_protocol_wasm.Pool.Steps.Writes.{Writes}
use starlay_protocol_wasm.Pool.Histories.{History-Holds}

-- The debts of all accounts add up to `borrows_scaled`, modulo the word size.
abbrev pub DebtsBalance : Data → Type 0
DebtsBalance d = Balances d.account_borrows d.borrows_scaled

abbrev KeepsBalance : Data → Data → Type 0
KeepsBalance d e = DebtsBalance d → DebtsBalance e

-- From one storage to a later one: the index has not fallen, the settings are the same, and the reserve
-- factor has stayed within its bound.
pub record Onward (d e : Data) : Type 0 where
  pub index : d.borrow_index ≤ e.borrow_index
  pub underlying : e.underlying ≡ d.underlying
  pub controller : e.controller ≡ d.controller
  pub manager : e.manager ≡ d.manager
  pub rate_model : e.rate_model ≡ d.rate_model
  pub initial : e.initial_exchange_rate_mantissa ≡ d.initial_exchange_rate_mantissa
  pub factor :
      d.reserve_factor_mantissa ≤ reserve_factor_max_mantissa
      → e.reserve_factor_mantissa ≤ reserve_factor_max_mantissa

Onward-refl : (d : Data) → Onward d d
Onward-refl d = record {
  index = omega arith;
  underlying = refl;
  controller = refl;
  manager = refl;
  rate_model = refl;
  initial = refl;
  factor = λ h. h;
}

-- A write that leaves the settings alone.
Onward-keep :
    {d e : Data}
    → d.borrow_index ≤ e.borrow_index
    → e.underlying ≡ d.underlying
    → e.controller ≡ d.controller
    → e.manager ≡ d.manager
    → e.rate_model ≡ d.rate_model
    → e.initial_exchange_rate_mantissa ≡ d.initial_exchange_rate_mantissa
    → e.reserve_factor_mantissa ≡ d.reserve_factor_mantissa
    → Onward d e
Onward-keep {d} {e} i u c m r x f = record {
  index = i;
  underlying = u;
  controller = c;
  manager = m;
  rate_model = r;
  initial = x;
  factor = λ h. omega arith;
}

Onward-trans : {d e f : Data} → Onward d e → Onward e f → Onward d f
Onward-trans p q = record {
  index = omega (arith, p.index, q.index);
  underlying = q.underlying ∙ p.underlying;
  controller = q.controller ∙ p.controller;
  manager = q.manager ∙ p.manager;
  rate_model = q.rate_model ∙ p.rate_model;
  initial = q.initial ∙ p.initial;
  factor = λ h. q.factor (p.factor h);
}

scaled_amount_of-lt :
    {E : Type 0} (a i : ℕ) {n : ℕ} → scaled_amount_of {E = E} a (exp i) ≡ ok n → n < u128_mod
unfolding scaled_amount_of as_u128
scaled_amount_of-lt a i e = ground arith

module _ (lib : TokenLibrary) (contracts : Contracts lib.Psp22Error) (ctx : Context) where
  balance_pre : IsPreorder (OnPool lib contracts KeepsBalance)
  balance_pre = record { stay = λ s h. h; join = λ f g h. g (f h) }

  Onward-pre : IsPreorder (OnPool lib contracts Onward)
  Onward-pre = record { stay = λ s. Onward-refl s.pool; join = λ f g. Onward-trans f g }

  -- What `_increase_debt` writes.
  pub increase_debt-eq-ok :
      (borrower amount : ℕ) (neg : Bool) (s : State lib contracts) {t : State lib contracts}
      {x : Unit {0}}
      → increase_debt lib contracts ctx borrower amount neg s ≡ ok (x, t)
      → let d = s.pool in
        let change = if neg then sub128 else add128 in
        (n : ℕ) × (scaled_amount_of {E = Error lib.Psp22Error} amount (exp d.borrow_index) ≡ ok n)
        × (t.pool ≡ record d {
          account_borrows =
              insert d.account_borrows borrower (change (debt d.account_borrows borrower) n);
          borrows_scaled = change d.borrows_scaled n;
        })
  unfolding increase_debt
  increase_debt-eq-ok borrower amount neg s e = ground arith

  pub get_interest_at-grows :
      (s : State lib contracts) (at : ℕ) {out : CalculateInterestOutput}
      → get_interest_at lib contracts ctx s at ≡ ok out
      → s.pool.borrow_index ≤ out.borrow_index
  unfolding get_interest_at
  get_interest_at-grows s at {out} e = grind (arith, calculate_interest-index_grows)

  increase_debt-KeepsBalance :
      (borrower amount : ℕ) (neg : Bool)
      → Steps
          (OnPool lib contracts KeepsBalance)
          (increase_debt lib contracts ctx borrower amount neg)
  increase_debt-KeepsBalance borrower amount true = record {
    at = λ s b t e h.
        let (n, en, et) = increase_debt-eq-ok borrower amount true s e in
        let lt = scaled_amount_of-lt amount s.pool.borrow_index en in
        rw et (Balances-sub borrower n lt h);
  }
  increase_debt-KeepsBalance borrower amount false = record {
    at = λ s b t e h.
        let (n, en, et) = increase_debt-eq-ok borrower amount false s e in
        rw et (Balances-add borrower n h);
  }

  accrue_interest-KeepsBalance :
      Steps (OnPool lib contracts KeepsBalance) (accrue_interest lib contracts ctx)
  unfolding accrue_interest
  accrue_interest-KeepsBalance = record {
    at = λ s b t e h. elim (accrue_interest_at-eq-ok lib contracts ctx ctx.block_timestamp s e) [
      | inl same ↦ rw same h
      | inr (out, eo, et) ↦ rw et h
    ];
  }

  increase_debt-Onward :
      (borrower amount : ℕ) (neg : Bool)
      → Steps (OnPool lib contracts Onward) (increase_debt lib contracts ctx borrower amount neg)
  increase_debt-Onward borrower amount neg = record {
    at = λ s b t e.
        let (n, en, et) = increase_debt-eq-ok borrower amount neg s e in
        rw et (Onward-keep (omega arith) refl refl refl refl refl refl);
  }

  accrue_interest-Onward : Steps (OnPool lib contracts Onward) (accrue_interest lib contracts ctx)
  unfolding accrue_interest
  accrue_interest-Onward = record {
    at = λ s b t e. elim (accrue_interest_at-eq-ok lib contracts ctx ctx.block_timestamp s e) [
      | inl same ↦ rw same (Onward-refl s.pool)
      | inr (out, eo, et) ↦
          let g = get_interest_at-grows s ctx.block_timestamp eo in
          rw et (Onward-keep g refl refl refl refl refl refl)
    ];
  }

  balance_writes : Writes lib contracts ctx KeepsBalance
  balance_writes = record {
    pre = balance_pre;
    flags = λ m d h. h;
    reserves = λ r d h. h;
    delegations = λ m d h. h;
    incentives = λ c d h. h;
    threshold = λ t d h. h;
    factor = λ f d l h. h;
    accrual = accrue_interest-KeepsBalance;
    debts = increase_debt-KeepsBalance;
  }

  Onward-writes : Writes lib contracts ctx Onward
  Onward-writes = record {
    pre = Onward-pre;
    flags = λ m d. Onward-keep (omega arith) refl refl refl refl refl refl;
    reserves = λ r d. Onward-keep (omega arith) refl refl refl refl refl refl;
    delegations = λ m d. Onward-keep (omega arith) refl refl refl refl refl refl;
    incentives = λ c d. Onward-keep (omega arith) refl refl refl refl refl refl;
    threshold = λ t d. Onward-keep (omega arith) refl refl refl refl refl refl;
    factor = λ f d l. record {
      index = omega arith;
      underlying = refl;
      controller = refl;
      manager = refl;
      rate_model = refl;
      initial = refl;
      factor = λ h. l;
    };
    accrual = accrue_interest-Onward;
    debts = increase_debt-Onward;
  }

module _ (lib : TokenLibrary) (contracts : Contracts lib.Psp22Error) where
  -- In every history of a pool, whatever its messages and callers, the debts of the accounts add up to
  -- `borrows_scaled`, modulo 2^128, at the end if they do at the start.
  pub History-DebtsBalance :
      {s t : State lib contracts}
      → History lib contracts s t
      → DebtsBalance s.pool
      → DebtsBalance t.pool
  History-DebtsBalance h =
      History-Holds lib contracts KeepsBalance (balance_writes lib contracts)
        (record { stay = λ s b. b; join = λ f g b. g (f b) }) h

  -- In every history of a pool the borrow index never falls, the underlying token, the controller, the
  -- manager, the rate model and the initial exchange rate stay as they were, and a reserve factor of at
  -- most one stays at most one.
  pub History-Onward :
      {s t : State lib contracts} → History lib contracts s t → Onward s.pool t.pool
  History-Onward h =
      History-Holds lib contracts Onward (Onward-writes lib contracts)
        (record { stay = λ s. Onward-refl s.pool; join = λ f g. Onward-trans f g }) h

-- ===== src/Pool/Steps/Writes.antt =====
-- The ways in which the code writes a pool's storage, logics/impls/pool/mod.rs.
use starlay_protocol_wasm.Prelude.{ℕ, Bool, Option, Mapping, ◌≤◌}
use starlay_protocol_wasm.Prelude.Actions.{◌>>◌}
use starlay_protocol_wasm.Prelude.Steps.{Steps, IsPreorder, Steps-then}
use starlay_protocol_wasm.Pool.Environment.{TokenLibrary, Contracts, Context}
use starlay_protocol_wasm.Pool.State.{Data, Message}
use starlay_protocol_wasm.Pool.Interest.{reserve_factor_max_mantissa}
use starlay_protocol_wasm.Pool.Accrual.{accrue_interest}
use starlay_protocol_wasm.Pool.Lending.{increase_debt}
use starlay_protocol_wasm.Pool.Steps.{OnPool}

-- The writes of the code: the collateral flags, the reserves, the delegations, the settings, and the
-- two that depend on what was read before, the accrual and the debts.
pub record Writes (lib : TokenLibrary) (contracts : Contracts lib.Psp22Error) (ctx : Context)
    (R : Data → Data → Type 0) : Type 0 where
  pub pre : IsPreorder (OnPool lib contracts R)
  pub flags : (m : Mapping Bool) (d : Data) → R d (record d { using_reserve_as_collateral = m })
  pub reserves : (r : ℕ) (d : Data) → R d (record d { reserves_scaled = r })
  pub delegations : (m : ℕ → Mapping ℕ) (d : Data) → R d (record d { delegate_allowance = m })
  pub incentives : (c : Option ℕ) (d : Data) → R d (record d { incentives_controller = c })
  pub threshold : (t : ℕ) (d : Data) → R d (record d { liquidation_threshold = t })
  pub factor :
      (f : ℕ) (d : Data)
      → f ≤ reserve_factor_max_mantissa
      → R d (record d { reserve_factor_mantissa = f })
  pub accrual : Steps (OnPool lib contracts R) (accrue_interest lib contracts ctx)
  pub debts :
      (borrower amount : ℕ) (neg : Bool)
      → Steps (OnPool lib contracts R) (increase_debt lib contracts ctx borrower amount neg)

module _ (lib : TokenLibrary) (contracts : Contracts lib.Psp22Error) (ctx : Context)
    (R : Data → Data → Type 0) (w : Writes lib contracts ctx R) where
  abbrev Holds : {A : Type 0} → Message lib contracts A → Type 0
  Holds m = Steps (OnPool lib contracts R) m

  pub after_accrual :
      {A : Type 0} {k : Message lib contracts A}
      → Holds k
      → Holds (accrue_interest lib contracts ctx >> k)
  after_accrual h = Steps-then w.pre _ _ w.accrual h

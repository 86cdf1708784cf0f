-- ===== src/Weth.antt =====
-- The wrapped native token, logics/impls/weth.rs, over the token library that keeps its balances.
pub mod Laws
pub mod Tests
use starlay_protocol_wasm.Prelude.{
  ℕ, ◌+◌, Option, none, some, ltb, Outcome, ok, err, fail_if, ◌>>=◌, ◌>>◌,
}
use starlay_protocol_wasm.Pool.Environment.{TokenLibrary}

module _ (lib : TokenLibrary) where
  -- The library's storage, and the contract's balance of the native token.
  pub record State : Type 0 where
    pub token : lib.Token
    pub native : ℕ

  -- The runtime's `transfer` out of a balance: what is left, or none if it fails.
  abbrev pub Transfer : Type 0
  Transfer = (to value balance : ℕ) → Option ℕ

  -- `deposit`: the runtime has added the transferred value to the contract's balance.
  unfoldable pub deposit : (caller transferred_value : ℕ) → State → Outcome lib.Psp22Error State
  deposit caller transferred_value s = do
    t ← lib.mint_to caller transferred_value s.token
    ok (record { token = t; native = s.native + transferred_value })

  unfoldable pub withdraw : Transfer → (caller value : ℕ) → State → Outcome lib.Psp22Error State
  withdraw transfer caller value s = do
    fail_if (ltb (lib.balance_of s.token caller) value) lib.insufficient_balance
    t ← lib.burn_from caller value s.token
    elim (transfer caller value s.native) [
      | none ↦ err (lib.custom "Cannot send ASTR.")
      | some left ↦ ok (record { token = t; native = left })
    ]

-- ===== src/Weth/Laws.antt =====
-- The wrapped token is backed by the native token, logics/impls/weth.rs.
use starlay_protocol_wasm.Prelude.{
  ℕ, ◌+◌, ◌≡◌, arith, some, ltb, ok, fail_if, >>=-elim, ok-injective, Option-cases, inl, inr,
}
use mathlib.Core.Path.{subst}
use starlay_protocol_wasm.Pool.Environment.{TokenLibrary}
use starlay_protocol_wasm.Weth.{State, Transfer, deposit, withdraw}

-- What the token library documents of the total supply.
pub record CountsSupply (lib : TokenLibrary) : Type 0 where
  pub minted :
      (account n : ℕ) (t u : lib.Token)
      → lib.mint_to account n t ≡ ok u
      → lib.supply u ≡ lib.supply t + n
  pub burned :
      (account n : ℕ) (t u : lib.Token)
      → lib.burn_from account n t ≡ ok u
      → lib.supply u + n ≡ lib.supply t
  pub moved :
      (src dst n : ℕ) (t u : lib.Token)
      → lib.transfer_from_to src dst n t ≡ ok u
      → lib.supply u ≡ lib.supply t
  pub approved :
      (owner spender n : ℕ) (t u : lib.Token)
      → lib.approve_from_to owner spender n t ≡ ok u
      → lib.supply u ≡ lib.supply t

module _ (lib : TokenLibrary) (transfer : Transfer lib) where
  -- Deposits, withdrawals, and the library's own messages.
  pub data History (s : State lib) : State lib → Type 0 where
    here : History s s
    deposited :
        {t u : State lib} (caller value : ℕ)
        → History s t
        → deposit lib caller value t ≡ ok u
        → History s u
    withdrawn :
        {t u : State lib} (caller value : ℕ)
        → History s t
        → withdraw lib transfer caller value t ≡ ok u
        → History s u
    moved :
        {t : State lib} {token : lib.Token} (src dst n : ℕ)
        → History s t
        → lib.transfer_from_to src dst n t.token ≡ ok token
        → History s (record t { token = token })
    approved :
        {t : State lib} {token : lib.Token} (owner spender n : ℕ)
        → History s t
        → lib.approve_from_to owner spender n t.token ≡ ok token
        → History s (record t { token = token })

  -- As many wrapped tokens as native ones.
  abbrev pub IsBacked : State lib → Type 0
  IsBacked s = s.native ≡ lib.supply s.token

  module _ (counts : CountsSupply lib)
      (pays : (to value balance left : ℕ)
        → transfer to value balance ≡ some left
        → left + value ≡ balance) where
    deposit-IsBacked :
        (caller value : ℕ) (s t : State lib)
        → deposit lib caller value s ≡ ok t
        → IsBacked s
        → IsBacked t
    unfolding deposit
    deposit-IsBacked caller value s t e h =
        >>=-elim (lib.mint_to caller value s.token) _ e λ u eu e1.
          subst IsBacked (ok-injective e1)
            (omega (arith, counts.minted caller value s.token u eu, h))

    withdraw-IsBacked :
        (caller value : ℕ) (s t : State lib)
        → withdraw lib transfer caller value s ≡ ok t
        → IsBacked s
        → IsBacked t
    unfolding withdraw
    withdraw-IsBacked caller value s t e h =
        >>=-elim (fail_if (ltb (lib.balance_of s.token caller) value) lib.insufficient_balance) _ e
          λ _ ef e1. >>=-elim (lib.burn_from caller value s.token) _ e1 λ u eu e2.
            elim (Option-cases (transfer caller value s.native)) [
              | inl failed ↦ absurd (cc (rw failed at e2))
              | inr (left, et) ↦ subst IsBacked (ok-injective (rw et at e2)) (
                  omega (
                    arith,
                    counts.burned caller value s.token u eu,
                    pays caller value s.native left et,
                    h,
                  ))
            ]

    -- The wrapped token stays backed: in every history of deposits, withdrawals, transfers and approvals there
    -- are as many wrapped tokens as the contract holds native ones, if there were at the start. The token
    -- library counts its supply, and a transfer of the runtime takes what it sends out of the balance.
    pub History-IsBacked : (s t : State lib) → History s t → IsBacked s → IsBacked t
    History-IsBacked s t (History.here) h = h
    History-IsBacked s u (History.deposited {t} caller value before e) h =
        deposit-IsBacked caller value t u e (History-IsBacked s t before h)
    History-IsBacked s u (History.withdrawn {t} caller value before e) h =
        withdraw-IsBacked caller value t u e (History-IsBacked s t before h)
    History-IsBacked s u (History.moved {t} {token} src dst n before e) h =
        omega (arith, History-IsBacked s t before h, counts.moved src dst n t.token token e)
    History-IsBacked s u (History.approved {t} {token} owner spender n before e) h =
        omega
          (arith, History-IsBacked s t before h, counts.approved owner spender n t.token token e)

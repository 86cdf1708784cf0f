-- ===== src/Pool/Ledger.antt =====
-- The book of debts of a pool: the scaled debts of the accounts against `borrows_scaled`, the field that
-- logics/impls/pool/mod.rs keeps as their sum.
use starlay_protocol_wasm.Prelude.{
  ℕ, ◌+◌, ◌-◌, ◌%◌, ◌≤◌, ◌<◌, ◌≡◌, refl, ap, ◌∙◌, inl, inr, true, false, List, [], ◌∷◌, arith,
  Mapping, insert, unwrap_or, Bool-cases,
}
use starlay_protocol_wasm.Prelude.Lists.{mem, distinct}
use starlay_protocol_wasm.Words.{u128_mod, add128, sub128}

-- The debt that the book holds of an account, and that of a list of accounts.
abbrev pub debt : Mapping ℕ → ℕ → ℕ
debt m u = unwrap_or (m u) 0

unfoldable pub total_debt : Mapping ℕ → List ℕ → ℕ
total_debt m [] = 0
total_debt m (u ∷ us) = debt m u + total_debt m us

-- A book balances against a total: all debts stand with finitely many accounts, and their sum is the
-- total, modulo the word size.
pub record Balances (m : Mapping ℕ) (total : ℕ) : Type 0 where
  pub users : List ℕ
  pub once : distinct users ≡ true
  pub others : (u : ℕ) → mem u users ≡ false → debt m u ≡ 0
  pub sum : total ≡ total_debt m users % u128_mod

total_debt-insert_other :
    (m : Mapping ℕ) (b v : ℕ) (us : List ℕ)
    → mem b us ≡ false
    → total_debt (insert m b v) us ≡ total_debt m us
unfolding total_debt mem
total_debt-insert_other m b v [] h = refl
total_debt-insert_other m b v (u ∷ us) h =
    let rest = total_debt-insert_other m b v us in ground (arith, rest)

total_debt-insert :
    (m : Mapping ℕ) (b v : ℕ) (us : List ℕ)
    → distinct us ≡ true
    → mem b us ≡ true
    → total_debt (insert m b v) us + debt m b ≡ total_debt m us + v
unfolding total_debt mem distinct
total_debt-insert m b v [] d h = absurd (cc)
total_debt-insert m b v (u ∷ us) d h =
    ground (arith, total_debt-insert m b v us, total_debt-insert_other m b v us)

debt-le : (m : Mapping ℕ) (b : ℕ) (us : List ℕ) → mem b us ≡ true → debt m b ≤ total_debt m us
unfolding mem total_debt
debt-le m b [] h = absurd (cc)
debt-le m b (u ∷ us) h = ground (arith, debt-le m b us)

-- A balanced book over a list that holds a given account.
record With (m : Mapping ℕ) (total b : ℕ) : Type 0 where
  pub book : Balances m total
  pub listed : mem b book.users ≡ true

-- An account that the list lacks has no debt, so the list can be extended by it.
extended :
    {m : Mapping ℕ} {total : ℕ} (b : ℕ) (h : Balances m total)
    → mem b h.users ≡ false
    → With m total b
unfolding mem distinct total_debt
extended {m} {total} b h e = record {
  book = record {
    users = b ∷ h.users;
    once = ground (arith, h.once);
    others = λ u a. ground (arith, h.others u);
    sum = grind (arith, h.sum, h.others b e);
  };
  listed = ground (arith);
}

listed : {m : Mapping ℕ} {total : ℕ} (b : ℕ) → Balances m total → With m total b
listed b h = elim (Bool-cases (mem b h.users)) [
  | inl e ↦ record { book = h; listed = e }
  | inr e ↦ extended b h e
]

-- Writing the debt of one account and moving the total alike keeps the balance.
Balances-write :
    {m : Mapping ℕ} {total : ℕ} (b v total' : ℕ)
    → With m total b
    → ((t : ℕ) → total ≡ t % u128_mod → debt m b ≤ t → total' ≡ (t - debt m b + v) % u128_mod)
    → Balances (insert m b v) total'
Balances-write {m} {total} b v total' w k = record {
  users = w.book.users;
  once = w.book.once;
  others = λ u a. let q = w.book.others u a in ground (arith, w.listed);
  sum =
      let q = total_debt-insert m b v w.book.users w.book.once w.listed in
      let le = debt-le m b w.book.users w.listed in
      k (total_debt m w.book.users) w.book.sum le ∙ ap (λ n. n % u128_mod) (omega arith);
}

pub Balances-add :
    {m : Mapping ℕ} {total : ℕ} (b s : ℕ)
    → Balances m total
    → Balances (insert m b (add128 (debt m b) s)) (add128 total s)
unfolding add128
Balances-add {m} {total} b s h = Balances-write b _ _ (listed b h) λ t e l. omega arith

pub Balances-sub :
    {m : Mapping ℕ} {total : ℕ} (b s : ℕ)
    → s < u128_mod
    → Balances m total
    → Balances (insert m b (sub128 (debt m b) s)) (sub128 total s)
unfolding sub128
Balances-sub {m} {total} b s k h = Balances-write b _ _ (listed b h) λ t e l. omega arith

-- ===== src/System/Books.antt =====
-- A total that an account keeps, against the requests that it stands for. The requests of one kind
-- name the account that they belong to and an amount; the total of an account is a number that
-- its state holds.
use programs.Prelude.{
  ℕ, ◌+◌, ◌-◌, ◌≤◌, ◌≡◌, inl, inr, arith, Option, none, some, List, ◌==◌, Bool-cases, if◌then◌else◌,
}
use programs.Accounts.{
  lookup, insert, erase, remove, total, lookup-insert, lookup-remove, total-insert_new,
  total-insert, total-erase,
}

-- The number read from an account, 0 if there is none.
abbrev pub held {ℓ} : {A : Type ℓ} → (A → ℕ) → Option A → ℕ
held f none = 0
held f (some a) = f a

-- What a request is worth to an account.
abbrev pub owed {ℓ} : {R : Type ℓ} → (R → ℕ) → (R → ℕ) → ℕ → R → ℕ
owed of amount k r = if of r == k then amount r else 0

-- Each account holds exactly what the requests that name it add up to; those that name an account
-- that is not there add up to zero.
abbrev pub Agrees {ℓ κ} :
    {A : Type ℓ} {R : Type κ} → (A → ℕ) → (R → ℕ) → (R → ℕ) → List (ℕ × A) → List (ℕ × R) → Type 0
Agrees f of amount accounts requests =
    (k : ℕ) → held f (lookup k accounts) ≡ total (owed of amount k) requests

module _ {ℓ κ} {A : Type ℓ} {R : Type κ} (f : A → ℕ) (of amount : R → ℕ) where
  held-insert :
      (k j : ℕ) (a : A) (m : List (ℕ × A))
      → held f (lookup j (insert k a m)) ≡ (if k == j then f a else held f (lookup j m))
  held-insert k j a m = elim (Bool-cases (k == j)) [
    | inl hit ↦ ground (arith, lookup-insert k j a m)
    | inr miss ↦ ground (arith, lookup-insert k j a m)
  ]

  -- The account of `a` becomes `b`, with as much in it.
  pub keeps-Agrees :
      (k : ℕ) (a b : A) (accounts : List (ℕ × A)) (requests : List (ℕ × R))
      → lookup k accounts ≡ some a
      → f b ≡ f a
      → Agrees f of amount accounts requests
      → Agrees f of amount (insert k b accounts) requests
  keeps-Agrees k a b accounts requests found same agrees j =
      ground (arith, held-insert k j b accounts, agrees j)

  -- A request leaves, and its account's total falls by its amount.
  pub erase-Agrees :
      (k q : ℕ) (a b : A) (r : R) (accounts : List (ℕ × A)) (requests : List (ℕ × R))
      → lookup k accounts ≡ some a
      → lookup q requests ≡ some r
      → k ≡ of r
      → amount r ≤ f a
      → f b ≡ f a - amount r
      → Agrees f of amount accounts requests
      → Agrees f of amount (insert k b accounts) (erase q requests)
  erase-Agrees k q a b r accounts requests found asked mine covered less agrees j = ground (
    arith,
    held-insert k j b accounts,
    agrees j,
    total-erase (owed of amount j) q r requests asked,
  )

  -- A new request comes in, and its account's total rises by its amount.
  pub insert_new-Agrees :
      (k q : ℕ) (a b : A) (r : R) (accounts : List (ℕ × A)) (requests : List (ℕ × R))
      → lookup k accounts ≡ some a
      → lookup q requests ≡ none
      → of r ≡ k
      → f b ≡ f a + amount r
      → Agrees f of amount accounts requests
      → Agrees f of amount (insert k b accounts) (insert q r requests)
  insert_new-Agrees k q a b r accounts requests found free mine more agrees j = ground (
    arith,
    held-insert k j b accounts,
    agrees j,
    total-insert_new (owed of amount j) q r requests free,
  )

  -- A request grows by `n`, and so does its account's total.
  pub insert_more-Agrees :
      (k q n : ℕ) (a b : A) (old r : R) (accounts : List (ℕ × A)) (requests : List (ℕ × R))
      → lookup k accounts ≡ some a
      → lookup q requests ≡ some old
      → of old ≡ k
      → of r ≡ of old
      → amount r ≡ amount old + n
      → f b ≡ f a + n
      → Agrees f of amount accounts requests
      → Agrees f of amount (insert k b accounts) (insert q r requests)
  insert_more-Agrees k q n a b old r accounts requests found asked mine same grown more agrees j =
      ground (
        arith,
        held-insert k j b accounts,
        agrees j,
        total-insert (owed of amount j) q r old requests asked,
      )

  -- A request is replaced by one for the same account that is worth as much.
  pub replace-Agrees :
      (q : ℕ) (old r : R) (accounts : List (ℕ × A)) (requests : List (ℕ × R))
      → lookup q requests ≡ some old
      → of r ≡ of old
      → amount r ≡ amount old
      → Agrees f of amount accounts requests
      → Agrees f of amount accounts (insert q r requests)
  replace-Agrees q old r accounts requests asked same worth agrees j =
      ground (arith, agrees j, total-insert (owed of amount j) q r old requests asked)

  -- An account is opened with nothing in it.
  pub open-Agrees :
      (k : ℕ) (b : A) (accounts : List (ℕ × A)) (requests : List (ℕ × R))
      → lookup k accounts ≡ none
      → f b ≡ 0
      → Agrees f of amount accounts requests
      → Agrees f of amount (insert k b accounts) requests
  open-Agrees k b accounts requests free empty agrees j =
      ground (arith, held-insert k j b accounts, agrees j)

  held-remove :
      (k j : ℕ) (m : List (ℕ × A))
      → held f (lookup j (remove k m)) ≡ (if k == j then 0 else held f (lookup j m))
  held-remove k j m = elim (Bool-cases (k == j)) [
    | inl hit ↦ ground (arith, lookup-remove k j m)
    | inr miss ↦ ground (arith, lookup-remove k j m)
  ]

  -- An account that has nothing in it is closed.
  pub close-Agrees :
      (k : ℕ) (a : A) (accounts : List (ℕ × A)) (requests : List (ℕ × R))
      → lookup k accounts ≡ some a
      → f a ≡ 0
      → Agrees f of amount accounts requests
      → Agrees f of amount (remove k accounts) requests
  close-Agrees k a accounts requests found empty agrees j =
      ground (arith, held-remove k j accounts, agrees j)

  -- What is open for an account that has nothing in it is worth nothing.
  pub total-empty :
      (k : ℕ) (a : A) (accounts : List (ℕ × A)) (requests : List (ℕ × R))
      → lookup k accounts ≡ some a
      → f a ≡ 0
      → Agrees f of amount accounts requests
      → total (owed of amount k) requests ≡ 0
  total-empty k a accounts requests found empty agrees = ground (arith, agrees k)

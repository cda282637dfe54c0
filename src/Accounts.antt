-- ===== src/Accounts.antt =====
-- The program's accounts, by address. Of a list of entries the first one for a key counts.
use programs.Prelude.{
  ℕ, ◌+◌, ◌≡◌, refl, inl, inr, arith, Option, none, some, List, [], ◌∷◌, ◌==◌, Bool-cases,
  if◌then◌else◌, subst,
}

module _ {ℓ} {A : Type ℓ} where
  unfoldable pub lookup : ℕ → List (ℕ × A) → Option A
  lookup k [] = none
  lookup k ((j, a) ∷ m) = if j == k then some a else lookup k m

  unfoldable pub insert : ℕ → A → List (ℕ × A) → List (ℕ × A)
  insert k a [] = (k, a) ∷ []
  insert k a ((j, b) ∷ m) = if j == k then (k, a) ∷ m else (j, b) ∷ insert k a m

  -- Closing an account removes its entry.
  unfoldable pub erase : ℕ → List (ℕ × A) → List (ℕ × A)
  erase k [] = []
  erase k ((j, b) ∷ m) = if j == k then m else (j, b) ∷ erase k m

  -- No entry of the key is left, the hidden ones behind the first included.
  unfoldable pub remove : ℕ → List (ℕ × A) → List (ℕ × A)
  remove k [] = []
  remove k ((j, b) ∷ m) = let rest = remove k m in if j == k then rest else (j, b) ∷ rest

  -- The sum of a weight over all accounts.
  unfoldable pub total : (A → ℕ) → List (ℕ × A) → ℕ
  total f [] = 0
  total f ((_, a) ∷ m) = f a + total f m

  -- A property of every entry.
  abbrev pub Every {κ} : (ℕ → A → Type κ) → List (ℕ × A) → Type κ
  Every P [] = Unit
  Every P ((j, a) ∷ m) = P j a × Every P m

  pub lookup-insert :
      (k j : ℕ) (a : A) (m : List (ℕ × A))
      → lookup j (insert k a m) ≡ (if k == j then some a else lookup j m)
  unfolding lookup insert
  lookup-insert k j a [] = refl
  lookup-insert k j a ((i, b) ∷ m) = ground (arith, lookup-insert k j a m)

  pub lookup-insert_same : (k : ℕ) (a : A) (m : List (ℕ × A)) → lookup k (insert k a m) ≡ some a
  lookup-insert_same k a m = ground (arith, lookup-insert k k a m)

  pub lookup-remove :
      (k j : ℕ) (m : List (ℕ × A)) → lookup j (remove k m) ≡ (if k == j then none else lookup j m)
  unfolding lookup remove
  lookup-remove k j [] = ground arith
  lookup-remove k j ((i, b) ∷ m) = ground (arith, lookup-remove k j m)

  pub total-insert_new :
      (f : A → ℕ) (k : ℕ) (a : A) (m : List (ℕ × A))
      → lookup k m ≡ none
      → total f (insert k a m) ≡ total f m + f a
  unfolding lookup insert total
  total-insert_new f k a [] e = omega arith
  total-insert_new f k a ((i, b) ∷ m) e = ground (arith, total-insert_new f k a m)

  pub total-insert :
      (f : A → ℕ) (k : ℕ) (a old : A) (m : List (ℕ × A))
      → lookup k m ≡ some old
      → total f (insert k a m) + f old ≡ total f m + f a
  unfolding lookup insert total
  total-insert f k a old [] e = cc
  total-insert f k a old ((i, b) ∷ m) e = ground (arith, total-insert f k a old m)

  pub total-erase :
      (f : A → ℕ) (k : ℕ) (old : A) (m : List (ℕ × A))
      → lookup k m ≡ some old
      → total f (erase k m) + f old ≡ total f m
  unfolding lookup erase total
  total-erase f k old [] e = cc
  total-erase f k old ((i, b) ∷ m) e = ground (arith, total-erase f k old m)

  pub lookup-Every {κ} :
      (P : ℕ → A → Type κ) (k : ℕ) (a : A) (m : List (ℕ × A))
      → Every P m
      → lookup k m ≡ some a
      → P k a
  unfolding lookup
  lookup-Every P k a [] h e = cc
  lookup-Every P k a ((i, b) ∷ m) h e = elim (Bool-cases (i == k)) [
    | inl hit ↦
        let here : i ≡ k = ground arith in
        let found : b ≡ a = ground arith in subst (λ j. P j a) here (subst (λ x. P i x) found h.0)
    | inr miss ↦ lookup-Every P k a m h.1 (ground arith)
  ]

  pub insert-Every {κ} :
      (P : ℕ → A → Type κ) (k : ℕ) (a : A) (m : List (ℕ × A))
      → P k a
      → Every P m
      → Every P (insert k a m)
  unfolding insert
  insert-Every P k a [] p h = (p, tt)
  insert-Every P k a ((i, b) ∷ m) p h = elim (Bool-cases (i == k)) [
    | inl hit ↦ rw hit (p, h.1)
    | inr miss ↦ rw miss (h.0, insert-Every P k a m p h.1)
  ]

  pub erase-Every {κ} :
      (P : ℕ → A → Type κ) (k : ℕ) (m : List (ℕ × A)) → Every P m → Every P (erase k m)
  unfolding erase
  erase-Every P k [] h = tt
  erase-Every P k ((i, b) ∷ m) h = elim (Bool-cases (i == k)) [
    | inl hit ↦ rw hit h.1
    | inr miss ↦ rw miss (h.0, erase-Every P k m h.1)
  ]

-- ===== src/Bytes/Laws.antt =====
-- Reading back what was written: fields at an offset, and numbers by their bytes.
use programs.Prelude.{
  ℕ, zero, suc, ◌+◌, ◌-◌, ◌/◌, ◌^◌, ◌<◌, ◌≡◌, refl, ap, arith, List, [], ◌∷◌, ◌++◌,
}
use programs.Bytes.{length, take, drop, slice, from_le_bytes, read_le}
use programs.Seeds.{to_le_bytes}

module _ {ℓ} {A : Type ℓ} where
  pub length-append : (xs ys : List A) → length (xs ++ ys) ≡ length xs + length ys
  unfolding length
  length-append [] ys = omega arith
  length-append (x ∷ xs) ys = omega (arith, length-append xs ys)

  pub drop-append : (n : ℕ) (xs ys : List A) → length xs ≡ n → drop n (xs ++ ys) ≡ ys
  unfolding length drop
  drop-append zero [] ys h = refl
  drop-append zero (x ∷ xs) ys h = absurd (omega arith)
  drop-append (suc n) [] ys h = absurd (omega arith)
  drop-append (suc n) (x ∷ xs) ys h = drop-append n xs ys (omega arith)

  pub take-append : (n : ℕ) (xs ys : List A) → length xs ≡ n → take n (xs ++ ys) ≡ xs
  unfolding length take
  take-append zero [] ys h = refl
  take-append zero (x ∷ xs) ys h = absurd (omega arith)
  take-append (suc n) [] ys h = absurd (omega arith)
  take-append (suc n) (x ∷ xs) ys h = ap (λ l. x ∷ l) (take-append n xs ys (omega arith))

module _ {ℓ} {A : Type ℓ} where
  pub drop-past : (n k : ℕ) (xs ys : List A) → length xs ≡ n → drop (n + k) (xs ++ ys) ≡ drop k ys
  unfolding length drop
  drop-past zero k [] ys h = let start : 0 + k ≡ k = omega arith in rw start refl
  drop-past zero k (x ∷ xs) ys h = absurd (omega arith)
  drop-past (suc n) k [] ys h = absurd (omega arith)
  drop-past (suc n) k (x ∷ xs) ys h =
      let next : suc n + k ≡ suc (n + k) = omega arith in
      rw next (drop-past n k xs ys (omega arith))

pub length-to_le_bytes : (w n : ℕ) → length (to_le_bytes w n) ≡ w
unfolding length to_le_bytes
length-to_le_bytes zero n = refl
length-to_le_bytes (suc w) n = omega (arith, length-to_le_bytes w (n / 256))

pub from_le_bytes-to_le_bytes : (w n : ℕ) → n < 256 ^ w → from_le_bytes (to_le_bytes w n) ≡ n
unfolding from_le_bytes to_le_bytes
from_le_bytes-to_le_bytes zero n h = omega arith
from_le_bytes-to_le_bytes (suc w) n h =
    omega (arith, from_le_bytes-to_le_bytes w (n / 256) (omega arith))

-- A number is read back from behind the bytes that precede it.
pub read_le-append :
    (w n offset : ℕ) (before after : List ℕ)
    → n < 256 ^ w
    → length before ≡ offset
    → read_le w (before ++ (to_le_bytes w n ++ after)) offset ≡ n
unfolding read_le slice
read_le-append w n offset before after h e =
    let width : offset + w - offset ≡ w = omega arith in
    rw
      (
        width,
        drop-append offset before (to_le_bytes w n ++ after) e,
        take-append w (to_le_bytes w n) after (length-to_le_bytes w n),
      )
      (from_le_bytes-to_le_bytes w n h)

pub read_le-past :
    (w n k : ℕ) (before after : List ℕ)
    → length before ≡ n
    → read_le w (before ++ after) (n + k) ≡ read_le w after k
unfolding read_le slice
read_le-past w n k before after e =
    let at : n + k + w - (n + k) ≡ w = omega arith in
    let here : k + w - k ≡ w = omega arith in rw (at, here, drop-past n k before after e) refl

-- ===== src/SafeMath/Laws.antt =====
-- When checked arithmetic succeeds, and with what.
use native.Mathlib.Nat.{div-mul-le_self, lt-div-mul-add}
use programs.Prelude.{ℕ, ◌+◌, ◌-◌, ◌*◌, ◌/◌, ◌^◌, ◌≤◌, ◌<◌, ◌≡◌, arith}
use programs.Errors.{ok}
use programs.SafeMath.{safe_add, safe_sub, safe_mul, safe_div, safe_to_u64}

pub safe_add-eq-ok : (w a b : ℕ) {c : ℕ} → safe_add w a b ≡ ok c → (c ≡ a + b) × (a + b < 2 ^ w)
unfolding safe_add
safe_add-eq-ok w a b h = ground arith

pub safe_sub-eq-ok : (a b : ℕ) {c : ℕ} → safe_sub a b ≡ ok c → (c ≡ a - b) × (b ≤ a)
unfolding safe_sub
safe_sub-eq-ok a b h = ground arith

pub safe_mul-eq-ok : (w a b : ℕ) {c : ℕ} → safe_mul w a b ≡ ok c → (c ≡ a * b) × (a * b < 2 ^ w)
unfolding safe_mul
safe_mul-eq-ok w a b h = ground arith

pub safe_div-eq-ok : (a b : ℕ) {c : ℕ} → safe_div a b ≡ ok c → (c ≡ a / b) × (0 < b)
unfolding safe_div
safe_div-eq-ok a b h = ground arith

pub safe_to_u64-eq-ok : (a : ℕ) {c : ℕ} → safe_to_u64 a ≡ ok c → (c ≡ a) × (a < 2 ^ 64)
unfolding safe_to_u64
safe_to_u64-eq-ok a h = ground arith

-- A quotient as two facts without division.
pub quotient_bounds : (a b : ℕ) → 0 < b → (a / b * b ≤ a) × (a < a / b * b + b)
quotient_bounds a b p = (div-mul-le_self a b, lt-div-mul-add p)

-- A product of an m-bit and an n-bit word fits m + n bits.
pub product-lt : (m n a b : ℕ) → a < 2 ^ m → b < 2 ^ n → a * b < 2 ^ m * 2 ^ n
product-lt m n a b p q = grind arith

pub safe_add_ok : (w a b : ℕ) → a + b < 2 ^ w → safe_add w a b ≡ ok (a + b)
unfolding safe_add
safe_add_ok w a b h = ground arith

pub safe_sub_ok : (a b : ℕ) → b ≤ a → safe_sub a b ≡ ok (a - b)
unfolding safe_sub
safe_sub_ok a b h = ground arith

pub safe_mul_ok : (w a b : ℕ) → a * b < 2 ^ w → safe_mul w a b ≡ ok (a * b)
unfolding safe_mul
safe_mul_ok w a b h = ground arith

pub safe_div_ok : (a b : ℕ) → 0 < b → safe_div a b ≡ ok (a / b)
unfolding safe_div
safe_div_ok a b h = ground arith

pub safe_to_u64_ok : (a : ℕ) → a < 2 ^ 64 → safe_to_u64 a ≡ ok a
unfolding safe_to_u64
safe_to_u64_ok a h = ground arith

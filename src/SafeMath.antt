-- ===== src/SafeMath.antt =====
-- utils/safe_math.rs: checked arithmetic. A w-bit unsigned value is a number below 2 ^ w; an i64 is an
-- integer. The `SafeMathAssign` methods are these operations followed by a write.
pub mod Laws
use programs.Prelude.{ℕ, ◌+◌, ◌-◌, ◌*◌, ◌/◌, ◌^◌, Bool, ◌&&◌, ltb, leb, ◌==◌, if◌then◌else◌}
use programs.Prelude.Int.{ℤ, pos, negsuc, ◌+ℤ◌, ◌-ℤ◌, leb_ℤ, ltb_ℤ}
use programs.Errors.{Result, ok, err, custom, math_overflow, conversion_failed}

unfoldable pub safe_add : ℕ → ℕ → ℕ → Result ℕ
safe_add w a b = if ltb (a + b) (2 ^ w) then ok (a + b) else err (custom math_overflow)

unfoldable pub safe_sub : ℕ → ℕ → Result ℕ
safe_sub a b = if leb b a then ok (a - b) else err (custom math_overflow)

unfoldable pub safe_mul : ℕ → ℕ → ℕ → Result ℕ
safe_mul w a b = if ltb (a * b) (2 ^ w) then ok (a * b) else err (custom math_overflow)

unfoldable pub safe_div : ℕ → ℕ → Result ℕ
safe_div a b = if b == 0 then err (custom math_overflow) else ok (a / b)

unfoldable pub safe_to_u64 : ℕ → Result ℕ
safe_to_u64 a = if ltb a (2 ^ 64) then ok a else err (custom conversion_failed)

-- The range of an i64.
abbrev pub i64_min : ℤ
i64_min = negsuc (2 ^ 63 - 1)

abbrev pub i64_max : ℤ
i64_max = pos (2 ^ 63 - 1)

abbrev pub fits_i64 : ℤ → Bool
fits_i64 a = leb_ℤ i64_min a && leb_ℤ a i64_max

unfoldable pub safe_add_i64 : ℤ → ℤ → Result ℤ
safe_add_i64 a b = if fits_i64 (a +ℤ b) then ok (a +ℤ b) else err (custom math_overflow)

-- `i64::saturating_sub`
unfoldable pub saturating_sub_i64 : ℤ → ℤ → ℤ
saturating_sub_i64 a b =
    if ltb_ℤ (a -ℤ b) i64_min then i64_min else if ltb_ℤ i64_max (a -ℤ b) then i64_max else a -ℤ b

-- `as u128` and `as u64` of an i64: a negative value is read modulo the width.
unfoldable pub cast_unsigned : ℕ → ℤ → ℕ
cast_unsigned w (pos n) = n
cast_unsigned w (negsuc n) = 2 ^ w - 1 - n

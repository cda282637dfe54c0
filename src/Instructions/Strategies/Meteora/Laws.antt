-- ===== src/Instructions/Strategies/Meteora/Laws.antt =====
-- The arithmetic of the Meteora instructions against what it means without a machine's width.
use programs.Prelude.{ℕ, ◌+◌, ◌*◌, ◌/◌, ◌^◌, ◌<◌, ◌≤◌, ◌≡◌, ◌↔◌, arith, Option}
use programs.Prelude.Int.{ℤ, pos, ◌+ℤ◌, ◌-ℤ◌, ◌≤ℤ◌, +ℤ_parts, -ℤ_parts}
use programs.Errors.{ok, validate}
use programs.SafeMath.{safe_mul, safe_div, safe_to_u64}
use programs.Instructions.Strategies.Meteora.{treasury_fee}
use programs.Instructions.Strategies.Meteora.Bins.{
  checked_i32, requested_or, checked_bin_range, initial_width, validate_extension,
}

-- The fee that the treasury takes of a claimed amount below 2^64 never fails to be computed, and
-- is a tenth of the amount, rounded down.
pub treasury_fee_lem : (claimed : ℕ) → claimed < 2 ^ 64 → treasury_fee claimed ≡ ok (claimed / 10)
unfolding treasury_fee safe_mul safe_div safe_to_u64
treasury_fee_lem claimed h =
    let same : claimed * 1_000 / 10_000 ≡ claimed / 10 = omega arith in ground (arith, same)

-- An extension of a position is accepted exactly when it adds 1 to 91 bins, the position has at
-- least one bin, and the new width is at most 1400 bins, in integers of any size: the 32 bits of
-- the bin arithmetic never decide.
pub validate_extension_iff :
    (lower upper : ℤ) (bins : ℕ)
    → (validate_extension lower upper bins ≡ ok tt) ↔ (
        (1 ≤ bins)
        × (bins ≤ 91)
        × (lower ≤ℤ upper)
        × (upper +ℤ pos (bins + 1) ≤ℤ lower +ℤ pos 1_400))
unfolding validate_extension checked_i32 validate
validate_extension_iff lower upper bins = ground (
  arith,
  -ℤ_parts upper lower,
  +ℤ_parts (upper -ℤ lower) (pos 1),
  +ℤ_parts ((upper -ℤ lower) +ℤ pos 1) (pos bins),
  +ℤ_parts upper (pos (bins + 1)),
  +ℤ_parts lower (pos 1_400),
)

pub initial_width_iff :
    (lower upper width : ℤ)
    → (initial_width lower upper ≡ ok width)
      ↔ ((width ≡ upper -ℤ lower) × (pos 1 ≤ℤ upper -ℤ lower) × (upper -ℤ lower ≤ℤ pos 70))
unfolding initial_width checked_i32 validate
initial_width_iff lower upper width = ground (arith)

pub checked_bin_range_iff :
    (lower upper : ℤ) (requested : Option (ℤ × ℤ)) (range : ℤ × ℤ)
    → (checked_bin_range lower upper requested ≡ ok range) ↔ (
        (range ≡ requested_or requested (lower, upper))
        × (lower ≤ℤ range.0)
        × (range.0 ≤ℤ range.1)
        × (range.1 ≤ℤ upper))
unfolding checked_bin_range validate
checked_bin_range_iff lower upper requested range = ground arith

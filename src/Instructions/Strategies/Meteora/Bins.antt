-- ===== src/Instructions/Strategies/Meteora/Bins.antt =====
-- The bin ranges of instructions/meteora_dlmm_bin_range.rs, of meteora_dlmm_initialize_position.rs and
-- of meteora_dlmm_extend_position.rs, in checked i32 arithmetic.
use programs.Prelude.{ℕ, ◌-◌, ◌^◌, Bool, ◌&&◌, Option, none, some, leb, if◌then◌else◌}
use programs.Prelude.Int.{ℤ, pos, negsuc, ◌+ℤ◌, ◌-ℤ◌, leb_ℤ}
use programs.Errors.{Result, ok, err, custom, ◌>>=◌, ◌>>◌, validate, invalid_position_bin_range}

-- Whether a value fits an i32.
abbrev pub fits_i32 : ℤ → Bool
fits_i32 a = leb_ℤ (negsuc (2 ^ 31 - 1)) a && leb_ℤ a (pos (2 ^ 31 - 1))

-- `checked_sub` and `checked_add` of an i32, whose failure is the range error here.
unfoldable pub checked_i32 : ℤ → Result ℤ
checked_i32 a = if fits_i32 a then ok a else err (custom invalid_position_bin_range)

-- The position's own range, if none is requested.
unfoldable pub requested_or : Option (ℤ × ℤ) → ℤ × ℤ → ℤ × ℤ
requested_or none whole = whole
requested_or (some part) whole = part

unfoldable pub checked_bin_range :
    (position_lower position_upper : ℤ) (requested : Option (ℤ × ℤ)) → Result (ℤ × ℤ)
checked_bin_range position_lower position_upper requested =
    let range = requested_or requested (position_lower, position_upper) in
    (do
      validate
          (leb_ℤ position_lower range.0 && leb_ℤ range.1 position_upper && leb_ℤ range.0 range.1)
          invalid_position_bin_range
      ok range)

unfoldable pub initial_width : ℤ → ℤ → Result ℤ
initial_width lower_bin_id upper_bin_id = do
  width ← checked_i32 (upper_bin_id -ℤ lower_bin_id)
  validate (leb_ℤ (pos 1) width && leb_ℤ width (pos 70)) invalid_position_bin_range
  ok width

abbrev pub max_position_width : ℤ
max_position_width = pos 1_400

abbrev pub max_resize_length : ℕ
max_resize_length = 91

abbrev pub upper_side : ℕ
upper_side = 1

unfoldable pub validate_extension : (lower upper : ℤ) (bins_to_add : ℕ) → Result (Unit {0})
validate_extension lower upper bins_to_add = do
  validate (leb 1 bins_to_add && leb bins_to_add max_resize_length) invalid_position_bin_range
  span ← checked_i32 (upper -ℤ lower)
  width ← checked_i32 (span +ℤ pos 1)
  validate (leb_ℤ (pos 1) width && leb_ℤ width max_position_width) invalid_position_bin_range
  new_width ← checked_i32 (width +ℤ pos bins_to_add)
  validate (leb_ℤ new_width max_position_width) invalid_position_bin_range

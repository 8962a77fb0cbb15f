-- ===== src/Color.antt =====
-- src/color.h and src/color.cc: texts with the escape sequences of a terminal around them, for the
-- log.
pub mod Strip
use zbroker.Base.{
  ℕ, ℤ, pos, negsuc, ◌+◌, ◌-◌, ◌^◌, decimal_int, Bool, true, [], ◌∷◌, ◌++◌, Text, codes, length,
  ltb, if◌then◌else◌, Result, ok, err, undefined_behaviour,
}
use zbroker.Packet.{c_string}

abbrev pub color_reset : Text
color_reset = 27 ∷ codes "[m"

abbrev pub color_bold : Text
color_bold = 27 ∷ codes "[1m"

abbrev pub color_red : Text
color_red = 27 ∷ codes "[31m"

abbrev pub color_blue : Text
color_blue = 27 ∷ codes "[34m"

-- `text` and `color` are C strings.
unfoldable pub color_text : Text → Text → Bool → Text
color_text text color bold =
    let ret = if bold then color_bold else [] in ret ++ (color ++ (text ++ color_reset))

unfoldable red_text : Text → Bool → Text
red_text text bold = color_text text color_red bold

-- `red_text` of a `string`, whose C string ends before its first 0.
unfoldable red_text_string : Text → Bool → Text
red_text_string text bold = red_text (c_string text) bold

unfoldable pub blue_text : Text → Bool → Text
blue_text text bold = color_text text color_blue bold

unfoldable blue_text_string : Text → Bool → Text
blue_text_string text bold = blue_text (c_string text) bold

unfoldable color_begin : Text → Bool → Text
color_begin color bold = let ret = if bold then color_bold else [] in ret ++ color

unfoldable red_begin : Bool → Text
red_begin bold = color_begin color_red bold

unfoldable blue_begin : Bool → Text
blue_begin bold = color_begin color_blue bold

unfoldable color_end : Text
color_end = color_reset

-- `color_id` of a `string`; `blue_text` is bold if nothing else is said.
unfoldable color_id : Text → Text
color_id id_str = b'[' ∷ blue_text_string id_str true ++ codes "]"

-- A `size_t` that is printed by `%zd`, for a signed number.
unfoldable pub signed_size : ℕ → ℤ
signed_size id = if ltb id (2 ^ 63) then pos id else negsuc (2 ^ 64 - 1 - id)

-- `color_id` of a `size_t`, which goes through a buffer of 128 bytes.
unfoldable pub color_id_number : ℕ → Result Text
color_id_number id =
    if ltb 128 (length (decimal_int (signed_size id)) + 1)
    then err undefined_behaviour
    else ok (b'[' ∷ blue_text (decimal_int (signed_size id)) true ++ codes "]")

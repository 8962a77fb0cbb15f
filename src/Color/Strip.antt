-- ===== src/Color/Strip.antt =====
-- What a terminal shows of a coloured text: the text.
use zbroker.Base.{
  negsuc, pos, ltb, ℤ, decimal_int, decimal-digits, All-map, ℕ, suc, ◌+◌, ◌-◌, ◌^◌, ◌≤◌, ◌<◌, ◌≡◌,
  ◌≢◌, refl, ap, ◌∙◌, inl, inr, Bool, true, false, [], ◌∷◌, ◌++◌, append_assoc, Text, codes, length,
  All, ◌==◌, if◌then◌else◌, decimal, length-decimal-le, ok, arith, le→ltb, Bool-cases,
}
use zbroker.Color.{
  signed_size, color_reset, color_red, color_blue, color_text, blue_text, color_id_number,
}

-- What is shown of a text: not the escape sequences, each from an ESC up to its `m`. The flag is
-- set within one.
shown : Bool → Text → Text
shown inside [] = []
shown true (c ∷ text) =
    let rest = shown true text in let out = shown false text in if c == b'm' then out else rest
shown false (c ∷ text) =
    let rest = shown true text in let out = shown false text in if c == 27 then rest else c ∷ out

-- A text with no escape sequence.
abbrev IsPlain : Text → Type 0
IsPlain text = All (λ c. c ≢ 27) text

ne→== : (a b : ℕ) → a ≢ b → a == b ≡ false
ne→== a b h = ground arith

shown-plain :
    (text rest : Text) → IsPlain text → shown false (text ++ rest) ≡ text ++ shown false rest
unfolding shown
shown-plain [] rest h = refl
shown-plain (c ∷ text) rest (p, h) = rw (ne→== c 27 p) (ap (◌∷◌ c) (shown-plain text rest h))

-- A colour of the log.
data IsColor : Text → Type 0 where
  red : IsColor color_red
  blue : IsColor color_blue

-- The text and the closing sequence.
shown-closed :
    (text after : Text)
    → IsPlain text
    → shown false ((text ++ color_reset) ++ after) ≡ text ++ shown false after
unfolding shown
shown-closed text after p =
    ap (shown false) (append_assoc text color_reset after)
    ∙ shown-plain text (color_reset ++ after) p

-- A coloured text with no ESC, bold or not, in front of any other, shows as the text.
shown-color_text :
    (text color after : Text) (bold : Bool)
    → IsColor color
    → IsPlain text
    → shown false (color_text text color bold ++ after) ≡ text ++ shown false after
unfolding color_text shown
shown-color_text text color after true red p = shown-closed text after p
shown-color_text text color after false red p = shown-closed text after p
shown-color_text text color after true blue p = shown-closed text after p
shown-color_text text color after false blue p = shown-closed text after p

-- The bytes of a decimal are digits.
IsPlain-decimal : (n : ℕ) → IsPlain (decimal n)
IsPlain-decimal n = All-map (λ c (h, k) e. absurd (omega arith)) (decimal n) (decimal-digits n)

IsPlain-decimal_int : (x : ℤ) → IsPlain (decimal_int x)
unfolding decimal_int
IsPlain-decimal_int (pos n) = IsPlain-decimal n
IsPlain-decimal_int (negsuc n) = (omega arith, IsPlain-decimal (suc n))

length-signed_size-le : (id : ℕ) → id < 2 ^ 64 → length (decimal_int (signed_size id)) ≤ 21
unfolding signed_size decimal_int
length-signed_size-le id h = elim (Bool-cases (ltb id (2 ^ 63))) [
  | inl e ↦ rw e (omega (arith, length-decimal-le id 19 (omega arith)))
  | inr e ↦
      let n = 2 ^ 64 - 1 - id in rw e (omega (arith, length-decimal-le (suc n) 19 (omega arith)))
]

-- `color_id` of a `size_t` does not overrun its buffer, and shows as the number in brackets, which
-- is the negative one of the same bits from 2 ^ 63 on.
shown-color_id_number :
    (id : ℕ)
    → id < 2 ^ 64
    → (text : Text) × (color_id_number id ≡ ok text)
      × (shown false text ≡ b'[' ∷ decimal_int (signed_size id) ++ codes "]")
unfolding color_id_number blue_text shown
shown-color_id_number id h =
    let number = decimal_int (signed_size id) in
    (
      b'[' ∷ blue_text number true ++ codes "]",
      rw
          (
            le→ltb 128 (length number + 1) (omega (arith, length-signed_size-le id h)),
            color_id_number,
          )
          refl,
      ap (◌∷◌ b'[') (
          shown-color_text number color_blue (codes "]") true blue
            (IsPlain-decimal_int (signed_size id))),
    )

-- ===== src/Base/Decimal.antt =====
-- Decimal numbers as the standard library prints and reads them: `sprintf` with %d, %ld and a
-- width, and `atoi`.
use Prim.Native.Nat.{◌^◌, ℕ, zero, suc, ◌+◌, ◌-◌, ◌*◌, ◌/◌, ◌%◌, ◌≤◌, ◌<◌}
use mathlib.Core.Path.{◌∙◌, sym, ap, ◌≡◌, refl}
use mathlib.Core.Bool.{Bool, true, ◌&&◌, ◌||◌}
use mathlib.Core.List.{[], ◌∷◌, ◌++◌}
use mathlib.Core.Logic.{inl, inr}
use native.Mathlib.Omega.{arith}
use zbroker.Base.Tests.{Bool-cases, Bool-cases, ltb, leb, ◌==◌, if◌then◌else◌}
use zbroker.Base.Lists.{All, length, replicate, length-append, length-replicate}
use zbroker.Base.Signed.{ℤ, pos, negsuc, fits_int}
use zbroker.Base.Bytes.{Text}
use zbroker.Base.Outcome.{Result, ok, err, undefined_behaviour}

abbrev pub is_digit : ℕ → Bool
is_digit c = leb b'0' c && leb c b'9'

-- isspace in the C locale
abbrev pub is_space : ℕ → Bool
is_space c = c == 32 || (leb 9 c && leb c 13)

-- The digits of `n` in front of `out`. Each round divides by ten, so any fuel above `n` is enough.
emit : ℕ → ℕ → Text → Text
emit zero n out = out
emit (suc fuel) n out =
    let rest = emit fuel (n / 10) ((b'0' + n % 10) ∷ out) in
    if ltb n 10 then (b'0' + n) ∷ out else rest

unfoldable pub decimal : ℕ → Text
unfolding emit
decimal n = emit (suc n) n []

unfoldable pub decimal_int : ℤ → Text
unfolding decimal
decimal_int (pos n) = decimal n
decimal_int (negsuc n) = b'-' ∷ decimal (suc n)

-- A width pads with spaces on the left, and cuts nothing off.
unfoldable pub pad_left : ℕ → Text → Text
pad_left width text = replicate (width - length text) 32 ++ text

unfoldable pub scan_digits : ℕ → Text → ℕ
scan_digits n [] = n
scan_digits n (c ∷ s) =
    let rest = scan_digits (n * 10 + (c - b'0')) s in if is_digit c then rest else n

unfoldable pub skip_space : Text → Text
skip_space [] = []
skip_space (c ∷ s) = let rest = skip_space s in if is_space c then rest else c ∷ s

negate : ℕ → ℤ
negate zero = pos zero
negate (suc n) = negsuc n

signed : Text → ℤ
unfolding scan_digits negate
signed [] = pos 0
signed (c ∷ s) =
    if c == b'-'
    then negate (scan_digits 0 s)
    else if c == b'+'
    then pos (scan_digits 0 s)
    else pos (scan_digits 0 (c ∷ s))

-- `atoi`, which is undefined where the number is no `int`.
unfoldable pub atoi : Text → Result ℤ
unfolding signed skip_space
atoi text = let n = signed (skip_space text) in if fits_int n then ok n else err undefined_behaviour

-- A power of ten.
abbrev pub pow_ten : ℕ → ℕ
pow_ten zero = 1
pow_ten (suc k) = 10 * pow_ten k

scan_digits-emit :
    (fuel n : ℕ) (out : Text) → n < fuel → scan_digits 0 (emit fuel n out) ≡ scan_digits n out
unfolding emit scan_digits
scan_digits-emit zero n out h = absurd (omega arith)
scan_digits-emit (suc fuel) n out h =
    ground (arith, scan_digits-emit fuel (n / 10) ((b'0' + n % 10) ∷ out))

length-emit :
    (fuel n k : ℕ) (out : Text)
    → n < pow_ten (suc k)
    → length (emit fuel n out) ≤ suc k + length out
unfolding emit
length-emit zero n k out h = omega arith
length-emit (suc fuel) n zero out h = ground arith
length-emit (suc fuel) n (suc k) out h =
    ground (arith, length-emit fuel (n / 10) k ((b'0' + n % 10) ∷ out))

-- A number below 10 ^ (k + 1) has at most k + 1 digits.
pub length-decimal-le : (n k : ℕ) → n < pow_ten (suc k) → length (decimal n) ≤ suc k
unfolding decimal
length-decimal-le n k h = omega (arith, length-emit (suc n) n k [] h)

-- The first byte of a print is a digit.
abbrev StartsWithDigit : Text → Type 0
StartsWithDigit [] = ⊥
StartsWithDigit (c ∷ s) = (b'0' ≤ c) × (c ≤ b'9')

emit-StartsWithDigit : (fuel n : ℕ) (out : Text) → n < fuel → StartsWithDigit (emit fuel n out)
unfolding emit
emit-StartsWithDigit zero n out h = absurd (omega arith)
emit-StartsWithDigit (suc fuel) n out h =
    ground (arith, emit-StartsWithDigit fuel (n / 10) ((b'0' + n % 10) ∷ out))

skip_space-replicate : (n : ℕ) (s : Text) → skip_space (replicate n 32 ++ s) ≡ skip_space s
unfolding skip_space
skip_space-replicate zero s = refl
skip_space-replicate (suc n) s = skip_space-replicate n s

signed-digits : (s : Text) → StartsWithDigit s → signed (skip_space s) ≡ pos (scan_digits 0 s)
unfolding signed skip_space
signed-digits [] h = absurd h
signed-digits (c ∷ s) h = ground arith

-- `atoi` reads a padded print of an `int` back.
pub atoi-pad_left-decimal :
    (width n : ℕ) → fits_int (pos n) ≡ true → atoi (pad_left width (decimal n)) ≡ ok (pos n)
unfolding atoi pad_left decimal
atoi-pad_left-decimal width n h =
    rw
      (
        skip_space-replicate _ (emit (suc n) n []),
        signed-digits _ (emit-StartsWithDigit (suc n) n [] (omega arith)),
        scan_digits-emit (suc n) n [] (omega arith),
      )
      (ground arith)

pub length-pad_left : (width : ℕ) (s : Text) → length s ≤ width → length (pad_left width s) ≡ width
unfolding pad_left
length-pad_left width s h = omega (
  arith,
  length-append (replicate (width - length s) 32) s,
  length-replicate (width - length s) (let c : ℕ = 32 in c),
)

pad_left-zero : (s : Text) → pad_left 0 s ≡ s
unfolding pad_left
pad_left-zero s = let e : 0 - length s ≡ 0 = omega arith in rw e

-- `atoi` reads a print of an `int` back.
pub atoi-decimal : (n : ℕ) → fits_int (pos n) ≡ true → atoi (decimal n) ≡ ok (pos n)
atoi-decimal n h = ap atoi (sym (pad_left-zero (decimal n))) ∙ atoi-pad_left-decimal 0 n h

-- The print of an `int` has at most eleven bytes.
pub length-decimal_int-le : (n : ℤ) → fits_int n ≡ true → length (decimal_int n) ≤ 11
unfolding decimal_int
length-decimal_int-le (pos n) h =
    let b : n < 2 ^ 31 = ground arith in omega (arith, length-decimal-le n 9 (omega arith))
length-decimal_int-le (negsuc n) h =
    let b : n < 2 ^ 31 = ground arith in omega (arith, length-decimal-le (suc n) 9 (omega arith))

emit-digits :
    (fuel n : ℕ) (out : Text)
    → All (λ c. (b'0' ≤ c) × (c ≤ b'9')) out
    → n < fuel
    → All (λ c. (b'0' ≤ c) × (c ≤ b'9')) (emit fuel n out)
unfolding emit
emit-digits zero n out h k = h
emit-digits (suc fuel) n out h k = elim (Bool-cases (ltb n 10)) [
  | inl e ↦ rw e ((omega arith, ground arith), h)
  | inr e ↦ rw e (
      emit-digits fuel (n / 10) ((b'0' + n % 10) ∷ out) ((omega arith, omega arith), h)
        (ground arith))
]

-- The bytes of a print are digits.
pub decimal-digits : (n : ℕ) → All (λ c. (b'0' ≤ c) × (c ≤ b'9')) (decimal n)
unfolding decimal
decimal-digits n = emit-digits (suc n) n [] tt (omega arith)

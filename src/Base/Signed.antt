-- ===== src/Base/Signed.antt =====
-- C's `int` as a signed number, with the conversions and the limits that the code relies on.
use Prim.Native.Nat.{ℕ, suc, ◌-◌, ◌*◌, ◌%◌, ◌^◌}
use mathlib.Core.Bool.{Bool, true, false}
use zbroker.Base.Tests.{ltb, ◌==◌, if◌then◌else◌}

-- `negsuc n` is -(n + 1).
pub data ℤ : Type 0 where
  pos : ℕ → ℤ
  negsuc : ℕ → ℤ

abbrev pub eq_ℤ : ℤ → ℤ → Bool
eq_ℤ (pos a) (pos b) = a == b
eq_ℤ (negsuc a) (negsuc b) = a == b
eq_ℤ _ _ = false

abbrev pub is_negative : ℤ → Bool
is_negative (pos n) = false
is_negative (negsuc n) = true

-- INT_MIN, which mongo's `getIntField` returns for a missing field.
abbrev pub int_min : ℤ
int_min = negsuc (2 ^ 31 - 1)

abbrev pub size_mod : ℕ
size_mod = 2 ^ 64

-- ULONG_MAX
abbrev pub ulong_max : ℕ
ulong_max = size_mod - 1

-- The conversion of an `int` to `size_t`.
abbrev pub to_size_t : ℤ → ℕ
to_size_t (pos n) = n
to_size_t (negsuc n) = size_mod - suc n

-- The conversion of a `size_t` to an `int`, which wraps around.
abbrev pub to_int : ℕ → ℤ
to_int n = if ltb (n % 2 ^ 32) (2 ^ 31) then pos (n % 2 ^ 32) else negsuc (2 ^ 32 - 1 - n % 2 ^ 32)

-- n * k for a small constant k, as mathematics has it.
abbrev pub scale : ℕ → ℤ → ℤ
scale k (pos n) = pos (n * k)
scale k (negsuc n) = if k == 0 then pos 0 else negsuc (suc n * k - 1)

-- Whether a number is a value of a 32-bit `int`.
abbrev pub fits_int : ℤ → Bool
fits_int (pos n) = ltb n (2 ^ 31)
fits_int (negsuc n) = ltb n (2 ^ 31)

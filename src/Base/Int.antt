-- ===== src/Base/Int.antt =====
-- The signed integers that C's `int` holds, over the native numbers, under the library's names.
use Prim.Native.Nat.{ℕ, suc, ◌+◌, ◌-◌, ◌%◌, ◌^◌}
use mathlib.Core.Bool.{Bool, true, false}
use nbos.Base.Tests.{leb, ltb, if◌then◌else◌}

-- `negsuc n` is -(n + 1).
pub data ℤ : Type 0 where
  pos : ℕ → ℤ
  negsuc : ℕ → ℤ

-- a - b, as an integer.
abbrev pub sub_ℕ : ℕ → ℕ → ℤ
sub_ℕ a b = if leb b a then pos (a - b) else negsuc (b - a - 1)

-- z + n for a natural number n.
abbrev pub add_ℕ : ℤ → ℕ → ℤ
add_ℕ (pos a) n = pos (a + n)
add_ℕ (negsuc a) n = sub_ℕ n (suc a)

infixl 65 ◌+ℤ◌
abbrev pub ◌+ℤ◌ : ℤ → ℤ → ℤ
a +ℤ pos n = add_ℕ a n
pos a +ℤ negsuc n = sub_ℕ a (suc n)
negsuc a +ℤ negsuc n = negsuc (suc (a + n))

abbrev pub is_neg : ℤ → Bool
is_neg (pos n) = false
is_neg (negsuc n) = true

-- z < n for a natural number n.
abbrev pub ltb_ℤ : ℤ → ℕ → Bool
ltb_ℤ (pos a) n = ltb a n
ltb_ℤ (negsuc a) n = true

-- n < z for a natural number n.
abbrev pub gtb_ℤ : ℤ → ℕ → Bool
gtb_ℤ (pos a) n = ltb n a
gtb_ℤ (negsuc a) n = false

-- What a conversion of an unsigned number to a 32-bit `int` gives.
abbrev pub to_int : ℕ → ℤ
to_int n = let m = n % 2 ^ 32 in if ltb m (2 ^ 31) then pos m else negsuc (2 ^ 32 - 1 - m)

-- The integers of 32 bits.
abbrev pub is_int : ℤ → Bool
is_int (pos n) = ltb n (2 ^ 31)
is_int (negsuc n) = ltb n (2 ^ 31)

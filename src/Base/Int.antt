-- ===== src/Base/Int.antt =====
-- The `int` of C: an integer over the native numbers, and its 32-bit pattern.
use Prim.Native.Nat.{ℕ, suc, ◌+◌, ◌-◌, ◌^◌, ◌<◌}
use mathlib.Core.Path.{◌≡◌}
use mathlib.Core.Bool.{Bool}
use mathlib.Core.Option.{Option, none, some}
use native.Mathlib.Omega.{arith}
use cro_os.Base.Tests.{ltb, leb, if◌then◌else◌}

-- `negsuc n` is -(n + 1).
pub data ℤ : Type 0 where
  pos : ℕ → ℤ
  negsuc : ℕ → ℤ

abbrev pub pos_part : ℤ → ℕ
pos_part (pos n) = n
pos_part (negsuc n) = 0

abbrev pub neg_part : ℤ → ℕ
neg_part (pos n) = 0
neg_part (negsuc n) = suc n

-- a - b, as an integer.
abbrev pub sub_ℕ : ℕ → ℕ → ℤ
sub_ℕ a b = if leb b a then pos (a - b) else negsuc (b - a - 1)

infixl 65 ◌+ℤ◌
unfoldable pub ◌+ℤ◌ : ℤ → ℤ → ℤ
a +ℤ b = sub_ℕ (pos_part a + pos_part b) (neg_part a + neg_part b)

abbrev pub ltb_ℤ : ℤ → ℤ → Bool
ltb_ℤ a b = ltb (pos_part a + neg_part b) (pos_part b + neg_part a)

-- The -1 that the kernel's functions return on failure.
abbrev pub minus_one : ℤ
minus_one = negsuc 0

-- The `int` that a 32-bit pattern stands for.
abbrev pub signed32 : ℕ → ℤ
signed32 w = if ltb w (2 ^ 31) then pos w else negsuc (2 ^ 32 - w - 1)

-- The `n` slots of a table that an `int` may index: `none` for the test `id < 0 || id >= n`.
abbrev pub slot : ℕ → ℤ → Option ℕ
slot n (pos i) = if ltb i n then some i else none
slot n (negsuc i) = none

pub slot-is : (n : ℕ) (z : ℤ) (i : ℕ) → slot n z ≡ some i → (z ≡ pos i) × (i < n)
slot-is n (pos m) i e = ground (arith, e)
slot-is n (negsuc m) i e = ground (arith, e)

pub count_up : (n : ℕ) → pos n +ℤ pos 1 ≡ pos (n + 1)
unfolding ◌+ℤ◌
count_up n = ground arith

pub count_down : (n : ℕ) → pos (suc n) +ℤ minus_one ≡ pos n
unfolding ◌+ℤ◌
count_down n = ground arith

abbrev pub neg_ℤ : ℤ → ℤ
neg_ℤ (pos n) = sub_ℕ 0 n
neg_ℤ (negsuc n) = pos (suc n)

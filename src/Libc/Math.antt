-- ===== src/Libc/Math.antt =====
-- src/libc/math.c: the functions on integers. An `int` that overflows wraps. The functions on floating
-- point are left out.
pub mod Gcd
mod Tests
use cro_os.Base.{
  ℕ, zero, suc, ◌+◌, ◌-◌, ◌*◌, ◌/◌, ◌%◌, ◌^◌, bit_and, bit_xor, Bool, true, false, ltb, leb, ◌==◌,
  ◌!=◌, if◌then◌else◌, List, [], ◌∷◌, Option, none, some, ℤ, pos, negsuc, neg_ℤ, ltb_ℤ, ◌+ℤ◌,
  signed32, get_or,
}
use cro_os.Libc.Numbers.{unsigned32}

-- The distance of an integer from 0.
abbrev pub magnitude : ℤ → ℕ
magnitude (pos n) = n
magnitude (negsuc n) = suc n

unfoldable pub abs : ℤ → ℤ
abs (pos n) = pos n
abs (negsuc n) = signed32 (suc n % 2 ^ 32)

unfoldable pub min_int : ℤ → ℤ → ℤ
min_int a b = if ltb_ℤ a b then a else b

unfoldable pub max_int : ℤ → ℤ → ℤ
max_int a b = if ltb_ℤ b a then a else b

unfoldable pub clamp : ℤ → ℤ → ℤ → ℤ
clamp x lo hi = if ltb_ℤ x lo then lo else if ltb_ℤ hi x then hi else x

-- The loop of `ipow` on 32-bit patterns: an exponent has at most 31 bits.
unfoldable pub ipow_from : ℕ → ℕ → ℕ → ℕ → ℕ
ipow_from zero result base exp = result
ipow_from (suc fuel) result base exp =
    let result' = if bit_and exp 1 != 0 then result * base % 2 ^ 32 else result in
    let rest = ipow_from fuel result' (base * base % 2 ^ 32) (exp / 2) in
    if ltb 0 exp then rest else result

unfoldable pub ipow : ℤ → ℤ → ℤ
unfolding ipow_from
ipow base (pos exp) = signed32 (ipow_from 31 1 (unsigned32 base) exp)
ipow base (negsuc exp) = pos 1

-- `a / b` and `a % b` of C, which cut towards 0, for a `b` other than 0.
abbrev pub quot_ℤ : ℤ → ℤ → ℤ
quot_ℤ (pos a) (pos b) = pos (a / b)
quot_ℤ (pos a) (negsuc b) = neg_ℤ (pos (a / suc b))
quot_ℤ (negsuc a) (pos b) = neg_ℤ (pos (suc a / b))
quot_ℤ (negsuc a) (negsuc b) = pos (suc a / suc b)

abbrev pub rem_ℤ : ℤ → ℤ → ℤ
rem_ℤ (pos a) b = pos (a % magnitude b)
rem_ℤ (negsuc a) b = neg_ℤ (pos (suc a % magnitude b))

-- The loop of `gcd`; a round makes the second number smaller.
unfoldable pub gcd_from : ℕ → ℤ → ℤ → ℤ
gcd_from zero a b = a
gcd_from (suc fuel) a b =
    let rest = gcd_from fuel b (rem_ℤ a b) in if magnitude b == 0 then a else rest

unfoldable pub gcd : ℤ → ℤ → ℤ
gcd a b = gcd_from (suc (magnitude (abs b))) (abs a) (abs b)

-- `none` is a division by 0.
unfoldable pub lcm : ℤ → ℤ → Option ℤ
lcm a b =
    let g = gcd a b in
    if magnitude g == 0
    then none
    else some (signed32 (unsigned32 (quot_ℤ (abs a) g) * unsigned32 (abs b) % 2 ^ 32))

unfoldable pub fnv1a_from : ℕ → List ℕ → ℕ
fnv1a_from hash [] = hash
fnv1a_from hash (b ∷ bs) = fnv1a_from (bit_xor hash b * 16777619 % 2 ^ 32) bs

unfoldable pub fnv1a : List ℕ → ℕ
unfolding fnv1a_from
fnv1a bytes = fnv1a_from 2166136261 bytes

-- The eight rounds for an entry of the table of `crc32`.
unfoldable pub crc_rounds : ℕ → ℕ → ℕ
crc_rounds zero c = c
crc_rounds (suc left) c =
    crc_rounds left (if bit_and c 1 != 0 then bit_xor 0xEDB88320 (c / 2) else c / 2)

unfoldable pub crc32_table : ℕ → ℕ → List ℕ
unfolding crc_rounds
crc32_table zero i = []
crc32_table (suc left) i = crc_rounds 8 i ∷ crc32_table left (i + 1)

unfoldable pub crc_from : List ℕ → ℕ → List ℕ → ℕ
crc_from table crc [] = crc
crc_from table crc (b ∷ bs) =
    crc_from table (bit_xor (get_or table (bit_and (bit_xor crc b) 0xff) 0) (crc / 256)) bs

unfoldable pub crc32 : List ℕ → ℕ
unfolding crc32_table crc_from
crc32 bytes = bit_xor (crc_from (crc32_table 256 0) 0xFFFFFFFF bytes) 0xFFFFFFFF

-- The new state of the generator, which is also what `rand` returns.
unfoldable pub rand : ℕ → ℕ
rand state =
    let a = bit_xor state (state * 2 ^ 13 % 2 ^ 32) in
    let b = bit_xor a (a / 2 ^ 17) in bit_xor b (b * 2 ^ 5 % 2 ^ 32)

-- A number of the range, and the new state; `none` is a division by 0.
unfoldable pub rand_range : ℤ → ℤ → ℕ → Option (ℤ × ℕ)
unfolding rand ◌+ℤ◌
rand_range min_val max_val state =
    let width = (unsigned32 max_val + 2 ^ 32 - unsigned32 min_val + 1) % 2 ^ 32 in
    let r = rand state in
    if width == 0 then none else some (signed32 ((unsigned32 min_val + r % width) % 2 ^ 32), r)

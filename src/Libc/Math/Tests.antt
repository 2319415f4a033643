-- ===== src/Libc/Math/Tests.antt =====
-- Runs of src/libc/math.c.
use cro_os.Base.{◌≡◌, refl, arith, [], ◌∷◌, none, some, pos, negsuc}
use cro_os.Libc.Math.{
  gcd, gcd_from, abs, lcm, ipow, ipow_from, crc32, crc32_table, crc_rounds, crc_from,
}
use cro_os.Libc.Math.Gcd.{IsGcd, gcd-IsGcd}

three_to_5 : ipow (negsuc 2) (pos 5) ≡ negsuc 242
unfolding ipow ipow_from
three_to_5 = refl

lcm_zero : lcm (pos 0) (pos 0) ≡ none
unfolding lcm gcd gcd_from abs
lcm_zero = refl

lcm_4_6 : lcm (pos 4) (negsuc 5) ≡ some (pos 12)
unfolding lcm gcd gcd_from abs
lcm_4_6 = refl

-- The check value of the standard CRC-32, for "123456789".
crc_check : crc32 (49 ∷ 50 ∷ 51 ∷ 52 ∷ 53 ∷ 54 ∷ 55 ∷ 56 ∷ 57 ∷ []) ≡ 0xCBF43926
unfolding crc32 crc32_table crc_rounds crc_from
crc_check = refl

gcd-IsGcd_example : IsGcd 12 18 (gcd (negsuc 11) (pos 18))
gcd-IsGcd_example = gcd-IsGcd (negsuc 11) (pos 18) (omega arith) (omega arith)

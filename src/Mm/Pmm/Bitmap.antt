-- ===== src/Mm/Pmm/Bitmap.antt =====
-- What the bitmap helpers of src/mm/pmm.c do to each page's bit.
use cro_os.Base.{
  ℕ, zero, suc, ◌+◌, ◌/◌, ◌%◌, ◌^◌, ◌≤◌, ◌<◌, bit_and, bit_or, ◌≡◌, ◌≢◌, refl, List, [], ◌∷◌, ltb,
  arith, ◌==◌, if◌then◌else◌, length, get_or, set, length-set, get_or-set_self, get_or-set_ne,
  Bool-cases, inl, inr,
}
use cro_os.Base.Bits.{
  bit, not32, test_bit, test_bit-le, test_bit-or, test_bit-and, test_bit-bit, test_bit-not,
  test_bit-mod, bit_and-bit, bit-lt,
}
use native.Mathlib.Nat.{one-le-pow}
use native.Mathlib.Decide.{ℕ_discrete}
use cro_os.Mm.Pmm.{bitmap_set, bitmap_clear, bitmap_test}

-- The bit of page `q`: 1 if it is used.
abbrev pub used : List ℕ → ℕ → ℕ
used bm q = test_bit (get_or bm (q / 8) 0) (q % 8)

abbrev pub IsBytes : List ℕ → Type 0
IsBytes bm = (i : ℕ) → get_or bm i 0 < 2 ^ 8

pub used-le : (bm : List ℕ) (q : ℕ) → used bm q ≤ 1
used-le bm q = test_bit-le (get_or bm (q / 8) 0) (q % 8)

set-IsBytes : (bm : List ℕ) (j v : ℕ) → v < 2 ^ 8 → IsBytes bm → IsBytes (set bm j v)
set-IsBytes [] j v hv h i = omega arith
set-IsBytes (x ∷ bm) zero v hv h zero = hv
set-IsBytes (x ∷ bm) zero v hv h (suc i) = h (suc i)
set-IsBytes (x ∷ bm) (suc j) v hv h zero = h 0
set-IsBytes (x ∷ bm) (suc j) v hv h (suc i) = set-IsBytes bm j v hv (λ k. h (suc k)) i

-- `bitmap_test` is zero exactly at a free page.
pub bitmap_test-eq-zero : (bm : List ℕ) (q : ℕ) → bitmap_test bm q ≡ 0 → used bm q ≡ 0
unfolding bitmap_test
bitmap_test-eq-zero bm q h =
    grind (arith, bit_and-bit (get_or bm (q / 8) 0) (q % 8), one-le-pow (q % 8) 2, used-le bm q)

pub bitmap_test-ne-zero : (bm : List ℕ) (q : ℕ) → bitmap_test bm q ≢ 0 → used bm q ≡ 1
unfolding bitmap_test
bitmap_test-ne-zero bm q h = grind (arith, bit_and-bit (get_or bm (q / 8) 0) (q % 8), used-le bm q)

-- A store into the byte of page `p` shows at the pages of that byte.
used-set :
    (bm : List ℕ) (p q v : ℕ)
    → p / 8 < length bm
    → used (set bm (p / 8) v) q ≡ (if p / 8 == q / 8 then test_bit v (q % 8) else used bm q)
used-set bm p q v h = elim (Bool-cases (p / 8 == q / 8)) [
  | inl e ↦
      let e' : p / 8 ≡ q / 8 = ground arith in rw (e, ← e', get_or-set_self bm (p / 8) v 0 h) refl
  | inr ne ↦
      let ne' : p / 8 ≢ q / 8 = ground arith in
      rw (ne, get_or-set_ne bm (p / 8) (q / 8) v 0 ne') refl
]

-- `bitmap_set` marks its page and no other.
pub used-bitmap_set :
    (bm : List ℕ) (p q : ℕ)
    → p / 8 < length bm
    → used (bitmap_set bm p) q ≡ (if p == q then 1 else used bm q)
unfolding bitmap_set
used-bitmap_set bm p q h = ground (
  arith,
  used-set bm p q (bit_or (get_or bm (p / 8) 0) (bit (p % 8)) % 2 ^ 8) h,
  test_bit-mod 8 (bit_or (get_or bm (p / 8) 0) (bit (p % 8))) (q % 8) (omega arith),
  test_bit-or (get_or bm (p / 8) 0) (bit (p % 8)) (q % 8),
  test_bit-bit (p % 8) (q % 8),
  used-le bm q,
)

-- `~(1 << k)` has every bit of a byte but bit `k`.
test_bit-not-bit :
    (k j : ℕ) → k < 8 → j < 8 → test_bit (not32 (bit k)) j ≡ (if k == j then 0 else 1)
test_bit-not-bit k j hk hj =
    ground
      (arith, test_bit-not 32 (bit k) j (bit-lt k 32 (omega arith)) (omega arith), test_bit-bit k j)

-- `bitmap_clear` frees its page and no other.
pub used-bitmap_clear :
    (bm : List ℕ) (p q : ℕ)
    → p / 8 < length bm
    → used (bitmap_clear bm p) q ≡ (if p == q then 0 else used bm q)
unfolding bitmap_clear
used-bitmap_clear bm p q h = ground (
  arith,
  used-set bm p q (bit_and (get_or bm (p / 8) 0) (not32 (bit (p % 8))) % 2 ^ 8) h,
  test_bit-mod 8 (bit_and (get_or bm (p / 8) 0) (not32 (bit (p % 8)))) (q % 8) (omega arith),
  test_bit-and (get_or bm (p / 8) 0) (not32 (bit (p % 8))) (q % 8),
  test_bit-not-bit (p % 8) (q % 8) (omega arith) (omega arith),
  used-le bm q,
)

pub length-bitmap_set : (bm : List ℕ) (p : ℕ) → length (bitmap_set bm p) ≡ length bm
unfolding bitmap_set
length-bitmap_set bm p = length-set bm (p / 8) _

pub length-bitmap_clear : (bm : List ℕ) (p : ℕ) → length (bitmap_clear bm p) ≡ length bm
unfolding bitmap_clear
length-bitmap_clear bm p = length-set bm (p / 8) _

pub bitmap_set-IsBytes : (bm : List ℕ) (p : ℕ) → IsBytes bm → IsBytes (bitmap_set bm p)
unfolding bitmap_set
bitmap_set-IsBytes bm p h i = set-IsBytes bm (p / 8) _ (omega arith) h i

pub bitmap_clear-IsBytes : (bm : List ℕ) (p : ℕ) → IsBytes bm → IsBytes (bitmap_clear bm p)
unfolding bitmap_clear
bitmap_clear-IsBytes bm p h i = set-IsBytes bm (p / 8) _ (omega arith) h i

-- The used pages among the first `n`.
unfoldable pub count_used : List ℕ → ℕ → ℕ
count_used bm zero = 0
count_used bm (suc n) = count_used bm n + used bm n

pub count_used-le : (bm : List ℕ) (n : ℕ) → count_used bm n ≤ n
unfolding count_used
count_used-le bm zero = omega arith
count_used-le bm (suc n) = omega (arith, count_used-le bm n, used-le bm n)

-- Changing the bit of one page changes the count by that bit.
pub count_used-change :
    (bm bm' : List ℕ) (p v n : ℕ)
    → ((q : ℕ) → used bm' q ≡ (if p == q then v else used bm q))
    → count_used bm' n + (if ltb p n then used bm p else 0)
      ≡ count_used bm n + (if ltb p n then v else 0)
unfolding count_used
count_used-change bm bm' p v zero h = ground arith
count_used-change bm bm' p v (suc n) h = elim (ℕ_discrete p n) [
  | yes e ↦ rw (← e) (ground (arith, h p, rw (← e) at (count_used-change bm bm' p v n h)))
  | no ne ↦ ground (arith, h n, count_used-change bm bm' p v n h)
]

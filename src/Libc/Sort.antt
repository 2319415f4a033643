-- ===== src/Libc/Sort.antt =====
-- `qsort` of src/libc/stdlib.c. An array is a function from indices to elements, an element the
-- bytes of its `size`; what `compar` says is a parameter: whether its value for two elements is
-- negative. The size of the array is below 2^32.
pub mod Shuffles
pub mod Least
pub mod Order
mod Tests
use cro_os.Base.{ℕ, zero, suc, ◌+◌, ◌-◌, Bool, leb, ◌==◌, ◌!=◌, if◌then◌else◌}

-- The element at `i` and the one at `m` change places.
unfoldable pub swap : {A : Type 0} → ℕ → ℕ → (ℕ → A) → ℕ → A
swap i m arr k = if k == i then arr m else if k == m then arr i else arr k

module _ {A : Type 0} (less : A → A → Bool) where
  -- The inner loop: the index `min` behind `left` more elements from `j` on.
  unfoldable pub least : ℕ → ℕ → ℕ → (ℕ → A) → ℕ
  least zero j min arr = min
  least (suc left) j min arr = least left (j + 1) (if less (arr j) (arr min) then j else min) arr

  -- The outer loop, from `i` on, over an array of `n` elements.
  unfoldable pub sort_from : ℕ → ℕ → ℕ → (ℕ → A) → ℕ → A
  unfolding least swap
  sort_from zero i n arr = arr
  sort_from (suc left) i n arr =
      let min = least (n - (i + 1)) (i + 1) i arr in
      sort_from left (i + 1) n (if min != i then swap i min arr else arr)

  unfoldable pub qsort : ℕ → (ℕ → A) → ℕ → A
  unfolding sort_from
  qsort n arr = if leb n 1 then arr else sort_from (n - 1) 0 n arr

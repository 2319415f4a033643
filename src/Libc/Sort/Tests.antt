-- ===== src/Libc/Sort/Tests.antt =====
-- A run of `qsort` of src/libc/stdlib.c, on numbers.
use cro_os.Base.{ℕ, ◌<◌, ◌≡◌, refl, arith, false, [], ◌∷◌, get_or, ltb}
use cro_os.Libc.Sort.{qsort, sort_from, least, swap}
use cro_os.Libc.Sort.Least.{IsOrder}
use cro_os.Libc.Sort.Shuffles.{IsShuffle}
use cro_os.Libc.Sort.Order.{qsort_lem}

ltb-IsOrder : IsOrder ltb
ltb-IsOrder = record { asym = λ a b h. ground arith; trans = λ a b c h k. ground arith }

abbrev numbers : ℕ → ℕ
numbers i = get_or (3 ∷ 1 ∷ 2 ∷ []) i 9

first : qsort ltb 3 numbers 0 ≡ 1
unfolding qsort sort_from least swap
first = refl

qsort_lem_example :
    ((i j : ℕ) → i < j → j < 3 → ltb (qsort ltb 3 numbers j) (qsort ltb 3 numbers i) ≡ false)
    × IsShuffle 3 numbers (qsort ltb 3 numbers)
qsort_lem_example = qsort_lem ltb ltb-IsOrder 3 numbers

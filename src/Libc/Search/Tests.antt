-- ===== src/Libc/Search/Tests.antt =====
-- A search in the numbers 0 to 9 for 3.
use cro_os.Base.{ℕ, ◌≤◌, ◌<◌, ◌≡◌, refl, pos, negsuc, ltb, ◌==◌, if◌then◌else◌, some, arith, ℤ}
use cro_os.Libc.Search.{bsearch, search_between}
use cro_os.Libc.Search.Halves.{side, Outcome, bsearch_lem}

abbrev three : ℕ → ℤ
three i = if ltb i 3 then pos 1 else if i == 3 then pos 0 else negsuc 0

finds_three : bsearch three 10 ≡ some 3
unfolding bsearch search_between
finds_three = refl

three-side : (i : ℕ) → side (three i) ≡ (if ltb i 3 then 3 else if i == 3 then 2 else 1)
three-side i = ground arith

three-sorted : (i j : ℕ) → i < j → side (three j) ≤ side (three i)
three-sorted i j h = ground (arith, three-side i, three-side j)

bsearch_lem_example : Outcome three 0 10 (bsearch three 10)
bsearch_lem_example = bsearch_lem three 10 three-sorted (omega arith)

-- ===== src/Libc/Search.antt =====
-- `bsearch` of src/libc/stdlib.c. The comparison of the key with the element at an index, which
-- the caller gives, is a parameter; an element is its index. The loop runs on fuel, a unit for
-- each element.
pub mod Halves
mod Tests
use cro_os.Base.{
  ℕ, zero, suc, ◌+◌, ◌/◌, ◌%◌, ◌^◌, ltb, if◌then◌else◌, Option, none, some, ℤ, pos, negsuc,
}

-- What the sign of the comparison makes of the two halves.
abbrev pub chosen : ℕ → ℤ → Option ℕ → Option ℕ → Option ℕ
chosen mid (pos zero) below above = some mid
chosen mid (pos (suc n)) below above = above
chosen mid (negsuc n) below above = below

module _ (cmp : ℕ → ℤ) where
  unfoldable pub search_between : ℕ → ℕ → ℕ → Option ℕ
  search_between zero lo hi = none
  search_between (suc fuel) lo hi =
      let mid = (lo + hi) % 2 ^ 32 / 2 in
      let below = search_between fuel lo mid in
      let above = search_between fuel (mid + 1) hi in
      if ltb lo hi then chosen mid (cmp mid) below above else none

  unfoldable pub bsearch : ℕ → Option ℕ
  unfolding search_between
  bsearch nmemb = search_between nmemb 0 nmemb

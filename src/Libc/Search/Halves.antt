-- ===== src/Libc/Search/Halves.antt =====
-- `bsearch` of src/libc/stdlib.c finds what is there.
use cro_os.Base.{
  ℕ, zero, suc, ◌+◌, ◌/◌, ◌%◌, ◌^◌, ◌≤◌, ◌<◌, ◌≡◌, ◌≢◌, refl, ap, ◌∙◌, ltb, Option, none, some, ℤ,
  pos, negsuc, ◌⊎◌, inl, inr, Bool-cases, ltb→lt, ltb→le, arith,
}
use native.Mathlib.Decide.{ℕ_discrete, dec_lt}
use cro_os.Libc.Search.{chosen, search_between, bsearch}

-- 1 if the key comes before the element, 3 if behind, 2 if they are equal.
abbrev pub side : ℤ → ℕ
side (pos zero) = 2
side (pos (suc n)) = 3
side (negsuc n) = 1

abbrev pub Outcome : (ℕ → ℤ) → ℕ → ℕ → Option ℕ → Type 0
Outcome cmp lo hi r =
    ((i : ℕ) × ((r ≡ some i) × (lo ≤ i) × (i < hi) × (side (cmp i) ≡ 2)))
    ⊎ ((r ≡ none) × ((i : ℕ) → lo ≤ i → i < hi → side (cmp i) ≢ 2))

side-le : (c : ℤ) → side c ≤ 3
side-le (pos zero) = omega arith
side-le (pos (suc n)) = omega arith
side-le (negsuc n) = omega arith

module _ (cmp : ℕ → ℤ) (sorted : (i j : ℕ) → i < j → side (cmp j) ≤ side (cmp i)) where
  behind : (mid i n : ℕ) → cmp mid ≡ pos (suc n) → i < mid + 1 → side (cmp i) ≢ 2
  behind mid i n e h eq = elim (ℕ_discrete i mid) [
    | yes same ↦
        let z : side (cmp i) ≡ 3 = ap (λ k. side (cmp k)) same ∙ ap (λ c. side c) e in
        omega (arith, z)
    | no ne ↦
        let z : side (cmp mid) ≡ 3 = ap (λ c. side c) e in
        omega (arith, z, sorted i mid (omega arith), side-le (cmp i))
  ]

  before : (mid i n : ℕ) → cmp mid ≡ negsuc n → mid ≤ i → side (cmp i) ≢ 2
  before mid i n e h eq = elim (ℕ_discrete i mid) [
    | yes same ↦
        let z : side (cmp i) ≡ 1 = ap (λ k. side (cmp k)) same ∙ ap (λ c. side c) e in
        omega (arith, z)
    | no ne ↦
        let z : side (cmp mid) ≡ 1 = ap (λ c. side c) e in
        omega (arith, z, sorted mid i (omega arith))
  ]

  halves :
      (lo hi mid : ℕ) (c : ℤ) (below above : Option ℕ)
      → lo ≤ mid
      → mid < hi
      → cmp mid ≡ c
      → Outcome cmp lo mid below
      → Outcome cmp (mid + 1) hi above
      → Outcome cmp lo hi (chosen mid c below above)
  halves lo hi mid (pos zero) below above l u e b t = inl (mid, (refl, l, u, ap (λ c. side c) e))
  halves lo hi mid (pos (suc n)) below above l u e b t = elim t [
    | inl (i, (r, lo', hi', m)) ↦ inl (i, (r, omega arith, hi', m))
    | inr (r, rest) ↦ inr (
      r,
      λ i lo' hi'. elim (dec_lt i (mid + 1)) [
        | yes small ↦ behind mid i n e small
        | no big ↦ rest i (omega arith) hi'
      ],
    )
  ]
  halves lo hi mid (negsuc n) below above l u e b t = elim b [
    | inl (i, (r, lo', hi', m)) ↦ inl (i, (r, lo', omega arith, m))
    | inr (r, rest) ↦ inr (
      r,
      λ i lo' hi'. elim (dec_lt i mid) [
        | yes small ↦ rest i lo' small
        | no big ↦ before mid i n e (omega arith)
      ],
    )
  ]

  found_or_not :
      (fuel lo hi : ℕ)
      → hi ≤ lo + fuel
      → hi < 2 ^ 31
      → Outcome cmp lo hi (search_between cmp fuel lo hi)
  unfolding search_between
  found_or_not zero lo hi enough small = inr (refl, λ i l u. absurd (omega arith))
  found_or_not (suc fuel) lo hi enough small =
      let mid : ℕ = (lo + hi) % 2 ^ 32 / 2 in
      let below = found_or_not fuel lo mid in
      let above = found_or_not fuel (mid + 1) hi in
      elim (Bool-cases (ltb lo hi)) [
        | inl some_left ↦
            let lt : lo < hi = ltb→lt lo hi some_left in
            rw some_left (
              halves lo hi mid (cmp mid) _ _ (omega arith) (omega arith) refl
                (below (omega arith) (omega arith)) (above (omega arith) small))
        | inr none_left ↦
            let le : hi ≤ lo = ltb→le lo hi none_left in
            rw none_left (inr (refl, λ i l u. absurd (omega arith)))
      ]

-- In an array sorted as the comparison orders it, with less than 2^31 elements, `bsearch` returns
-- an element that equals the key, or NULL, and then no element does.
pub bsearch_lem :
    (cmp : ℕ → ℤ) (nmemb : ℕ)
    → ((i j : ℕ) → i < j → side (cmp j) ≤ side (cmp i))
    → nmemb < 2 ^ 31
    → Outcome cmp 0 nmemb (bsearch cmp nmemb)
unfolding bsearch
bsearch_lem cmp nmemb sorted small = found_or_not cmp sorted nmemb 0 nmemb (omega arith) small

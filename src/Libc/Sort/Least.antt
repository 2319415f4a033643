-- ===== src/Libc/Sort/Least.antt =====
-- The inner loop of `qsort` in src/libc/stdlib.c: the least element.
use cro_os.Base.{
  ℕ, zero, suc, ◌+◌, ◌≤◌, ◌<◌, ◌≡◌, sym, subst, Bool, true, false, Bool-cases, inl, inr, ==→eq,
  ==→ne, arith, ◌==◌, if◌then◌else◌,
}
use cro_os.Libc.Sort.{least}

-- A comparison that orders: `less a b` is that `a` must come before `b`.
pub record IsOrder {A : Type 0} (less : A → A → Bool) : Type 0 where
  pub asym : (a b : A) → less a b ≡ true → less b a ≡ false
  pub trans : (a b c : A) → less b a ≡ false → less c b ≡ false → less c a ≡ false

module _ {A : Type 0} (less : A → A → Bool) (o : IsOrder less) where
  pub irrefl : (a : A) → less a a ≡ false
  irrefl a = elim (Bool-cases (less a a)) [ inl e ↦ o.asym a a e | inr e ↦ e ]

  better : (j min : ℕ) (arr : ℕ → A) → ℕ
  better j min arr = if less (arr j) (arr min) then j else min

  -- The new minimum is below whatever the old one was below, and below the element at `j`.
  better-below :
      (j min : ℕ) (arr : ℕ → A) (c : A)
      → less c (arr min) ≡ false
      → less c (arr (better j min arr)) ≡ false
  unfolding better
  better-below j min arr c h = elim (Bool-cases (less (arr j) (arr min))) [
    | inl e ↦ rw e (o.trans (arr j) (arr min) c (o.asym (arr j) (arr min) e) h)
    | inr e ↦ rw e h
  ]

  better-at : (j min : ℕ) (arr : ℕ → A) → less (arr j) (arr (better j min arr)) ≡ false
  unfolding better
  better-at j min arr = elim (Bool-cases (less (arr j) (arr min))) [
    | inl e ↦ rw e (irrefl (arr j))
    | inr e ↦ rw e e
  ]

  better-cases :
      (j min : ℕ) (arr : ℕ → A) (i n : ℕ)
      → i ≤ min
      → i ≤ j
      → min < n
      → j < n
      → (i ≤ better j min arr) × (better j min arr < n)
  unfolding better
  better-cases j min arr i n a b c d = elim (Bool-cases (less (arr j) (arr min))) [
    | inl e ↦ rw e (b, d)
    | inr e ↦ rw e (a, c)
  ]

  -- The inner loop stays among the indices from `i` on.
  pub least-range :
      (left j min : ℕ) (arr : ℕ → A) (i : ℕ)
      → i ≤ min
      → i ≤ j
      → min < left + j
      → (i ≤ least less left j min arr) × (least less left j min arr < left + j)
  unfolding least better
  least-range zero j min arr i a b c = (a, c)
  least-range (suc left) j min arr i a b c =
      let (d, e) = better-cases j min arr i (suc left + j) a b c (omega arith) in
      let (f, g) =
        least-range left (j + 1) (better j min arr) arr i d (omega arith) (omega arith) in
      (f, omega arith)

  pub least-below :
      (left j min : ℕ) (arr : ℕ → A) (c : A)
      → less c (arr min) ≡ false
      → less c (arr (least less left j min arr)) ≡ false
  unfolding least better
  least-below zero j min arr c h = h
  least-below (suc left) j min arr c h =
      least-below left (j + 1) (better j min arr) arr c (better-below j min arr c h)

  -- Nothing that was looked at is less than what it finds.
  pub least-least :
      (left j min : ℕ) (arr : ℕ → A) (k : ℕ)
      → j ≤ k
      → k < left + j
      → less (arr k) (arr (least less left j min arr)) ≡ false
  unfolding least better
  least-least zero j min arr k a b = absurd (omega arith)
  least-least (suc left) j min arr k a b = elim (Bool-cases (k == j)) [
    | inl e ↦
        subst (λ q. less (arr q) (arr (least less left (j + 1) (better j min arr) arr)) ≡ false)
          (sym (==→eq k j e))
          (least-below left (j + 1) (better j min arr) arr (arr j) (better-at j min arr))
    | inr e ↦
        least-least left (j + 1) (better j min arr) arr k (omega (arith, ==→ne k j e)) (omega arith)
  ]

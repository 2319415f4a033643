-- ===== src/Libc/Sort/Order.antt =====
-- `qsort` of src/libc/stdlib.c puts an array in order and only moves its elements.
use cro_os.Base.{
  ℕ, zero, suc, ◌+◌, ◌-◌, ◌≤◌, ◌<◌, ◌≡◌, sym, subst, Bool, false, Bool-cases, inl, inr, ==→eq,
  ==→ne, arith, leb, ◌==◌,
}
use cro_os.Libc.Sort.{least, sort_from, qsort}
use cro_os.Libc.Sort.Shuffles.{
  swap_index, exchange, exchange_lem, exchange-IsShuffle, IsShuffle, IsShuffle-trans, same_elements,
}
use cro_os.Libc.Sort.Least.{IsOrder, irrefl, least-range, least-below, least-least}

module _ {A : Type 0} (less : A → A → Bool) (o : IsOrder less) where
  -- The elements before `i` are in order, also with those behind.
  abbrev IsSortedTo : ℕ → ℕ → (ℕ → A) → Type 0
  IsSortedTo i n arr = (a b : ℕ) → a < i → a < b → b < n → less (arr b) (arr a) ≡ false

  minimum : ℕ → ℕ → (ℕ → A) → ℕ
  minimum i n arr = least less (n - (i + 1)) (i + 1) i arr

  minimum-range : (i n : ℕ) (arr : ℕ → A) → i < n → (i ≤ minimum i n arr) × (minimum i n arr < n)
  unfolding minimum
  minimum-range i n arr h =
      let (a, b) =
        least-range less o (n - (i + 1)) (i + 1) i arr i (omega arith) (omega arith)
          (omega arith) in
      (a, omega arith)

  minimum-least :
      (i n : ℕ) (arr : ℕ → A) (k : ℕ) → i ≤ k → k < n → less (arr k) (arr (minimum i n arr)) ≡ false
  unfolding minimum
  minimum-least i n arr k a b = elim (Bool-cases (k == i)) [
    | inl e ↦
        subst (λ q. less (arr q) (arr (minimum i n arr)) ≡ false) (sym (==→eq k i e))
          (least-below less o (n - (i + 1)) (i + 1) i arr (arr i) (irrefl less o (arr i)))
    | inr e ↦
        least-least less o (n - (i + 1)) (i + 1) i arr k (omega (arith, ==→ne k i e)) (omega arith)
  ]

  -- An exchange at `i` with the minimum puts one more element in order.
  exchange-IsSortedTo :
      (i n m : ℕ) (arr : ℕ → A)
      → i ≤ m
      → m < n
      → ((k : ℕ) → i ≤ k → k < n → less (arr k) (arr m) ≡ false)
      → IsSortedTo i n arr
      → IsSortedTo (i + 1) n (exchange i m arr)
  exchange-IsSortedTo i n m arr l k low s a b h₁ h₂ h₃ =
      rw (exchange_lem i m arr a, exchange_lem i m arr b)
        (elim (Bool-cases (a == i)) [
          | inl e ↦ rw e (low (swap_index i m b) (ground (arith, e)) (ground (arith, e)))
          | inr e ↦
              let same : swap_index i m a ≡ a = ground (arith, e) in
              rw same
                (s a (swap_index i m b) (ground (arith, e)) (ground (arith, e)) (ground (arith, e)))
        ])

  sort_from-IsShuffle :
      (left i n : ℕ) (arr : ℕ → A) → left + i < n → IsShuffle n arr (sort_from less left i n arr)
  unfolding sort_from minimum
  sort_from-IsShuffle zero i n arr h = same_elements n arr
  sort_from-IsShuffle (suc left) i n arr h =
      let arr' = exchange i (minimum i n arr) arr in
      let (a, b) = minimum-range i n arr (omega arith) in
      IsShuffle-trans n arr arr' (sort_from less left (i + 1) n arr')
        (exchange-IsShuffle n i (minimum i n arr) arr (omega arith) b)
        (sort_from-IsShuffle left (i + 1) n arr' (omega arith))

  -- All but the last element are in order, and the last is behind them.
  sort_from-IsSortedTo :
      (left i n : ℕ) (arr : ℕ → A)
      → left + i + 1 ≡ n
      → IsSortedTo i n arr
      → IsSortedTo (n - 1) n (sort_from less left i n arr)
  unfolding sort_from minimum
  sort_from-IsSortedTo zero i n arr h s = λ a b h₁ h₂ h₃. s a b (omega arith) h₂ h₃
  sort_from-IsSortedTo (suc left) i n arr h s =
      let (a, b) = minimum-range i n arr (omega arith) in
      sort_from-IsSortedTo left (i + 1) n (exchange i (minimum i n arr) arr) (omega arith)
        (exchange-IsSortedTo i n (minimum i n arr) arr a b (minimum-least i n arr) s)

  -- By a comparison that orders, `qsort` leaves no element that must come before an earlier one, and
  -- it only moves the elements: each comes from one index of the array, and each index is used once.
  -- Memory behind the array is not touched.
  pub qsort_lem :
      (n : ℕ) (arr : ℕ → A)
      → ((i j : ℕ) → i < j → j < n → less (qsort less n arr j) (qsort less n arr i) ≡ false)
        × IsShuffle n arr (qsort less n arr)
  unfolding qsort
  qsort_lem n arr = elim (Bool-cases (leb n 1)) [
    | inl e ↦ rw e ((λ i j h k. absurd (ground (arith, e))), same_elements n arr)
    | inr e ↦ rw e (
      (λ i j h k.
          sort_from-IsSortedTo (n - 1) 0 n arr (ground (arith, e)) (λ a b z. absurd (omega arith)) i
            j (omega arith) h k),
      sort_from-IsShuffle (n - 1) 0 n arr (ground (arith, e)),
    )
  ]

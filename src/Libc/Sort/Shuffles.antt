-- ===== src/Libc/Sort/Shuffles.antt =====
-- `qsort` of src/libc/stdlib.c: arrays with the same elements in another order.
use cro_os.Base.{
  ℕ, ◌≤◌, ◌<◌, ◌≡◌, refl, sym, ◌∙◌, ap, subst, Bool-cases, inl, inr, ==→eq, arith, ◌==◌, ◌!=◌,
  if◌then◌else◌,
}
use cro_os.Libc.Sort.{swap}

-- Where the element at `k` behind the exchange of `i` and `m` was.
abbrev pub swap_index : ℕ → ℕ → ℕ → ℕ
swap_index i m k = if k == i then m else if k == m then i else k

swap_index-swap_index : (i m k : ℕ) → swap_index i m (swap_index i m k) ≡ k
swap_index-swap_index i m k = ground arith

swap_lem : {A : Type 0} (i m : ℕ) (arr : ℕ → A) (k : ℕ) → swap i m arr k ≡ arr (swap_index i m k)
unfolding swap
swap_lem i m arr k = ground arith

-- The element `r k` is the element of `arr` at `from k`; `to` is the inverse, and the elements from
-- `n` on stay.
pub record IsShuffle {A : Type 0} (n : ℕ) (arr r : ℕ → A) : Type 0 where
  pub from : ℕ → ℕ
  pub to : ℕ → ℕ
  pub there : (k : ℕ) → to (from k) ≡ k
  pub back : (k : ℕ) → from (to k) ≡ k
  pub stays : (k : ℕ) → n ≤ k → from k ≡ k
  pub element : (k : ℕ) → r k ≡ arr (from k)

pub same_elements : {A : Type 0} (n : ℕ) (arr : ℕ → A) → IsShuffle n arr arr
same_elements n arr = record {
  from = λ k. k;
  to = λ k. k;
  there = λ k. refl;
  back = λ k. refl;
  stays = λ k h. refl;
  element = λ k. refl;
}

-- A round's exchange with the minimum `m`.
abbrev pub exchange : {A : Type 0} → ℕ → ℕ → (ℕ → A) → ℕ → A
exchange i m arr = if m != i then swap i m arr else arr

pub exchange_lem :
    {A : Type 0} (i m : ℕ) (arr : ℕ → A) (k : ℕ) → exchange i m arr k ≡ arr (swap_index i m k)
exchange_lem i m arr k = elim (Bool-cases (m == i)) [
  | inl e ↦
      subst (λ q. exchange i q arr k ≡ arr (swap_index i q k)) (sym (==→eq m i e)) (ground arith)
  | inr e ↦ rw e (swap_lem i m arr k)
]

pub exchange-IsShuffle :
    {A : Type 0} (n i m : ℕ) (arr : ℕ → A) → i < n → m < n → IsShuffle n arr (exchange i m arr)
exchange-IsShuffle n i m arr h k = record {
  from = swap_index i m;
  to = swap_index i m;
  there = swap_index-swap_index i m;
  back = swap_index-swap_index i m;
  stays = λ q l. ground arith;
  element = exchange_lem i m arr;
}

-- Shuffling twice is shuffling.
pub IsShuffle-trans :
    {A : Type 0} (n : ℕ) (a b c : ℕ → A) → IsShuffle n a b → IsShuffle n b c → IsShuffle n a c
IsShuffle-trans n a b c f g = record {
  from = λ k. f.from (g.from k);
  to = λ k. g.to (f.to k);
  there = λ k. ap g.to (f.there (g.from k)) ∙ g.there k;
  back = λ k. ap f.from (g.back (f.to k)) ∙ f.back k;
  stays = λ k h. ap f.from (g.stays k h) ∙ f.stays k h;
  element = λ k. g.element k ∙ f.element (g.from k);
}

-- ===== src/Libc/Strings/Reads.antt =====
-- The comparisons and searches of src/libc/string.c, on strings.
use cro_os.Base.{
  ℕ, suc, ◌≡◌, ◌≢◌, refl, ap₂, sym, ◌==◌, List, [], ◌∷◌, ◌++◌, some, take, ne→==, Bool-cases, inl,
  inr, ==→eq, ==→ne, pos, sub_ℕ, get_or, ◌⊎◌,
}
use cro_os.Libc.Strings.{strcmp}
use cro_os.Libc.Strings.Writes.{IsText}

-- `strcmp` of two strings returns 0 and they are equal, or it returns the difference of their
-- bytes at the first place where they differ, the end of a string counting as 0.
pub strcmp_lem :
    (xs ys r s : List ℕ)
    → IsText xs
    → IsText ys
    → ((strcmp (xs ++ 0 ∷ r) (ys ++ 0 ∷ s) ≡ some (pos 0)) × (xs ≡ ys))
      ⊎ ((i : ℕ) × ((take i xs ≡ take i ys)
            × (get_or xs i 0 ≢ get_or ys i 0)
            × (strcmp (xs ++ 0 ∷ r) (ys ++ 0 ∷ s) ≡ some (sub_ℕ (get_or xs i 0) (get_or ys i 0)))))
unfolding strcmp IsText
strcmp_lem [] [] r s tx ty = inl (refl, refl)
strcmp_lem [] (y ∷ ys) r s tx (ne, ty) = inr (0, (refl, (λ e. ne (sym e)), refl))
strcmp_lem (x ∷ xs) [] r s (ne, tx) ty = inr (0, (refl, ne, rw (ne→== x 0 ne) refl))
strcmp_lem (x ∷ xs) (y ∷ ys) r s (nx, tx) (ny, ty) =
    let rest = strcmp_lem xs ys r s tx ty in
    elim (Bool-cases (x == y)) [
      | inl same ↦ elim rest [
        | inl (e, t) ↦ inl (rw (ne→== x 0 nx, same) e, ap₂ (λ a l. a ∷ l) (==→eq x y same) t)
        | inr (i, (t, d, e)) ↦
            inr (suc i, (ap₂ (λ a l. a ∷ l) (==→eq x y same) t, d, rw (ne→== x 0 nx, same) e))
      ]
      | inr differ ↦ inr (0, (refl, ==→ne x y differ, rw (ne→== x 0 nx, differ) refl))
    ]

-- ===== src/Fs/Vfs/Resolve.antt =====
-- Which file system src/fs/vfs.c routes a path to.
use cro_os.Base.{
  ℕ, zero, ◌≤◌, ◌≡◌, refl, sym, ap, true, false, ltb, ◌&&◌, List, [], ◌∷◌, Option, none, some,
  length, arith, Bool-cases, inl, inr, ◌⊎◌, drop,
}
use cro_os.Fs.Vfs.{Mount, Vfs, is_prefix, best_from, without_slash}
use cro_os.Fs.Vfs.Ops.{resolve_mount}

module _ {F : Type 0} where
  -- No mount of the list covers the path with more than `n` characters.
  unfoldable pub NoLonger : List ℕ → ℕ → List (Mount F) → Type 0
  NoLonger path n [] = Unit
  NoLonger path n (m ∷ ms) =
      ((is_prefix m.path path ≡ false) ⊎ (length m.path ≤ n)) × NoLonger path n ms

  unfoldable pub IsIn : Mount F → List (Mount F) → Type 0
  IsIn m [] = (zero ≡ 1)
  IsIn m (x ∷ xs) = (m ≡ x) ⊎ IsIn m xs

  -- The loop ends with the mount that it began with, or with one of the list that is a prefix of
  -- the path; and none of the list is a longer one.
  record Best (path : List ℕ) (best : Option (Mount F)) (n : ℕ) (ms : List (Mount F))
      (r : Option (Mount F) × ℕ) : Type 0 where
    pub least : n ≤ r.1
    pub choice :
        ((r.0 ≡ best) × (r.1 ≡ n))
        ⊎ ((m : Mount F) × ((r.0 ≡ some m)
              × IsIn m ms
              × (is_prefix m.path path ≡ true)
              × (length m.path ≡ r.1)))
    pub longest : NoLonger path (r.1) ms

  best_from_lem :
      (path : List ℕ) (best : Option (Mount F)) (n : ℕ) (ms : List (Mount F))
      → Best path best n ms (best_from path best n ms)
  unfolding best_from NoLonger IsIn
  best_from_lem path best n [] = record {
    least = omega arith;
    choice = inl (refl, refl);
    longest = tt;
  }
  best_from_lem path best n (m ∷ ms) =
      let took = best_from_lem path (some m) (length m.path) ms in
      let passed = best_from_lem path best n ms in
      elim (Bool-cases (is_prefix m.path path && ltb n (length m.path))) [
        | inl here ↦ rw here (record {
          least = ground (arith, here, took.least);
          choice = elim (took.choice) [
            | inl (e, k) ↦ inr (m, (e, inl refl, ground (arith, here), sym k))
            | inr (x, (e, i, pr, l)) ↦ inr (x, (e, inr i, pr, l))
          ];
          longest = (inr (took.least), took.longest);
        })
        | inr not_here ↦ rw not_here (record {
          least = passed.least;
          choice = elim (passed.choice) [
            | inl (e, k) ↦ inl (e, k)
            | inr (x, (e, i, pr, l)) ↦ inr (x, (e, inr i, pr, l))
          ];
          longest = (ground (arith, not_here, passed.least), passed.longest);
        })
      ]

  -- A path is routed to a mount whose path is a prefix of it, with no longer one among the mounts,
  -- and reaches that file system without the prefix, and without a slash before a further
  -- character; it is refused only if no mount but one with an empty path is a prefix of it.
  pub resolve_mount_lem :
      (path : List ℕ) (s : Vfs F)
      → ((resolve_mount path s ≡ none) × NoLonger path 0 s.mounts)
        ⊎ ((m : Mount F) × (IsIn m s.mounts
              × (is_prefix m.path path ≡ true)
              × NoLonger path (length m.path) s.mounts
              × (resolve_mount path s ≡ some (m.ops, without_slash (drop (length m.path) path)))))
  unfolding resolve_mount
  resolve_mount_lem path s =
      let b = best_from_lem path none 0 s.mounts in
      elim (b.choice) [
        | inl (e, k) ↦ inl (rw (e, resolve_mount) refl, rw k at (b.longest))
        | inr (m, (e, i, pr, l)) ↦ inr (
          m,
          (
            i,
            pr,
            rw (sym l) at (b.longest),
            rw (e, resolve_mount) (ap (λ n. some (m.ops, without_slash (drop n path))) (sym l)),
          ),
        )
      ]

-- ===== src/Base/Ring.antt =====
-- The items of a circular array: `n` of them, from the index `h` on, modulo the array's size.
use Prim.Native.Nat.{ℕ, zero, suc, ◌+◌, ◌-◌, ◌%◌, ◌≤◌, ◌<◌}
use mathlib.Core.Path.{◌≡◌, refl, sym, ap, ap₂, ◌∙◌}
use mathlib.Core.Logic.{◌≢◌}
use mathlib.Core.List.{List, [], ◌∷◌, ◌++◌}
use native.Mathlib.Nat.{mod-lt, mod-eq_of_lt, mod-eq-sub-mod, mod-add-mod, mod-mod}
use native.Mathlib.Decide.{dec_lt}
use native.Mathlib.Omega.{arith}
use cro_os.Base.Lists.{length, get_or, set, get_or-set_self, get_or-set_ne}

-- The index `h` is reduced only where it is used.
unfoldable pub items : List ℕ → ℕ → ℕ → ℕ → List ℕ
items buf cap h zero = []
items buf cap h (suc n) = get_or buf (h % cap) 0 ∷ items buf cap (h + 1) n

pub length-items : (buf : List ℕ) (cap h n : ℕ) → length (items buf cap h n) ≡ n
unfolding items
length-items buf cap h zero = refl
length-items buf cap h (suc n) = ap suc (length-items buf cap (h + 1) n)

-- Steps of less than a full round lead elsewhere.
other_place : (cap h k : ℕ) → 0 < k → k < cap → h % cap ≢ (h + k) % cap
other_place cap h k pos short same =
    let r : ℕ = h % cap in
    let below : r < cap = mod-lt h (omega arith) in
    let e : (r + k) % cap ≡ (h + k) % cap = mod-add-mod h cap k in
    elim (dec_lt (r + k) cap) [
      | yes fits ↦ absurd (omega (arith, e, mod-eq_of_lt fits))
      | no wraps ↦ absurd (
          omega (
            arith,
            e,
            mod-eq-sub-mod {n = r + k} {m = cap} (omega arith),
            mod-eq_of_lt {n = r + k - cap} {m = cap} (omega arith),
          ))
    ]

same_items :
    (buf buf' : List ℕ) (cap h h' n : ℕ)
    → h % cap ≡ h' % cap
    → ((k : ℕ) → k < n → get_or buf ((h + k) % cap) 0 ≡ get_or buf' ((h + k) % cap) 0)
    → items buf cap h n ≡ items buf' cap h' n
unfolding items
same_items buf buf' cap h h' zero e same = refl
same_items buf buf' cap h h' (suc n) e same = ap₂ ◌∷◌ (head ∙ ap (λ i. get_or buf' i 0) e) (
    same_items buf buf' cap (h + 1) (h' + 1) n step (λ k lt.
      let shift : h + 1 + k ≡ h + suc k = omega arith in rw shift (same (suc k) (omega arith))))
  where
    head : get_or buf (h % cap) 0 ≡ get_or buf' (h % cap) 0
    head = let z : h + 0 ≡ h = omega arith in rw z at (same 0 (omega arith))

    step : (h + 1) % cap ≡ (h' + 1) % cap
    step = rw (← mod-add-mod h cap 1, ← mod-add-mod h' cap 1, e) refl

-- Only the place of the index in the array counts.
pub items-mod : (buf : List ℕ) (cap h n : ℕ) → items buf cap (h % cap) n ≡ items buf cap h n
items-mod buf cap h n = same_items buf buf cap (h % cap) h n (mod-mod h cap) (λ k lt. refl)

items-last :
    (buf : List ℕ) (cap h n : ℕ)
    → items buf cap h (suc n) ≡ items buf cap h n ++ (get_or buf ((h + n) % cap) 0 ∷ [])
unfolding items
items-last buf cap h zero = let z : h + 0 ≡ h = omega arith in rw z refl
items-last buf cap h (suc n) =
    let shift : h + 1 + n ≡ h + suc n = omega arith in
    let ih = items-last buf cap (h + 1) n in ap (λ l. get_or buf (h % cap) 0 ∷ l) (rw shift at ih)

-- A store just behind the items adds one at their end.
pub items-set :
    (buf : List ℕ) (cap h n v : ℕ)
    → n < cap
    → cap ≤ length buf
    → items (set buf ((h + n) % cap) v) cap h (suc n) ≡ items buf cap h n ++ (v ∷ [])
items-set buf cap h n v room fits =
    items-last (set buf ((h + n) % cap) v) cap h n
    ∙ ap₂ (λ l x. l ++ (x ∷ []))
        (same_items (set buf ((h + n) % cap) v) buf cap h h n refl
          λ k lt. get_or-set_ne buf ((h + n) % cap) ((h + k) % cap) v 0 (apart k lt))
        (get_or-set_self buf ((h + n) % cap) v 0
          (omega (arith, mod-lt (h + n) {m = cap} (omega arith))))
  where
    apart : (k : ℕ) → k < n → (h + n) % cap ≢ (h + k) % cap
    apart = λ k lt same.
        let e : h + k + (n - k) ≡ h + n = omega arith in
        other_place cap (h + k) (n - k) (omega arith) (omega arith) (rw e (sym same))

-- The oldest item and the rest, which begins at the reduced next index.
pub items-head :
    (buf : List ℕ) (cap h n : ℕ)
    → n ≢ 0
    → items buf cap h n ≡ get_or buf (h % cap) 0 ∷ items buf cap ((h + 1) % cap) (n - 1)
unfolding items
items-head buf cap h zero ne = absurd (ne refl)
items-head buf cap h (suc n) ne =
    let e : suc n - 1 ≡ n = omega arith in rw (e, items-mod buf cap (h + 1) n) refl

-- ===== src/Apps/TextEditor/Shifts.antt =====
-- The loops of src/apps/text_editor.c that move a part of the text by one place.
use cro_os.Base.{
  ℕ, zero, suc, ◌+◌, ◌-◌, ◌<◌, ◌≡◌, refl, ap, ◌∙◌, ◌⊎◌, inl, inr, Bool-cases, ltb→lt,
  get_or-set_self, get_or-set_ne, ltb, leb, ◌&&◌, if◌then◌else◌, List, get_or, set, length,
  length-set, get_or-set, arith,
}
use cro_os.Apps.TextEditor.{shift_down, shift_up}

pub length-shift_down :
    (left from : ℕ) (buf : List ℕ) → length (shift_down left from buf) ≡ length buf
unfolding shift_down
length-shift_down zero from buf = refl
length-shift_down (suc left) from buf = omega (
  arith,
  length-shift_down left (from + 1) (set buf from (get_or buf (from + 1) 0)),
  length-set buf from (get_or buf (from + 1) 0),
)

pub length-shift_up : (left to : ℕ) (buf : List ℕ) → length (shift_up left to buf) ≡ length buf
unfolding shift_up
length-shift_up zero to buf = refl
length-shift_up (suc left) to buf = omega (
  arith,
  length-shift_up left to (set buf (to + suc left) (get_or buf (to + left) 0)),
  length-set buf (to + suc left) (get_or buf (to + left) 0),
)

ordered : (a b : ℕ) → (a < b) ⊎ ((a ≡ b) ⊎ (b < a))
ordered a b = elim (Bool-cases (ltb a b)) [
  | inl h ↦ inl (ltb→lt a b h)
  | inr h ↦ elim (Bool-cases (ltb b a)) [
    | inl k ↦ inr (inr (ltb→lt b a k))
    | inr k ↦ inr (inl (ground (arith, h, k)))
  ]
]

-- Each place takes the next one's byte.
pub get_or-shift_down :
    (left from : ℕ) (buf : List ℕ) (k : ℕ)
    → from + left < length buf
    → get_or (shift_down left from buf) k 0
      ≡ (if leb from k && ltb k (from + left) then get_or buf (k + 1) 0 else get_or buf k 0)
unfolding shift_down
get_or-shift_down zero from buf k h = ground arith
get_or-shift_down (suc left) from buf k h =
    let v = get_or buf (from + 1) 0 in
    ground (
      arith,
      get_or-shift_down left (from + 1) (set buf from v) k,
      length-set buf from v,
      get_or-set buf from k v 0,
      get_or-set buf from (k + 1) v 0,
    )

-- Each place behind `to` takes the one's before it.
pub get_or-shift_up :
    (left to : ℕ) (buf : List ℕ) (k : ℕ)
    → to + left < length buf
    → get_or (shift_up left to buf) k 0
      ≡ (if ltb to k && leb k (to + left) then get_or buf (k - 1) 0 else get_or buf k 0)
unfolding shift_up
get_or-shift_up zero to buf k h = ground arith
get_or-shift_up (suc left) to buf k h =
    let v = get_or buf (to + left) 0 in
    let buf' = set buf (to + suc left) v in
    let ih = get_or-shift_up left to buf' k (omega (arith, length-set buf (to + suc left) v)) in
    elim (ordered k (to + suc left)) [
      | inl lt ↦
          let at_k : get_or buf' k 0 ≡ get_or buf k 0 =
            get_or-set_ne buf (to + suc left) k v 0 (omega arith) in
          let before : get_or buf' (k - 1) 0 ≡ get_or buf (k - 1) 0 =
            get_or-set_ne buf (to + suc left) (k - 1) v 0 (omega arith) in
          ih ∙ rw (at_k, before) (ground (arith, lt))
      | inr (inl e) ↦
          let at_k : get_or buf' k 0 ≡ v =
            ap (λ j. get_or buf' j 0) e ∙ get_or-set_self buf (to + suc left) v 0 h in
          let same : k - 1 ≡ to + left = omega arith in ih ∙ rw (at_k, same) (ground (arith, e))
      | inr (inr gt) ↦
          let at_k : get_or buf' k 0 ≡ get_or buf k 0 =
            get_or-set_ne buf (to + suc left) k v 0 (omega arith) in
          ih ∙ rw at_k (ground (arith, gt))
    ]

-- ===== src/Apps/TextEditor/Edits.antt =====
-- src/apps/text_editor.c: the text before and behind the cursor, and what an edit does to it.
use cro_os.Base.{
  ℕ, zero, suc, ◌+◌, ◌-◌, ◌≤◌, ◌<◌, ◌≡◌, refl, ap, ◌∙◌, sym, subst, true, false, Bool-cases, inl,
  inr, ltb, ◌==◌, List, [], ◌∷◌, ◌++◌, get_or, set, length, length-set, get_or-set, get_or-append,
  length-append, get_or-set_self, get_or-set_ne, arith,
}
use cro_os.Apps.TextEditor.{Editor, shift_down, shift_up, backspace, insert_key}
use cro_os.Apps.TextEditor.Shifts.{
  length-shift_down, length-shift_up, get_or-shift_down, get_or-shift_up,
}

-- The editor holds the text `before ++ after`, with the cursor between the two and a zero byte behind.
pub record Shows (s : Editor) (before after : List ℕ) : Type 0 where
  pub cursor : length before ≡ s.te_cursor
  pub len : length before + length after ≡ s.te_len
  pub bytes : (k : ℕ) → k < s.te_len → get_or s.te_buffer k 0 ≡ get_or (before ++ after) k 0
  pub ended : get_or s.te_buffer s.te_len 0 ≡ 0
  pub size : length s.te_buffer ≡ 4096
  pub fits : s.te_len ≤ 4095

abbrev pub drop_last : List ℕ → List ℕ
drop_last [] = []
drop_last (x ∷ []) = []
drop_last (x ∷ y ∷ ys) = x ∷ drop_last (y ∷ ys)

pub length-drop_last : (xs : List ℕ) → length (drop_last xs) ≡ length xs - 1
length-drop_last [] = refl
length-drop_last (x ∷ []) = refl
length-drop_last (x ∷ y ∷ ys) = omega (arith, length-drop_last (y ∷ ys))

pub get_or-drop_last :
    (xs : List ℕ) (k : ℕ) → suc k < length xs → get_or (drop_last xs) k 0 ≡ get_or xs k 0
get_or-drop_last [] k h = refl
get_or-drop_last (x ∷ []) k h = absurd (omega arith)
get_or-drop_last (x ∷ y ∷ ys) zero h = refl
get_or-drop_last (x ∷ y ∷ ys) (suc k) h = get_or-drop_last (y ∷ ys) k (omega arith)

-- The zero byte behind the text does not change it.
unfoldable pub closed : (s : Editor) → Editor
closed s = record s { te_buffer = set s.te_buffer s.te_len 0 }

pub closed-Shows :
    (s : Editor) (b a : List ℕ)
    → length b ≡ s.te_cursor
    → length b + length a ≡ s.te_len
    → ((k : ℕ) → k < s.te_len → get_or s.te_buffer k 0 ≡ get_or (b ++ a) k 0)
    → length s.te_buffer ≡ 4096
    → s.te_len ≤ 4095
    → Shows (closed s) b a
unfolding closed
closed-Shows s b a c l h z f = record {
  cursor = c;
  len = l;
  bytes = λ k lt. get_or-set_ne s.te_buffer s.te_len k 0 0 (omega arith) ∙ h k lt;
  ended = get_or-set_self s.te_buffer s.te_len 0 0 (omega arith);
  size = length-set s.te_buffer s.te_len 0 ∙ z;
  fits = f;
}

pub inserted_byte :
    (key : ℕ) (s : Editor) (b a : List ℕ)
    → Shows s b a
    → s.te_len < 4095
    → (k : ℕ) → k < s.te_len + 1
    → get_or (set (shift_up (s.te_len - s.te_cursor) s.te_cursor s.te_buffer) s.te_cursor key) k 0
      ≡ get_or ((b ++ (key ∷ [])) ++ a) k 0
inserted_byte key s b a v h k lt =
    let n = s.te_len - s.te_cursor in
    let c = s.te_cursor in
    let buf = shift_up n c s.te_buffer in
    let w =
      get_or-set buf c k key 0
        (omega (arith, length-shift_up n c s.te_buffer, v.size, v.len, v.cursor)) in
    let m = get_or-shift_up n c s.te_buffer k (omega (arith, v.size, v.len, v.cursor)) in
    let r₁ = get_or-append (b ++ (key ∷ [])) a k 0 in
    let r₂ = get_or-append b (key ∷ []) k 0 in
    let l = length-append b (key ∷ []) in
    elim (Bool-cases (ltb k c)) [
      | inl e ↦
          ground (arith, w, m, r₁, r₂, l, e, v.bytes k, v.len, v.cursor, get_or-append b a k 0)
      | inr e ↦ elim (Bool-cases (k == c)) [
        | inl f ↦
            let here : get_or (key ∷ []) (k - length b) 0 ≡ key =
              let z : k - length b ≡ 0 = ground (arith, f, v.cursor) in
              ap (λ (j : ℕ). get_or (key ∷ []) j 0) z in
            ground (arith, w, r₁, r₂, here, e, f, l, v.cursor)
        | inr f ↦ ground (
          arith,
          w,
          m,
          r₁,
          e,
          f,
          l,
          v.bytes (k - 1),
          v.len,
          v.cursor,
          get_or-append b a (k - 1) 0,
        )
      ]
    ]

pub inserted :
    (key : ℕ) (s : Editor) (b a : List ℕ)
    → Shows s b a
    → s.te_len < 4095
    → Shows (closed (insert_key key s)) (b ++ (key ∷ [])) a
unfolding insert_key
inserted key s b a v h =
    let buf = shift_up (s.te_len - s.te_cursor) s.te_cursor s.te_buffer in
    let s' = record s {
      te_buffer = set buf s.te_cursor key;
      te_cursor = s.te_cursor + 1;
      te_len = s.te_len + 1;
    } in
    let test : ltb s.te_len 4095 ≡ true = ground (arith, h) in
    let e : insert_key key s ≡ s' = rw test refl in
    let sized : length buf ≡ 4096 =
      length-shift_up (s.te_len - s.te_cursor) s.te_cursor s.te_buffer ∙ v.size in
    subst (λ q. Shows (closed q) (b ++ (key ∷ [])) a) (sym e)
      (closed-Shows s' (b ++ (key ∷ [])) a (omega (arith, length-append b (key ∷ []), v.cursor))
        (omega (arith, length-append b (key ∷ []), v.len)) (inserted_byte key s b a v h)
        (length-set buf s.te_cursor key ∙ sized) (omega arith))

pub full :
    (key : ℕ) (s : Editor) (b a : List ℕ)
    → Shows s b a
    → 4095 ≤ s.te_len
    → Shows (closed (insert_key key s)) b a
unfolding insert_key
full key s b a v h =
    let test : ltb s.te_len 4095 ≡ false = ground (arith, h) in
    let e : insert_key key s ≡ s = rw test refl in
    subst (λ q. Shows (closed q) b a) (sym e)
      (closed-Shows s b a v.cursor v.len v.bytes v.size v.fits)

pub deleted_byte :
    (s : Editor) (x : ℕ) (xs a : List ℕ)
    → Shows s (x ∷ xs) a
    → (k : ℕ) → k < s.te_len - 1
    → get_or (shift_down (s.te_len - s.te_cursor) (s.te_cursor - 1) s.te_buffer) k 0
      ≡ get_or (drop_last (x ∷ xs) ++ a) k 0
deleted_byte s x xs a v k lt =
    let b = x ∷ xs in
    let m =
      get_or-shift_down (s.te_len - s.te_cursor) (s.te_cursor - 1) s.te_buffer k
        (omega (arith, v.size, v.len, v.cursor, v.fits)) in
    let r = get_or-append (drop_last b) a k 0 in
    let l = length-drop_last b in
    elim (Bool-cases (ltb k (s.te_cursor - 1))) [
      | inl e ↦ ground (
        arith,
        m,
        r,
        l,
        e,
        v.bytes k,
        v.len,
        v.cursor,
        get_or-append b a k 0,
        get_or-drop_last b k,
      )
      | inr e ↦
          ground (arith, m, r, l, e, v.bytes (k + 1), v.len, v.cursor, get_or-append b a (k + 1) 0)
    ]

pub deleted :
    (s : Editor) (b a : List ℕ) → Shows s b a → Shows (closed (backspace s)) (drop_last b) a
unfolding backspace
deleted s [] a v =
    let test : ltb 0 s.te_cursor ≡ false = ground (arith, v.cursor) in
    let e : backspace s ≡ s = rw test refl in
    subst (λ q. Shows (closed q) [] a) (sym e)
      (closed-Shows s [] a v.cursor v.len v.bytes v.size v.fits)
deleted s (x ∷ xs) a v =
    let b = x ∷ xs in
    let buf = shift_down (s.te_len - s.te_cursor) (s.te_cursor - 1) s.te_buffer in
    let s' = record s { te_buffer = buf; te_cursor = s.te_cursor - 1; te_len = s.te_len - 1 } in
    let test : ltb 0 s.te_cursor ≡ true = ground (arith, v.cursor) in
    let e : backspace s ≡ s' = rw test refl in
    subst (λ q. Shows (closed q) (drop_last b) a) (sym e)
      (closed-Shows s' (drop_last b) a (omega (arith, length-drop_last b, v.cursor))
        (omega (arith, length-drop_last b, v.len)) (deleted_byte s x xs a v)
        (length-shift_down (s.te_len - s.te_cursor) (s.te_cursor - 1) s.te_buffer ∙ v.size)
        (omega (arith, v.fits)))

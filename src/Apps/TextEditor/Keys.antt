-- ===== src/Apps/TextEditor/Keys.antt =====
-- src/apps/text_editor.c: what a key does to the text. The text is seen as the characters before the
-- cursor and those behind it.
use cro_os.Base.{
  ℕ, ◌+◌, ◌≡◌, sym, subst, Bool-cases, inl, inr, ltb, ◌==◌, if◌then◌else◌, List, [], ◌∷◌, ◌++◌,
  length, ltb→lt, ltb→le, ==→eq, arith,
}
use cro_os.Apps.TextEditor.{Editor, backspace, insert_key, auto_scroll, te_on_key}
use cro_os.Apps.TextEditor.Edits.{Shows, drop_last, closed, inserted, full, deleted}

auto_scroll-Shows :
    (height : ℕ) (s : Editor) (b a : List ℕ) → Shows s b a → Shows (auto_scroll height s) b a
unfolding auto_scroll
auto_scroll-Shows height s b a v =
    let e : auto_scroll height s ≡ record s { te_scroll_y = (auto_scroll height s).te_scroll_y } =
      ground arith in
    subst (λ q. Shows q b a) (sym e)
      (record {
        cursor = v.cursor;
        len = v.len;
        bytes = v.bytes;
        ended = v.ended;
        size = v.size;
        fits = v.fits;
      })

-- The meaning of a key for the text before the cursor and behind it: a backspace takes the character
-- before the cursor, any other key puts its character there while the text has less than 4095.
abbrev pub typed : ℕ → List ℕ → List ℕ → List ℕ
typed key before after =
    if key == 8
    then drop_last before
    else if ltb (length before + length after) 4095
    then before ++ (key ∷ [])
    else before

put-Shows :
    (key : ℕ) (s : Editor) (b a : List ℕ)
    → Shows s b a
    → Shows
        (closed (insert_key key s))
        (if ltb (length b + length a) 4095 then b ++ (key ∷ []) else b)
        a
put-Shows key s b a v = elim (Bool-cases (ltb (length b + length a) 4095)) [
  | inl h ↦ rw h (inserted key s b a v (omega (arith, ltb→lt (length b + length a) 4095 h, v.len)))
  | inr h ↦ rw h (full key s b a v (omega (arith, ltb→le (length b + length a) 4095 h, v.len)))
]

-- Each key changes the text before the cursor to what it means and keeps the text behind it; the text
-- stays within its buffer of 4096 bytes, with a zero byte behind it.
pub te_on_key-Shows :
    (height key : ℕ) (s : Editor) (before after : List ℕ)
    → Shows s before after
    → Shows (te_on_key height key s) (typed key before after) after
unfolding te_on_key closed
te_on_key-Shows height key s b a v = elim (Bool-cases (key == 8)) [
  | inl e ↦ rw e (auto_scroll-Shows height (closed (backspace s)) (drop_last b) a (deleted s b a v))
  | inr e ↦
      let w = put-Shows key s b a v in
      elim (Bool-cases (key == 10)) [
        | inl f ↦
            let w' =
              subst
                (λ q.
                  Shows (closed (insert_key q s))
                    (if ltb (length b + length a) 4095 then b ++ (key ∷ []) else b) a)
                (==→eq key 10 f) w in
            rw (e, f) (auto_scroll-Shows height (closed (insert_key 10 s)) _ a w')
        | inr f ↦ rw (e, f) (auto_scroll-Shows height (closed (insert_key key s)) _ a w)
      ]
]

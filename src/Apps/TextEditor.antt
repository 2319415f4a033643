-- ===== src/Apps/TextEditor.antt =====
-- src/apps/text_editor.c: the text of the editor and what a key does to it. `height` is the height of
-- the window, which the compositor keeps. What is drawn is left out.
pub mod Shifts
pub mod Edits
pub mod Keys
mod Tests
use cro_os.Base.{
  ℕ, zero, suc, ◌+◌, ◌-◌, ◌*◌, ◌/◌, Bool, true, false, ltb, leb, ◌==◌, ◌&&◌, if◌then◌else◌, List,
  [], ◌∷◌, ℤ, pos, negsuc, neg_ℤ, ltb_ℤ, ◌+ℤ◌, get_or, set, min,
}

pub record Editor : Type 0 where
  pub te_buffer : List ℕ
  pub te_len : ℕ
  pub te_cursor : ℕ
  pub te_scroll_y : ℤ

-- `for (i = from; i < from + left; i++) te_buffer[i] = te_buffer[i + 1]`
unfoldable pub shift_down : ℕ → ℕ → List ℕ → List ℕ
shift_down zero from buf = buf
shift_down (suc left) from buf = shift_down left (from + 1) (set buf from (get_or buf (from + 1) 0))

-- `for (i = to + left; i > to; i--) te_buffer[i] = te_buffer[i - 1]`
unfoldable pub shift_up : ℕ → ℕ → List ℕ → List ℕ
shift_up zero to buf = buf
shift_up (suc left) to buf = shift_up left to (set buf (to + suc left) (get_or buf (to + left) 0))

-- The branch of a backspace.
unfoldable pub backspace : Editor → Editor
unfolding shift_down
backspace s =
    if ltb 0 s.te_cursor
    then record s {
      te_buffer = shift_down (s.te_len - s.te_cursor) (s.te_cursor - 1) s.te_buffer;
      te_cursor = s.te_cursor - 1;
      te_len = s.te_len - 1;
    }
    else s

-- The other two branches, which put a character.
unfoldable pub insert_key : ℕ → Editor → Editor
unfolding shift_up
insert_key key s =
    if ltb s.te_len 4095
    then record s {
      te_buffer = set (shift_up (s.te_len - s.te_cursor) s.te_cursor s.te_buffer) s.te_cursor key;
      te_cursor = s.te_cursor + 1;
      te_len = s.te_len + 1;
    }
    else s

-- The lines up to the cursor: one more than the newlines before it.
unfoldable pub newlines : ℕ → ℕ → List ℕ → ℕ
newlines zero i buf = 0
newlines (suc left) i buf = (if get_or buf i 0 == 10 then 1 else 0) + newlines left (i + 1) buf

abbrev pub font_height : ℕ
font_height = 16

-- `(height - 28 - 24) / line_h`, which cuts towards 0.
abbrev pub visible_lines : ℕ → ℤ
visible_lines height =
    if leb 52 height
    then pos ((height - 52) / (font_height + 2))
    else neg_ℤ (pos ((52 - height) / (font_height + 2)))

unfoldable pub auto_scroll : ℕ → Editor → Editor
unfolding newlines ◌+ℤ◌
auto_scroll height s =
    let cur_line = pos (1 + newlines (min s.te_cursor s.te_len) 0 s.te_buffer) in
    let visible = visible_lines height in
    let down =
      if ltb_ℤ (cur_line +ℤ neg_ℤ s.te_scroll_y) visible
      then s
      else record s { te_scroll_y = cur_line +ℤ neg_ℤ visible +ℤ pos 1 } in
    if ltb_ℤ (cur_line +ℤ neg_ℤ down.te_scroll_y) (pos 1)
    then record down { te_scroll_y = cur_line +ℤ negsuc 0 }
    else down

unfoldable pub te_on_key : ℕ → ℕ → Editor → Editor
te_on_key height key s =
    let edited =
      if key == 8 then backspace s else if key == 10 then insert_key 10 s else insert_key key s in
    auto_scroll height (record edited { te_buffer = set edited.te_buffer edited.te_len 0 })

-- The bytes of the sample, up to 4095.
unfoldable pub put_sample : ℕ → List ℕ → List ℕ → ℕ × List ℕ
put_sample i [] buf = (i, buf)
put_sample i (c ∷ cs) buf =
    let rest = put_sample (i + 1) cs (set buf i c) in if ltb i 4095 then rest else (i, buf)

-- What `app_text_editor_create` does to the text, with the sample as an argument.
unfoldable pub load_sample : List ℕ → Editor → Editor
unfolding put_sample
load_sample sample s =
    let (len, buf) = put_sample 0 sample s.te_buffer in
    record { te_buffer = set buf len 0; te_len = len; te_cursor = 0; te_scroll_y = pos 0 }

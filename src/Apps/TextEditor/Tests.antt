-- ===== src/Apps/TextEditor/Tests.antt =====
-- Runs of src/apps/text_editor.c.
use cro_os.Base.{
  ℕ, zero, suc, ◌<◌, ◌≡◌, refl, arith, [], ◌∷◌, replicate, get_or, pos, length-replicate,
  get_or-replicate,
}
use cro_os.Apps.TextEditor.{Editor, te_on_key}
use cro_os.Apps.TextEditor.Keys.{te_on_key-Shows}
use cro_os.Apps.TextEditor.Edits.{Shows}

-- The text "ab", with the cursor behind the "a".
unfoldable editor : Editor
editor = record {
  te_buffer = 97 ∷ 98 ∷ replicate 4094 0;
  te_len = 2;
  te_cursor = 1;
  te_scroll_y = pos 0;
}

two_bytes : (k : ℕ) → k < 2 → get_or editor.te_buffer k 0 ≡ get_or (97 ∷ 98 ∷ []) k 0
unfolding editor
two_bytes zero h = refl
two_bytes (suc zero) h = refl
two_bytes (suc (suc k)) h = absurd (omega arith)

editor-Shows : Shows editor (97 ∷ []) (98 ∷ [])
unfolding editor
editor-Shows = record {
  cursor = refl;
  len = refl;
  bytes = two_bytes;
  ended = get_or-replicate 4094 0 0 0 (omega arith);
  size = omega (arith, length-replicate {A = ℕ} 4094 0);
  fits = omega arith;
}

te_on_key-Shows_example : Shows (te_on_key 480 8 editor) [] (98 ∷ [])
te_on_key-Shows_example = te_on_key-Shows 480 8 editor (97 ∷ []) (98 ∷ []) editor-Shows

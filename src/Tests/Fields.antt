-- ===== src/Tests/Fields.antt =====
-- The text fields of src/tui/input.rs on characters of two bytes.
use dfdisk.Prelude.{◌≡◌, false, some, [], ◌∷◌}
use dfdisk.Input.{KeyEvent, backspace, edit_text, len, len_utf8}
use dfdisk.Input.Edited.{edited, halves_from, edit_text-edited}
use dfdisk.Input.Fields.{from_left}

abbrev plain_backspace : KeyEvent
plain_backspace = record { code = backspace; control = false; alt = false }

-- The cursor stands inside the second character.
edit_text-edited_example : edit_text (228 ∷ 228 ∷ []) 3 plain_backspace ≡ some (228 ∷ [], 0)
unfolding edited halves_from from_left len len_utf8
edit_text-edited_example = edit_text-edited (228 ∷ 228 ∷ []) 3 plain_backspace

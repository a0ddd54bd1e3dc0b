-- ===== src/Overlay/Tests.antt =====
-- The theorems on small overlays.
use aku.Base.{
  ℕ, suc, ◌+◌, ◌≤◌, ◌<◌, ◌≡◌, refl, String, true, false, none, some, List, [], ◌∷◌, ◌++◌, pos,
  negsuc, pos_part, leb, min, length, get_elem?, arith,
}
use aku.WordMotion.{Unicode, next_word_boundary, prev_word_boundary}
use aku.WordMotion.Keys.{letter_w, word_motion_dir, word_delete_dir}
use aku.Overlay.{
  Overlay, TextInput, Measure, key_press, other_message, new_overlay, clamp_cursor, set_items,
  add_input, focus_next_input, focus_prev_input, handle_word_key,
}
use aku.Overlay.Cursor.{clamp_cursor_lem}
use aku.Overlay.Inv.{IsWellFormed, started, listed, pointed, extended, went_on, Reach-IsWellFormed}
use aku.Overlay.Focus.{next_times, next_times_lem, focus_prev_input-focus_next_input}
use aku.Overlay.Rows.{cursor_line, item_line, line_or_blank, more_lines, list_lines, list_lines_lem}

-- An input is its value and its cursor.
abbrev pub text_input : TextInput (List ℕ × ℕ) ℕ ℕ
text_input = record {
  new_input = λ prompt. ([], 0);
  prompt = λ i. "> ";
  value = λ (v, c). v;
  set_value = λ v (_, c). (v, c);
  position = λ (v, c). c;
  put_cursor = λ c (v, _). (v, min (pos_part c) (length v));
  set_width = λ w i. i;
  focus = λ i. i;
  blur = λ i. i;
  update_input =
      λ msg i. elim msg [ key_press k ↦ i | other_message r ↦ (i.0 ++ r ∷ [], suc (length i.0)) ];
}

abbrev pub measure : Measure
measure = record { text_width = λ s. 3; byte_length = λ s. 3; chrome = 4 }

-- Runes from 10 on are letters.
abbrev pub unicode : Unicode ℕ
unicode = record { is_letter = λ r. leb 10 r; is_digit = λ r. false }

abbrev three : List String
three = "a" ∷ "b" ∷ "c" ∷ []

-- Three items, of which two are visible, and two inputs.
abbrev form : Overlay (List ℕ × ℕ)
form = record (new_overlay) {
  items = three;
  items_set = true;
  max_visible = 2;
  inputs = ([], 0) ∷ ([], 0) ∷ [];
}

below :
    clamp_cursor text_input measure unicode (pos 7) form ≡ record form { cursor = 2; offset = 1 }
unfolding clamp_cursor new_overlay
below = refl

rows_below :
    list_lines text_input measure unicode (record form { cursor = 0 })
    ≡ cursor_line "a" ∷ item_line "b" ∷ more_lines 1 ∷ []
unfolding list_lines new_overlay
rows_below = refl

-- `ctrl+w` behind two words.
word_deleted :
    handle_word_key text_input measure unicode
      (record { code = letter_w; alt = false; ctrl = true })
      (10 ∷ 11 ∷ 1 ∷ 12 ∷ 13 ∷ [], 5)
    ≡ some (10 ∷ 11 ∷ 1 ∷ [], 3)
unfolding handle_word_key word_motion_dir word_delete_dir prev_word_boundary
    aku.WordMotion.prev_loop aku.WordMotion.same_at
word_deleted = refl

clamp_cursor_lem_example :
    let p = clamp_cursor text_input measure unicode (negsuc 0) form in
    (p.cursor ≡ 0)
    × (p.offset ≤ p.cursor)
    × (p.cursor < p.offset + 2)
    × ((0 ≤ p.cursor) → (p.cursor < 0 + 2) → p.offset ≡ 0)
unfolding new_overlay
clamp_cursor_lem_example = clamp_cursor_lem text_input measure unicode (negsuc 0) form (omega arith)

Reach-IsWellFormed_example : IsWellFormed text_input measure unicode (
    focus_next_input text_input measure unicode (
      add_input text_input measure unicode
        ([], 0)
        (clamp_cursor text_input measure unicode
          (pos 2)
          (set_items text_input measure unicode three new_overlay))))
Reach-IsWellFormed_example =
    Reach-IsWellFormed text_input measure unicode
      (focus_next_input text_input measure unicode (
        add_input text_input measure unicode ([], 0)
          (clamp_cursor text_input measure unicode (pos 2)
            (set_items text_input measure unicode three new_overlay))))
      (went_on (extended ([], 0) (pointed (pos 2) (listed three started))))

forth_and_back :
    (focus_prev_input text_input measure unicode
      (focus_next_input text_input measure unicode form)).focus_idx
    ≡ none
unfolding new_overlay
forth_and_back =
    focus_prev_input-focus_next_input text_input measure unicode form (omega arith) refl

next_times_lem_example :
    ((k : ℕ) → k < 2 → (next_times text_input measure unicode (suc k) form).focus_idx ≡ some k)
    × (1 ≤ 2 → (next_times text_input measure unicode (suc 2) form).focus_idx ≡ none)
unfolding new_overlay
next_times_lem_example = next_times_lem text_input measure unicode form refl (omega arith)

list_lines_lem_example :
    ((i : ℕ)
      → i < 2
      → get_elem? (list_lines text_input measure unicode form) i
        ≡ some (line_or_blank 0 (0 + i) (get_elem? three (0 + i))))
    × (get_elem? (list_lines text_input measure unicode form) 2 ≡ some (more_lines 1))
unfolding new_overlay
list_lines_lem_example = list_lines_lem text_input measure unicode form (omega arith)

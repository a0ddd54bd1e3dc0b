-- ===== src/LogView/Tests.antt =====
-- The theorems on log panels at one of two lines, after five.
use aku.Base.{
  ℕ, ◌+◌, ◌-◌, ◌≤◌, ◌<◌, ◌≡◌, refl, String, true, false, List, [], ◌∷◌, some, str_eq, str_append,
  str_length, if◌then◌else◌, ℤ, pos, pos_part, arith, take, get_or,
}
use aku.Search.{Compiled, expression, search, filter}
use aku.LogView.State.{Text, LogView, new_log_view, searching}
use aku.LogView.Window.{update_viewport_wrapped, row_heights, first_visible}
use aku.LogView.Content.{sum, filter_indices, recompute_total_wrapped_rows}
use aku.LogView.Append.{append_line, insert_marker}
use aku.LogView.Find.{apply_search}
use aku.LogView.Scroll.{toggle_wrap}
use aku.LogView.Reach.{
  Reach, made, appended, marked, applied, wrap_toggled, Reach-exact, Reach-rows,
}
use aku.LogView.Top.{first_visible-lem}

-- Text that is measured in characters, and expressions that match one line.
abbrev text : Text String
text = record {
  highlight = λ s. s;
  string_width = λ s. pos (str_length s);
  strip = λ s. s;
  matches = λ re s. str_eq re (str_append "(?i)" s);
  find_all = λ re s. if str_eq re (str_append "(?i)" s) then (0, str_length s) ∷ [] else [];
  is_marker = λ s. str_eq s "----";
  prefix_width = λ s n. pos n;
  dropped_text = λ n. "lines dropped";
  decode = λ s. [];
  encode = λ ts. "*";
  highlight_sgr = [];
  selected_sgr = [];
}

abbrev regexp : String → Compiled String String
regexp s = expression s

-- Two lines and a marker come to a panel for two.
abbrev three_lines : LogView String
three_lines =
    insert_marker text "----" "----"
      (append_line text "warn" (append_line text "err" (new_log_view (pos 6) (pos 4) (pos 2))))

three_lines-Reach : Reach text regexp three_lines
three_lines-Reach =
    marked "----" "----" refl
      (appended "warn" refl (appended "err" refl (made (pos 6) (pos 4) (pos 2))))

-- Those that match are kept, and one more line comes.
abbrev kept_lines : LogView String
kept_lines = append_line text "warn" (apply_search text regexp "warn" filter three_lines).0

kept_lines-Reach : Reach text regexp kept_lines
kept_lines-Reach = appended "warn" refl (applied "warn" filter three_lines-Reach)

Reach-exact_example :
    kept_lines.filtered_indices
    ≡ filter_indices text kept_lines.filter_state.re kept_lines.filtered_index_offset
        kept_lines.buffer
Reach-exact_example = Reach-exact text regexp kept_lines-Reach

abbrev wrapped : LogView String
wrapped = append_line text "a long line" (toggle_wrap text three_lines)

wrapped-Reach : Reach text regexp wrapped
wrapped-Reach = appended "a long line" refl (wrap_toggled three_lines-Reach)

Reach-rows_example :
    wrapped.total_wrapped_rows ≡ (recompute_total_wrapped_rows wrapped).total_wrapped_rows
unfolding toggle_wrap append_line insert_marker new_log_view aku.Search.active aku.RingBuffer.append
    aku.RingBuffer.new
Reach-rows_example = Reach-rows text regexp wrapped-Reach refl

rows_test : (wrapped.total_wrapped_rows ≡ 7) × (kept_lines.filtered_indices ≡ 1 ∷ 2 ∷ [])
unfolding toggle_wrap append_line insert_marker new_log_view aku.Search.active aku.RingBuffer.append
    aku.RingBuffer.new apply_search aku.Search.compile aku.Base.◌-ℤ◌ aku.RingBuffer.width_get
    aku.RingBuffer.raw_get aku.LogView.State.wrap_height aku.LogView.Append.trim
rows_test = (refl, refl)

-- A search for the line that shows last.
abbrev found_lines : LogView String
found_lines = (apply_search text regexp "warn" search kept_lines).0

first_visible-lem_example :
    let after = update_viewport_wrapped wrapped in
    let y = pos_part after.wrap_y_offset in
    let heights = row_heights after in
    let top = first_visible heights y 0 0 in
    (after.wrap_y_offset ≡ pos y)
    × (y ≤ sum heights - 2)
    × (sum (take top.0 heights) + top.1 ≡ y)
    × (top.1 < get_or heights top.0 0)
unfolding toggle_wrap append_line insert_marker new_log_view aku.Search.active aku.RingBuffer.append
    aku.RingBuffer.new aku.Base.◌-ℤ◌
first_visible-lem_example = first_visible-lem text regexp wrapped-Reach refl refl (ground arith)

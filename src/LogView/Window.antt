-- ===== src/LogView/Window.antt =====
-- The visible lines: `updateViewport` and `updateViewportWrapped`.
use aku.Base.{
  ℕ, ◌+◌, ◌-◌, String, Bool, ◌&&◌, List, [], ◌∷◌, map, ltb, take, drop, min, tabulate,
  if◌then◌else◌, ℤ, pos, pos_part, ltb_ℤ, ◌+ℤ◌, ◌-ℤ◌, eq_ℤ, str_length,
}
use aku.RingBuffer.{colored_get, width_get, colored_slice, width_slice}
use aku.LogView.State.{
  Text, LogView, viewport_height, filtering, line_count, indicator, buffer_index, max_offset,
  clamp_to, clamp_scroll_offset, wrap_height,
}
use aku.LogView.Marks.{bake}

-- The walk to the first visible line: its index, and the rows of it to skip. The last line is
-- taken where the offset is past the end.
unfoldable pub first_visible : List ℕ → ℕ → ℕ → ℕ → ℕ × ℕ
first_visible [] y di row = (0, 0)
first_visible (h ∷ []) y di row = if ltb y (row + h) then (di, y - row) else (di, 0)
first_visible (h ∷ k ∷ hs) y di row =
    let rest = first_visible (k ∷ hs) y (di + 1) (row + h) in
    if ltb y (row + h) then (di, y - row) else rest

module _ {Re : Type 0} where
  -- The indicator is the first row that shows.
  abbrev pub indicator_shows : LogView Re → Bool
  indicator_shows l = ltb 0 l.buffer.dropped && eq_ℤ l.scroll_offset (pos 0)

  abbrev pub window_start : LogView Re → ℕ
  window_start l = min (pos_part (l.scroll_offset -ℤ pos (indicator l.buffer))) (line_count l)

  -- The end before it is cut to the lines there are.
  abbrev pub window_reach : LogView Re → ℤ
  window_reach l =
      pos (pos_part (l.scroll_offset -ℤ pos (indicator l.buffer)))
      +ℤ (viewport_height l -ℤ pos (if indicator_shows l then 1 else 0))

  abbrev pub window_end : LogView Re → ℤ
  window_end l =
      if ltb_ℤ (pos (line_count l)) (window_reach l) then pos (line_count l) else window_reach l

  -- `filteredIndices[start:end]`; where the end is before the start Go panics, and here it is empty.
  abbrev pub filtered_window : LogView Re → List ℕ
  filtered_window l =
      take (pos_part (window_end l) - window_start l) (drop (window_start l) l.filtered_indices)

  abbrev pub window_lines : LogView Re → List String
  window_lines l =
      if filtering l
      then map (λ idx. colored_get l.buffer (buffer_index l idx)) (filtered_window l)
      else colored_slice l.buffer (pos (window_start l)) (window_end l)

  abbrev pub window_widths : LogView Re → List ℤ
  window_widths l =
      if filtering l
      then map (λ idx. width_get l.buffer (buffer_index l idx)) (filtered_window l)
      else width_slice l.buffer (pos (window_start l)) (window_end l)

  -- The widths of the lines that the filter leaves, and the rows of the wrapped display.
  abbrev pub line_widths : LogView Re → List ℤ
  line_widths l =
      if filtering l
      then map (λ idx. width_get l.buffer (buffer_index l idx)) l.filtered_indices
      else tabulate (λ i. width_get l.buffer (pos i)) 0 l.buffer.count

  abbrev pub row_heights : LogView Re → List ℕ
  row_heights l =
      let heights = map (λ w. wrap_height w l.log_vp.width) (line_widths l) in
      if ltb 0 l.buffer.dropped then 1 ∷ heights else heights

  -- `updateViewportWrapped` up to the rows: the offset is clamped, and set to the end under
  -- autoscroll.
  unfoldable pub update_viewport_wrapped : LogView Re → LogView Re
  update_viewport_wrapped l =
      let most = max_offset l.total_wrapped_rows (viewport_height l) in
      record l { wrap_y_offset = if l.autoscroll then pos most else clamp_to most l.wrap_y_offset }

  module _ (t : Text Re) where
    -- The window, the indicator in front.
    abbrev pub window_rows : LogView Re → List String
    window_rows l =
        let text = t.dropped_text l.buffer.dropped in
        if indicator_shows l then text ∷ window_lines l else window_lines l

    -- `SetLines` of the window with the highlights of the search.
    abbrev pub set_window : LogView Re → LogView Re
    set_window l =
        let text = t.dropped_text l.buffer.dropped in
        record l {
          log_vp = record (l.log_vp) {
            lines =
                bake t l (if indicator_shows l then 1 else 0) (window_start l)
                  (pos_part l.scroll_offset) (window_rows l);
            raw_widths =
                if indicator_shows l
                then pos (str_length text) ∷ window_widths l
                else window_widths l;
          };
        }

    unfoldable pub update_viewport : LogView Re → LogView Re
    unfolding update_viewport_wrapped clamp_scroll_offset
    update_viewport l =
        if l.soft_wrap then update_viewport_wrapped l else set_window (clamp_scroll_offset l)

-- ===== src/LogView/Append.antt =====
-- New lines: `AppendLine` and `InsertMarker`.
use aku.Base.{
  ℕ, ◌+◌, ◌-◌, String, Bool, true, false, not, ◌&&◌, Option, none, some, List, [], ◌∷◌, ◌++◌, ltb,
  ◌==◌, length, if◌then◌else◌, ℤ, pos,
}
use aku.RingBuffer.{DualRingBuffer, append, stripped_get, width_get}
use aku.LogView.State.{
  Text, LogView, MatchPosition, filtering, searching, indicator, wrap_height, scroll_to_end,
}
use aku.LogView.Window.{update_viewport}
use aku.LogView.Content.{
  recompute_total_wrapped_rows, recount, rebuild_match_positions, line_matches, with_positions,
}

-- Entries below the offset go, from the front.
unfoldable pub trim : ℕ → List ℕ → List ℕ
trim offset [] = []
trim offset (i ∷ is) = let rest = trim offset is in if ltb i offset then rest else i ∷ is

-- The lines evicted by the last append.
abbrev pub evicted : DualRingBuffer → DualRingBuffer → Bool
evicted before after = ltb before.dropped after.dropped

abbrev pub is_match : {Re : Type 0} → Text Re → Option Re → String → Bool
is_match t none s = false
is_match t (some re) s = t.matches re s

-- The rows after a line of `width` came, one of `gone` was evicted if `out`, and the indicator
-- appeared if `first`. The sum covers the rows of the line that went.
abbrev pub rows_after : ℤ → ℤ → ℤ → Bool → Bool → ℕ → ℕ
rows_after vp width gone out first total =
    (if out
      then total + wrap_height width vp - wrap_height gone vp
      else total + wrap_height width vp)
    + (if out && first then 1 else 0)

module _ {Re : Type 0} where
  -- `lv.buffer.WidthGet(0)` before the append, if it is read.
  abbrev pub evicted_width : LogView Re → ℤ
  evicted_width l =
      if l.buffer.count == l.buffer.capacity && l.soft_wrap
      then width_get l.buffer (pos 0)
      else pos 0

  -- The index of the line that came last.
  abbrev pub add_last : LogView Re → LogView Re
  add_last l = record l {
    filtered_indices = l.filtered_indices ++ (l.filtered_index_offset + l.buffer.count - 1) ∷ [];
  }

  abbrev pub shift_filter : LogView Re → LogView Re
  shift_filter l = record l {
    filtered_index_offset = l.filtered_index_offset + 1;
    filtered_indices = trim (l.filtered_index_offset + 1) l.filtered_indices;
  }

  -- The bookkeeping of `AppendLine` without a filter: the rows, while lines are wrapped.
  abbrev pub count_rows : LogView Re → ℤ → DualRingBuffer → LogView Re
  count_rows l width d = record l {
    buffer = d;
    total_wrapped_rows =
        if l.soft_wrap && not (filtering l)
        then rows_after l.log_vp.width width (evicted_width l) (evicted l.buffer d)
            (l.buffer.dropped == 0) l.total_wrapped_rows
        else l.total_wrapped_rows;
  }

  -- The bookkeeping under a filter.
  abbrev pub refilter : Bool → Bool → LogView Re → LogView Re
  refilter out matched l =
      let shifted = (if out then shift_filter l else l) in
      recount (if matched then add_last shifted else shifted)

  -- `trackNonEvictingAppend`.
  abbrev pub track_non_evicting_append : Bool → ℤ → LogView Re → LogView Re
  track_non_evicting_append include raw_width l =
      if filtering l then recount (if include then add_last l else l) else record l {
        total_wrapped_rows =
            if l.soft_wrap
            then l.total_wrapped_rows + wrap_height raw_width l.log_vp.width
            else l.total_wrapped_rows;
      }

  module _ (t : Text Re) where
    -- The end of both operations.
    abbrev pub show_end : LogView Re → LogView Re
    show_end l = update_viewport t (if l.autoscroll && not l.soft_wrap then scroll_to_end l else l)

    -- The matches of the line that came last are added behind the others.
    abbrev pub matches_of_last : LogView Re → Option Re → List MatchPosition
    matches_of_last l none = []
    matches_of_last l (some re) =
        let i = (if filtering l then length l.filtered_indices - 1 else l.buffer.count - 1) in
        line_matches t re (i + indicator l.buffer)
          (stripped_get l.buffer (pos (l.buffer.count - 1)))

    abbrev pub update_matches : Bool → LogView Re → LogView Re
    update_matches out l =
        if searching l
        then (if out
            then rebuild_match_positions t l
            else with_positions t (l.match_positions ++ matches_of_last l l.search_state.re) l)
        else l

    abbrev pub colored_line : LogView Re → String → String
    colored_line l line = if l.syntax then t.highlight line else line

    abbrev pub buffer_after : LogView Re → String → DualRingBuffer
    buffer_after l line =
        let colored = colored_line l line in
        append l.buffer line colored (t.strip colored) (t.string_width colored)

    unfoldable pub append_line : String → LogView Re → LogView Re
    unfolding update_viewport rebuild_match_positions recompute_total_wrapped_rows scroll_to_end
    append_line line l =
        let d = buffer_after l line in
        let out = evicted l.buffer d in
        let matched = is_match t l.filter_state.re line in
        let stored = count_rows l (t.string_width (colored_line l line)) d in
        if filtering l
        then (if not matched && not out
            then stored
            else show_end (update_matches out (refilter out matched stored)))
        else show_end (update_matches out stored)

    abbrev pub after_eviction : LogView Re → LogView Re
    after_eviction l =
        let refiltered = (if filtering l then recount (add_last (shift_filter l)) else l) in
        if searching l then rebuild_match_positions t refiltered else refiltered

    -- The marker's text, and how it is shown; its time is the clock's.
    unfoldable pub insert_marker : String → String → LogView Re → LogView Re
    unfolding update_viewport rebuild_match_positions recompute_total_wrapped_rows scroll_to_end
    insert_marker raw styled l =
        let width = t.string_width raw in
        let d = append l.buffer raw styled raw width in
        show_end (
          if evicted l.buffer d
          then after_eviction (count_rows l width d)
          else track_non_evicting_append true width (record l { buffer = d }))

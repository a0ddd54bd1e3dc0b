-- ===== src/LogView/Find.antt =====
-- Search and filter: `ApplySearch`, clearing, and moving among the matches.
use aku.Base.{
  ℕ, ◌+◌, ◌-◌, ◌/◌, ◌%◌, String, false, ◌&&◌, ◌||◌, Option, none, some, [], map, ltb, length, take,
  get_elem?, if◌then◌else◌, ℤ, pos, negsuc, pos_part, leb_ℤ, ltb_ℤ, ◌+ℤ◌, ◌-ℤ◌,
}
use aku.Search
use aku.Search.{SearchState, SearchMode, search, filter, Compiled}
use aku.LogView.State.{
  Text, LogView, LogViewport, MatchPosition, searching, indicator, viewport_height, wrap_height,
  continuation_width, positive,
}
use aku.LogView.Window.{update_viewport, update_viewport_wrapped, line_widths}
use aku.LogView.Content.{
  recount, rebuild_viewport_content, filter_indices, sum, recompute_total_wrapped_rows,
}

abbrev pub h_scroll_padding : ℤ
h_scroll_padding = pos 15

abbrev max_ℤ : ℤ → ℤ → ℤ
max_ℤ a b = if ltb_ℤ a b then b else a

-- An offset moved as little as it takes to show the line.
abbrev pub reveal : ℤ → ℤ → ℤ → ℤ
reveal line offset h =
    if ltb_ℤ line offset
    then line
    else if leb_ℤ (offset +ℤ h) line
    then line -ℤ h +ℤ pos 1
    else offset

abbrev pub reveal_column : ℤ → LogViewport → ℤ
reveal_column col vp =
    if ltb_ℤ col vp.x_offset || leb_ℤ (vp.x_offset +ℤ vp.width) col
    then max_ℤ (pos 0) (col -ℤ h_scroll_padding)
    else vp.x_offset

module _ {Re : Type 0} where
  -- `matchPositions[matchIndex]`, which Go reads under a test of both bounds; none without it.
  abbrev pub match_at : LogView Re → ℤ → Option MatchPosition
  match_at l (negsuc i) = none
  match_at l (pos i) = get_elem? l.match_positions i

  abbrev pub next_index : LogView Re → ℤ
  next_index l = pos (pos_part (l.match_index +ℤ pos 1) % length l.match_positions)

  abbrev pub prev_index : LogView Re → ℤ
  prev_index l =
      let before = l.match_index -ℤ pos 1 in
      if ltb_ℤ before (pos 0) then pos (length l.match_positions) -ℤ pos 1 else before

  -- The visual row of a match: the indicator, the rows of the lines before, and those of its own.
  abbrev pub visual_row : LogView Re → MatchPosition → ℕ
  visual_row l p =
      let vp = pos (positive l.log_vp.width) in
      let before = take (p.line - indicator l.buffer) (line_widths l) in
      let rows = indicator l.buffer + sum (map (λ w. wrap_height w vp) before) in
      if ltb_ℤ p.col_start vp
      then rows
      else rows + 1 + pos_part (p.col_start -ℤ vp) / continuation_width vp

  abbrev pub show_match : LogView Re → Option MatchPosition → LogView Re
  show_match l none = l
  show_match l (some p) =
      let wrapped = update_viewport_wrapped (record l {
        wrap_y_offset = reveal (pos (visual_row l p)) l.wrap_y_offset (viewport_height l);
        autoscroll = false;
      }) in
      if l.soft_wrap then wrapped else record l {
        scroll_offset = reveal (pos p.line) l.scroll_offset (viewport_height l);
        log_vp = record (l.log_vp) { x_offset = reveal_column p.col_start l.log_vp };
        autoscroll = false;
      }

  unfoldable pub ensure_match_visible : LogView Re → LogView Re
  unfolding update_viewport_wrapped
  ensure_match_visible l = show_match l (match_at l l.match_index)

  module _ (t : Text Re) where
    unfoldable pub search_next : LogView Re → LogView Re
    unfolding ensure_match_visible update_viewport
    search_next l =
        if searching l && ltb 0 (length l.match_positions)
        then update_viewport t (ensure_match_visible (record l { match_index = next_index l }))
        else l

    unfoldable pub search_prev : LogView Re → LogView Re
    unfolding ensure_match_visible update_viewport
    search_prev l =
        if searching l && ltb 0 (length l.match_positions)
        then update_viewport t (ensure_match_visible (record l { match_index = prev_index l }))
        else l

    unfoldable pub clear_search : LogView Re → LogView Re
    unfolding update_viewport
    clear_search l = update_viewport t (record l {
      search_state = Search.clear l.search_state;
      match_positions = [];
      match_index = negsuc 0;
    })

    unfoldable pub clear_filter : LogView Re → LogView Re
    unfolding update_viewport recompute_total_wrapped_rows
    clear_filter l = update_viewport t (
        recount (record l {
          filter_state = Search.clear l.filter_state;
          filtered_indices = [];
          filtered_index_offset = 0;
        }))

    module _ {Err : Type 0} (regexp : String → Compiled Re Err) where
      abbrev pub searched : LogView Re → SearchState Re × Option Err → LogView Re × Option Err
      searched l (s, some e) = (l, some e)
      searched l (s, none) = (rebuild_viewport_content t (record l { search_state = s }), none)

      abbrev pub filtered : LogView Re → SearchState Re × Option Err → LogView Re × Option Err
      filtered l (s, some e) = (l, some e)
      filtered l (s, none) = (
        rebuild_viewport_content t (record l {
          filter_state = s;
          filtered_indices = filter_indices t s.re l.filtered_index_offset l.buffer;
        }),
        none,
      )

      unfoldable pub apply_search : String → SearchMode → LogView Re → LogView Re × Option Err
      unfolding rebuild_viewport_content
      apply_search pattern filter l =
          filtered l (Search.compile regexp pattern filter l.filter_state)
      apply_search pattern search l =
          searched l (Search.compile regexp pattern search l.search_state)

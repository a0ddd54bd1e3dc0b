-- ===== src/LogView/Reach.antt =====
-- The panels that calls can reach, and what holds in each.
use aku.Base.{◌≡◌, refl, String, Bool, true, false, Option, none, some, ℤ}
use aku.Search.{SearchMode, search, filter, Compiled, clear, active, SearchState}
use aku.Search
use aku.LogView.State.{Text, LogView, new_log_view}
use aku.LogView.Content.{filter_indices, recompute_total_wrapped_rows}
use aku.LogView.Append.{append_line, insert_marker}
use aku.LogView.Find.{
  search_next, search_prev, clear_search, clear_filter, apply_search, searched, filtered,
}
use aku.LogView.Scroll.{
  scroll_x, up_by, down_by, goto_top, goto_bottom, toggle_autoscroll, toggle_wrap, set_size,
  set_borderless, toggle_header, toggle_syntax, clear_and_restart,
}
use aku.LogView.Sound.{IsSound}
use aku.LogView.NewLine.{append_line-IsSound, insert_marker-IsSound}
use aku.LogView.Moves.{
  rebuilt-IsSound, search_next-IsSound, search_prev-IsSound, clear_search-IsSound,
  clear_filter-IsSound, up_by-IsSound, down_by-IsSound, goto_top-IsSound, goto_bottom-IsSound,
  toggle_autoscroll-IsSound, toggle_wrap-IsSound, set_size-IsSound, set_borderless-IsSound,
  toggle_header-IsSound, toggle_syntax-IsSound, scroll_x-IsSound, clear_and_restart-IsSound,
  new_log_view-IsSound,
}

module _ {Re : Type 0} (t : Text Re) {Err : Type 0} (regexp : String → Compiled Re Err) where
  searched-IsSound :
      {l : LogView Re} (r : SearchState Re × Option Err)
      → IsSound t l
      → IsSound t (searched t regexp l r).0
  searched-IsSound (s, some e) h = h
  searched-IsSound {l} (s, none) h =
      rebuilt-IsSound t (record l { search_state = s }) h.valid h.exact

  filtered-IsSound :
      {l : LogView Re} (r : SearchState Re × Option Err)
      → IsSound t l
      → IsSound t (filtered t regexp l r).0
  filtered-IsSound (s, some e) h = h
  filtered-IsSound {l} (s, none) h =
      rebuilt-IsSound t
        (record l {
          filter_state = s;
          filtered_indices = filter_indices t s.re l.filtered_index_offset l.buffer;
        })
        h.valid refl

  apply_search-IsSound :
      (pattern : String) (mode : SearchMode) {l : LogView Re}
      → IsSound t l
      → IsSound t (apply_search t regexp pattern mode l).0
  unfolding apply_search
  apply_search-IsSound pattern filter {l} h =
      filtered-IsSound (Search.compile regexp pattern filter l.filter_state) h
  apply_search-IsSound pattern search {l} h =
      searched-IsSound (Search.compile regexp pattern search l.search_state) h

  -- The panels that come of a new one by calls. The lines are taken for no marker, and the texts
  -- of markers are.
  pub data Reach : LogView Re → Type 0 where
    made : (width height capacity : ℤ) → Reach (new_log_view width height capacity)
    appended :
        (line : String) {l : LogView Re}
        → t.is_marker line ≡ false
        → Reach l
        → Reach (append_line t line l)
    marked :
        (raw styled : String) {l : LogView Re}
        → t.is_marker raw ≡ true
        → Reach l
        → Reach (insert_marker t raw styled l)
    applied :
        (pattern : String) (mode : SearchMode) {l : LogView Re}
        → Reach l
        → Reach (apply_search t regexp pattern mode l).0
    filter_cleared : {l : LogView Re} → Reach l → Reach (clear_filter t l)
    search_cleared : {l : LogView Re} → Reach l → Reach (clear_search t l)
    next_found : {l : LogView Re} → Reach l → Reach (search_next t l)
    prev_found : {l : LogView Re} → Reach l → Reach (search_prev t l)
    moved_x : (x : ℤ) {l : LogView Re} → Reach l → Reach (scroll_x x l)
    moved_up : (n : ℤ) {l : LogView Re} → Reach l → Reach (up_by t n l)
    moved_down : (n : ℤ) {l : LogView Re} → Reach l → Reach (down_by t n l)
    at_top : {l : LogView Re} → Reach l → Reach (goto_top t l)
    at_bottom : {l : LogView Re} → Reach l → Reach (goto_bottom t l)
    autoscroll_toggled : {l : LogView Re} → Reach l → Reach (toggle_autoscroll t l)
    wrap_toggled : {l : LogView Re} → Reach l → Reach (toggle_wrap t l)
    sized : (w h : ℤ) {l : LogView Re} → Reach l → Reach (set_size t w h l)
    bordered : (b : Bool) {l : LogView Re} → Reach l → Reach (set_borderless b l)
    header_toggled : {l : LogView Re} → Reach l → Reach (toggle_header t l)
    syntax_toggled : {l : LogView Re} → Reach l → Reach (toggle_syntax t l)
    restarted : {l : LogView Re} → Reach l → Reach (clear_and_restart l)

  pub Reach-IsSound : {l : LogView Re} → Reach l → IsSound t l
  Reach-IsSound (made width height capacity) = new_log_view-IsSound t width height capacity
  Reach-IsSound (appended line plain r) = append_line-IsSound t line plain (Reach-IsSound r)
  Reach-IsSound (marked raw styled marks r) =
      insert_marker-IsSound t raw styled marks (Reach-IsSound r)
  Reach-IsSound (applied pattern mode r) = apply_search-IsSound pattern mode (Reach-IsSound r)
  Reach-IsSound (filter_cleared r) = clear_filter-IsSound t (Reach-IsSound r)
  Reach-IsSound (search_cleared r) = clear_search-IsSound t (Reach-IsSound r)
  Reach-IsSound (next_found r) = search_next-IsSound t (Reach-IsSound r)
  Reach-IsSound (prev_found r) = search_prev-IsSound t (Reach-IsSound r)
  Reach-IsSound (moved_x x r) = scroll_x-IsSound t x (Reach-IsSound r)
  Reach-IsSound (moved_up n r) = up_by-IsSound t n (Reach-IsSound r)
  Reach-IsSound (moved_down n r) = down_by-IsSound t n (Reach-IsSound r)
  Reach-IsSound (at_top r) = goto_top-IsSound t (Reach-IsSound r)
  Reach-IsSound (at_bottom r) = goto_bottom-IsSound t (Reach-IsSound r)
  Reach-IsSound (autoscroll_toggled r) = toggle_autoscroll-IsSound t (Reach-IsSound r)
  Reach-IsSound (wrap_toggled r) = toggle_wrap-IsSound t (Reach-IsSound r)
  Reach-IsSound (sized w h r) = set_size-IsSound t w h (Reach-IsSound r)
  Reach-IsSound (bordered b r) = set_borderless-IsSound t b (Reach-IsSound r)
  Reach-IsSound (header_toggled r) = toggle_header-IsSound t (Reach-IsSound r)
  Reach-IsSound (syntax_toggled r) = toggle_syntax-IsSound t (Reach-IsSound r)
  Reach-IsSound (restarted r) = clear_and_restart-IsSound t (Reach-IsSound r)

  -- In every panel that calls can reach, the filter's indices are those of the buffer's lines that
  -- the filter keeps, in order; without a filter there are none. Lines that are appended look like no
  -- marker, and markers do.
  pub Reach-exact :
      {l : LogView Re}
      → Reach l
      → l.filtered_indices ≡ filter_indices t l.filter_state.re l.filtered_index_offset l.buffer
  Reach-exact r = (Reach-IsSound r).exact

  -- In every panel that calls can reach and that wraps lines, the count of rows, which each new line
  -- adjusts, is the one that is recomputed from the widths of all the lines that show. Lines that are
  -- appended look like no marker, and markers do.
  pub Reach-rows :
      {l : LogView Re}
      → Reach l
      → l.soft_wrap ≡ true
      → l.total_wrapped_rows ≡ (recompute_total_wrapped_rows l).total_wrapped_rows
  unfolding recompute_total_wrapped_rows
  Reach-rows r = (Reach-IsSound r).rows

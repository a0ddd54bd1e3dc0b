-- ===== src/LogView/Scroll.antt =====
-- Scrolling, sizes and switches.
use aku.Base.{
  ℕ, zero, suc, ◌+◌, Bool, true, false, not, List, [], ◌∷◌, if◌then◌else◌, ℤ, pos, negsuc, pos_part,
  leb_ℤ, ltb_ℤ, ◌+ℤ◌, ◌-ℤ◌,
}
use aku.RingBuffer
use aku.RingBuffer.{DualRingBuffer, raw_get, set_colored, set_stripped}
use aku.Search
use aku.LogView.State.{
  Text, LogView, searching, viewport_height, height_of, total_display_lines, max_offset,
  scroll_to_end,
}
use aku.LogView.Window.{update_viewport, update_viewport_wrapped}
use aku.LogView.Content.{recount, recompute_total_wrapped_rows, rebuild_viewport_content}

abbrev pub h_scroll_step : ℤ
h_scroll_step = pos 8

abbrev pub not_below_0 : ℤ → ℤ
not_below_0 x = pos (pos_part x)

abbrev pub greatest : List ℤ → ℤ → ℤ
greatest [] most = most
greatest (w ∷ ws) most = greatest ws (if ltb_ℤ most w then w else most)

module _ {Re : Type 0} where
  abbrev pub wrapped_end : LogView Re → ℤ
  wrapped_end l = pos (max_offset l.total_wrapped_rows (viewport_height l))

  abbrev pub end_of_lines : LogView Re → ℤ
  end_of_lines l = pos (total_display_lines l) -ℤ viewport_height l

  -- Where the offset reaches the end, autoscroll is on again.
  abbrev pub rejoin : ℤ → ℤ → LogView Re → LogView Re
  rejoin offset last l = if leb_ℤ last offset then record l { autoscroll = true } else l

  abbrev pub scroll_x : ℤ → LogView Re → LogView Re
  scroll_x x l = if l.soft_wrap then l else record l { log_vp = record (l.log_vp) { x_offset = x } }

  abbrev pub scroll_left : LogView Re → LogView Re
  scroll_left l = scroll_x (not_below_0 (l.log_vp.x_offset -ℤ h_scroll_step)) l

  abbrev pub scroll_right : LogView Re → LogView Re
  scroll_right l = scroll_x (l.log_vp.x_offset +ℤ h_scroll_step) l

  abbrev pub scroll_home : LogView Re → LogView Re
  scroll_home l = scroll_x (pos 0) l

  abbrev pub scroll_end : LogView Re → LogView Re
  scroll_end l = scroll_x (not_below_0 (greatest l.log_vp.raw_widths (pos 0) -ℤ l.log_vp.width)) l

  abbrev pub set_borderless : Bool → LogView Re → LogView Re
  set_borderless b l = record l { borderless = b }

  module _ (t : Text Re) where
    -- `ScrollUp` and `PageUp`, by `n` rows.
    unfoldable pub up_by : ℤ → LogView Re → LogView Re
    unfolding update_viewport update_viewport_wrapped
    up_by n l =
        if l.soft_wrap
        then update_viewport_wrapped
            (record l { wrap_y_offset = not_below_0 (l.wrap_y_offset -ℤ n); autoscroll = false })
        else update_viewport t
            (record l { scroll_offset = l.scroll_offset -ℤ n; autoscroll = false })

    abbrev pub scroll_up : LogView Re → LogView Re
    scroll_up l = up_by (pos 1) l

    abbrev pub page_up : LogView Re → LogView Re
    page_up l = up_by (viewport_height l) l

    -- `ScrollDown` and `PageDown`, by `n` rows.
    unfoldable pub down_by : ℤ → LogView Re → LogView Re
    unfolding update_viewport update_viewport_wrapped
    down_by n l =
        let wrapped = update_viewport_wrapped (record l { wrap_y_offset = l.wrap_y_offset +ℤ n }) in
        let moved = record l { scroll_offset = l.scroll_offset +ℤ n } in
        if l.soft_wrap
        then rejoin wrapped.wrap_y_offset (wrapped_end wrapped) wrapped
        else update_viewport t (rejoin moved.scroll_offset (end_of_lines moved) moved)

    abbrev pub scroll_down : LogView Re → LogView Re
    scroll_down l = down_by (pos 1) l

    abbrev pub page_down : LogView Re → LogView Re
    page_down l = down_by (viewport_height l) l

    unfoldable pub goto_top : LogView Re → LogView Re
    unfolding update_viewport update_viewport_wrapped
    goto_top l =
        if l.soft_wrap
        then update_viewport_wrapped (record l { wrap_y_offset = pos 0; autoscroll = false })
        else update_viewport t (record l { scroll_offset = pos 0; autoscroll = false })

    unfoldable pub goto_bottom : LogView Re → LogView Re
    unfolding update_viewport update_viewport_wrapped scroll_to_end
    goto_bottom l =
        if l.soft_wrap
        then update_viewport_wrapped (record l { wrap_y_offset = wrapped_end l; autoscroll = true })
        else update_viewport t (record (scroll_to_end l) { autoscroll = true })

    unfoldable pub toggle_autoscroll : LogView Re → LogView Re
    unfolding update_viewport update_viewport_wrapped scroll_to_end
    toggle_autoscroll l =
        let on = record l { autoscroll = true } in
        if l.autoscroll
        then record l { autoscroll = false }
        else if l.soft_wrap
        then update_viewport_wrapped (record on { wrap_y_offset = wrapped_end l })
        else update_viewport t (scroll_to_end on)

    unfoldable pub toggle_wrap : LogView Re → LogView Re
    unfolding update_viewport recompute_total_wrapped_rows scroll_to_end
    toggle_wrap l =
        let on = record l {
          soft_wrap = true;
          log_vp = record (l.log_vp) { x_offset = pos 0 };
          wrap_y_offset = pos 0;
        } in
        let off = record l { soft_wrap = false } in
        update_viewport t (
          if l.soft_wrap
          then (if l.autoscroll then scroll_to_end off else off)
          else recompute_total_wrapped_rows on)

    unfoldable pub set_size : ℤ → ℤ → LogView Re → LogView Re
    unfolding update_viewport recompute_total_wrapped_rows
    set_size w h l = update_viewport t (
        recount (record l {
          width = w;
          height = h;
          log_vp = record (l.log_vp) {
            width = if l.borderless then w else w -ℤ pos 2;
            height = height_of l.borderless l.show_header h;
          };
        }))

    abbrev pub toggle_header : LogView Re → LogView Re
    toggle_header l = set_size l.width l.height (record l { show_header = not l.show_header })

    -- The line `i` is coloured again.
    abbrev pub recolor : Bool → DualRingBuffer → ℕ → DualRingBuffer
    recolor on d i =
        let raw = raw_get d (pos i) in
        let colored = (if on then t.highlight raw else raw) in
        set_stripped (set_colored d (pos i) colored (t.string_width colored)) (pos i)
          (t.strip colored)

    abbrev pub recolor_all : Bool → ℕ → ℕ → DualRingBuffer → DualRingBuffer
    recolor_all on i zero d = d
    recolor_all on i (suc n) d = recolor_all on (i + 1) n (recolor on d i)

    unfoldable pub toggle_syntax : LogView Re → LogView Re
    unfolding update_viewport recompute_total_wrapped_rows rebuild_viewport_content
    toggle_syntax l =
        let colored = recount (record l {
          syntax = not l.syntax;
          buffer = recolor_all (not l.syntax) 0 l.buffer.count l.buffer;
        }) in
        if searching l then rebuild_viewport_content t colored else update_viewport t colored

  -- `ClearAndRestart`.
  unfoldable pub clear_and_restart : LogView Re → LogView Re
  clear_and_restart l = record l {
    buffer = RingBuffer.reset l.buffer;
    log_vp = record (l.log_vp) { lines = []; raw_widths = [] };
    match_positions = [];
    match_index = negsuc 0;
    scroll_offset = pos 0;
    wrap_y_offset = pos 0;
    total_wrapped_rows = 0;
    filtered_indices = [];
    filtered_index_offset = 0;
    autoscroll = true;
    filter_state = Search.clear l.filter_state;
    search_state = Search.clear l.search_state;
  }

-- ===== src/LogView/Moves.antt =====
-- Every operation that brings no line keeps what the panel has of its content in agreement with the
-- buffer.
use aku.Base.{
  ℕ, zero, suc, ◌+◌, ◌≡◌, refl, ap, Bool, not, Option, none, some, arith, length, ltb, ℤ, pos,
  if-cases, if◌then◌else◌, ◌∙◌, sym, ◌&&◌,
}
use aku.RingBuffer.{DualRingBuffer, reset, raw_get}
use aku.RingBuffer.Refine.{Lines, lines}
use aku.RingBuffer.Update.{setters_refine}
use aku.RingBuffer.Inv.{
  IsValid, new-IsValid, reset-IsValid, set_colored-IsValid, set_stripped-IsValid,
}
use aku.Search.{clear, active}
use aku.LogView.State.{Text, LogView, new_log_view, MatchPosition, searching, scroll_to_end}
use aku.LogView.Window.{update_viewport, update_viewport_wrapped}
use aku.LogView.Content.{
  filter_indices, raws, matching, recount, recompute_total_wrapped_rows, rebuild_match_positions,
  rebuild_viewport_content, at_first_match,
}
use aku.LogView.Find.{
  search_next, search_prev, clear_search, clear_filter, ensure_match_visible, match_at, next_index,
  prev_index, show_match,
}
use aku.LogView.Scroll.{
  scroll_x, up_by, down_by, goto_top, goto_bottom, toggle_autoscroll, toggle_wrap, set_size,
  set_borderless, toggle_header, toggle_syntax, recolor_all, clear_and_restart,
}
use aku.LogView.Filter.{raws-shown}
use aku.LogView.Sound.{IsSound, recount-IsSound, update_viewport-IsSound}

-- Colouring again keeps the raw lines.
recolored :
    {Re : Type 0} (t : Text Re) (on : Bool) (i n : ℕ) {d : DualRingBuffer}
    → IsValid d
    → IsValid (recolor_all t on i n d) × ((lines (recolor_all t on i n d)).raw ≡ (lines d).raw)
recolored t on i zero v = (v, refl)
recolored t on i (suc n) {d} v =
    let raw = raw_get d (pos i) in
    let colored = (if on then t.highlight raw else raw) in
    let v₁ = set_colored-IsValid (pos i) colored (t.string_width colored) v in
    let rest = recolored t on (i + 1) n (set_stripped-IsValid (pos i) (t.strip colored) v₁) in
    (
      rest.0,
      rest.1
          ∙ ap Lines.raw (setters_refine (pos i) (t.strip colored) (pos 0) v₁).1
          ∙ ap Lines.raw (setters_refine (pos i) colored (t.string_width colored) v).0,
    )

module _ {Re : Type 0} (t : Text Re) where
  pub rebuilt-IsSound :
      (l : LogView Re)
      → IsValid l.buffer
      → l.filtered_indices ≡ filter_indices t l.filter_state.re l.filtered_index_offset l.buffer
      → IsSound t (rebuild_viewport_content t l)
  unfolding rebuild_viewport_content rebuild_match_positions
  rebuilt-IsSound l v e =
      update_viewport-IsSound t
        (recount-IsSound t (at_first_match (rebuild_match_positions t l)) v e)

  pub show_match-IsSound :
      {l : LogView Re} (m : Option MatchPosition) → IsSound t l → IsSound t (show_match l m)
  unfolding update_viewport_wrapped
  show_match-IsSound none h = h
  show_match-IsSound {l} (some p) h =
      if-cases (IsSound t) l.soft_wrap _ _
        (λ _. record { valid = h.valid; exact = h.exact; rows = h.rows })
        (λ _. record { valid = h.valid; exact = h.exact; rows = h.rows })

  pub ensure-IsSound : {l : LogView Re} → IsSound t l → IsSound t (ensure_match_visible l)
  unfolding ensure_match_visible
  ensure-IsSound {l} h = show_match-IsSound (match_at l l.match_index) h

  -- Showing the match at an index.
  pub shown-IsSound :
      (i : ℤ) {l : LogView Re}
      → IsSound t l
      → IsSound t (update_viewport t (ensure_match_visible (record l { match_index = i })))
  shown-IsSound i {l} h = update_viewport-IsSound t (
      ensure-IsSound {l = record l { match_index = i }}
        (record { valid = h.valid; exact = h.exact; rows = h.rows }))

  pub search_next-IsSound : {l : LogView Re} → IsSound t l → IsSound t (search_next t l)
  unfolding search_next
  search_next-IsSound {l} h =
      if-cases (IsSound t) (searching l && ltb 0 (length l.match_positions)) _ l
        (λ _. shown-IsSound (next_index l) h) (λ _. h)

  pub search_prev-IsSound : {l : LogView Re} → IsSound t l → IsSound t (search_prev t l)
  unfolding search_prev
  search_prev-IsSound {l} h =
      if-cases (IsSound t) (searching l && ltb 0 (length l.match_positions)) _ l
        (λ _. shown-IsSound (prev_index l) h) (λ _. h)

  pub clear_search-IsSound : {l : LogView Re} → IsSound t l → IsSound t (clear_search t l)
  unfolding clear_search
  clear_search-IsSound {l} h =
      update_viewport-IsSound t record { valid = h.valid; exact = h.exact; rows = h.rows }

  pub clear_filter-IsSound : {l : LogView Re} → IsSound t l → IsSound t (clear_filter t l)
  unfolding clear_filter clear
  clear_filter-IsSound {l} h = update_viewport-IsSound t (recount-IsSound t _ h.valid refl)

  pub up_by-IsSound : (n : ℤ) {l : LogView Re} → IsSound t l → IsSound t (up_by t n l)
  unfolding up_by update_viewport_wrapped
  up_by-IsSound n {l} h =
      if-cases (IsSound t) l.soft_wrap _ _
        (λ _. record { valid = h.valid; exact = h.exact; rows = h.rows })
        (λ _. update_viewport-IsSound t record { valid = h.valid; exact = h.exact; rows = h.rows })

  pub down_by-IsSound : (n : ℤ) {l : LogView Re} → IsSound t l → IsSound t (down_by t n l)
  unfolding down_by update_viewport_wrapped
  down_by-IsSound n {l} h =
      if-cases (IsSound t) l.soft_wrap _ _
        (λ _.
          if-cases (IsSound t) _ _ _
            (λ _. record { valid = h.valid; exact = h.exact; rows = h.rows })
            (λ _. record { valid = h.valid; exact = h.exact; rows = h.rows }))
        (λ _. update_viewport-IsSound t (
          if-cases (IsSound t) _ _ _
            (λ _. record { valid = h.valid; exact = h.exact; rows = h.rows })
            (λ _. record { valid = h.valid; exact = h.exact; rows = h.rows })))

  pub goto_top-IsSound : {l : LogView Re} → IsSound t l → IsSound t (goto_top t l)
  unfolding goto_top update_viewport_wrapped
  goto_top-IsSound {l} h =
      if-cases (IsSound t) l.soft_wrap _ _
        (λ _. record { valid = h.valid; exact = h.exact; rows = h.rows })
        (λ _. update_viewport-IsSound t record { valid = h.valid; exact = h.exact; rows = h.rows })

  pub goto_bottom-IsSound : {l : LogView Re} → IsSound t l → IsSound t (goto_bottom t l)
  unfolding goto_bottom update_viewport_wrapped scroll_to_end
  goto_bottom-IsSound {l} h =
      if-cases (IsSound t) l.soft_wrap _ _
        (λ _. record { valid = h.valid; exact = h.exact; rows = h.rows })
        (λ _. update_viewport-IsSound t record { valid = h.valid; exact = h.exact; rows = h.rows })

  pub toggle_autoscroll-IsSound : {l : LogView Re} → IsSound t l → IsSound t (toggle_autoscroll t l)
  unfolding toggle_autoscroll update_viewport_wrapped scroll_to_end
  toggle_autoscroll-IsSound {l} h =
      if-cases (IsSound t) l.autoscroll _ _
        (λ _. record { valid = h.valid; exact = h.exact; rows = h.rows })
        (λ _.
          if-cases (IsSound t) l.soft_wrap _ _
            (λ _. record { valid = h.valid; exact = h.exact; rows = h.rows })
            (λ _.
              update_viewport-IsSound t record { valid = h.valid; exact = h.exact; rows = h.rows }))

  pub toggle_wrap-IsSound : {l : LogView Re} → IsSound t l → IsSound t (toggle_wrap t l)
  unfolding toggle_wrap recompute_total_wrapped_rows scroll_to_end
  toggle_wrap-IsSound {l} h = update_viewport-IsSound t (
      if-cases (IsSound t) l.soft_wrap _ _
        (λ _.
          if-cases (IsSound t) l.autoscroll _ _
            (λ _. record { valid = h.valid; exact = h.exact; rows = λ on. absurd (ground arith) })
            (λ _. record { valid = h.valid; exact = h.exact; rows = λ on. absurd (ground arith) }))
        (λ _. record { valid = h.valid; exact = h.exact; rows = λ on. refl }))

  pub set_size-IsSound : (w hh : ℤ) {l : LogView Re} → IsSound t l → IsSound t (set_size t w hh l)
  unfolding set_size
  set_size-IsSound w hh {l} h = update_viewport-IsSound t (recount-IsSound t _ h.valid h.exact)

  filter_indices_congr :
      (o : Option Re) (off : ℕ) (d d' : DualRingBuffer)
      → raws d ≡ raws d'
      → filter_indices t o off d ≡ filter_indices t o off d'
  filter_indices_congr none off d d' e = refl
  filter_indices_congr (some re) off d d' e = ap (matching t re off) e

  pub toggle_syntax-IsSound : {l : LogView Re} → IsSound t l → IsSound t (toggle_syntax t l)
  unfolding toggle_syntax
  toggle_syntax-IsSound {l} h =
      let r = recolored t (not l.syntax) 0 l.buffer.count h.valid in
      let d = recolor_all t (not l.syntax) 0 l.buffer.count l.buffer in
      let colored = record l { syntax = not l.syntax; buffer = d } in
      let e : l.filtered_indices ≡ filter_indices t l.filter_state.re l.filtered_index_offset d =
        h.exact
        ∙ filter_indices_congr l.filter_state.re l.filtered_index_offset l.buffer d
            (raws-shown h.valid ∙ sym r.1 ∙ sym (raws-shown r.0)) in
      let s = recount-IsSound t colored r.0 e in
      if-cases (IsSound t) (searching l) _ _
        (λ _. rebuilt-IsSound (recount colored) s.valid s.exact) (λ _. update_viewport-IsSound t s)

  pub set_borderless-IsSound :
      (b : Bool) {l : LogView Re} → IsSound t l → IsSound t (set_borderless b l)
  set_borderless-IsSound b h = record { valid = h.valid; exact = h.exact; rows = h.rows }

  pub toggle_header-IsSound : {l : LogView Re} → IsSound t l → IsSound t (toggle_header t l)
  toggle_header-IsSound {l} h =
      set_size-IsSound l.width l.height {l = record l { show_header = not l.show_header }}
        (record { valid = h.valid; exact = h.exact; rows = h.rows })

  pub scroll_x-IsSound : (x : ℤ) {l : LogView Re} → IsSound t l → IsSound t (scroll_x x l)
  scroll_x-IsSound x {l} h =
      if-cases (IsSound t) l.soft_wrap l _ (λ _. h)
        (λ _. record { valid = h.valid; exact = h.exact; rows = h.rows })

  pub clear_and_restart-IsSound : {l : LogView Re} → IsSound t l → IsSound t (clear_and_restart l)
  unfolding clear_and_restart clear active reset
  clear_and_restart-IsSound {l} h = record {
    valid = reset-IsValid h.valid;
    exact = refl;
    rows = λ on. refl;
  }

  pub new_log_view-IsSound :
      (width height capacity : ℤ) → IsSound t (new_log_view width height capacity)
  unfolding new_log_view
  new_log_view-IsSound width height capacity = record {
    valid = new-IsValid capacity;
    exact = refl;
    rows = λ on. absurd (ground arith);
  }

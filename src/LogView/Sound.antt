-- ===== src/LogView/Sound.antt =====
-- What the panel keeps of its content agrees with the buffer: the invariant, and that new
-- visible lines, recounting and a rebuild of the matches keep it.
use aku.Base.{◌≡◌, refl, Bool, true, not, ◌&&◌, Bool-cases, inl, inr, if-cases}
use aku.RingBuffer.Inv.{IsValid}
use aku.LogView.State.{Text, LogView, searching, scroll_to_end, clamp_scroll_offset}
use aku.LogView.Window.{update_viewport, update_viewport_wrapped, set_window}
use aku.LogView.Content.{
  filter_indices, wrapped_rows, recount, recompute_total_wrapped_rows, rebuild_match_positions,
}
use aku.LogView.Append.{show_end, update_matches}

pub record IsSound {Re : Type 0} (t : Text Re) (l : LogView Re) : Type 0 where
  pub valid : IsValid l.buffer
  pub exact :
      l.filtered_indices ≡ filter_indices t l.filter_state.re l.filtered_index_offset l.buffer
  pub rows : l.soft_wrap ≡ true → l.total_wrapped_rows ≡ wrapped_rows l

module _ {Re : Type 0} (t : Text Re) where
  pub recount-IsSound :
      (l : LogView Re)
      → IsValid l.buffer
      → l.filtered_indices ≡ filter_indices t l.filter_state.re l.filtered_index_offset l.buffer
      → IsSound t (recount l)
  unfolding recompute_total_wrapped_rows
  recount-IsSound l v e = elim (Bool-cases l.soft_wrap) [
    | inl on ↦ rw on (record { valid = v; exact = e; rows = λ _. refl })
    | inr off ↦ rw off (record { valid = v; exact = e; rows = λ on. cc })
  ]

  pub update_viewport-IsSound : {l : LogView Re} → IsSound t l → IsSound t (update_viewport t l)
  unfolding update_viewport update_viewport_wrapped clamp_scroll_offset
  update_viewport-IsSound {l} h =
      if-cases (IsSound t) l.soft_wrap (update_viewport_wrapped l)
        (set_window t (clamp_scroll_offset l))
        (λ _. record { valid = h.valid; exact = h.exact; rows = h.rows })
        (λ _. record { valid = h.valid; exact = h.exact; rows = h.rows })

  pub show_end-IsSound : {l : LogView Re} → IsSound t l → IsSound t (show_end t l)
  unfolding scroll_to_end
  show_end-IsSound {l} h = update_viewport-IsSound (
      if-cases (IsSound t) (l.autoscroll && not l.soft_wrap) _ l
        (λ _. record { valid = h.valid; exact = h.exact; rows = h.rows }) (λ _. h))

  pub update_matches-IsSound :
      (out : Bool) {l : LogView Re} → IsSound t l → IsSound t (update_matches t out l)
  unfolding rebuild_match_positions
  update_matches-IsSound out {l} h =
      if-cases (IsSound t) (searching l) _ l
        (λ _.
          if-cases (IsSound t) out _ _
            (λ _. record { valid = h.valid; exact = h.exact; rows = h.rows })
            (λ _. record { valid = h.valid; exact = h.exact; rows = h.rows }))
        (λ _. h)

  pub finish_lem :
      (out : Bool) (l : LogView Re) → IsSound t l → IsSound t (show_end t (update_matches t out l))
  finish_lem out l h = show_end-IsSound {l = update_matches t out l} (update_matches-IsSound out h)

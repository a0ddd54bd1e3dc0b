-- ===== src/LogView/NewLine.antt =====
-- New lines and markers keep what the panel has of its content in agreement with the buffer.
use aku.Base.{
  ◌≡◌, refl, ◌∙◌, String, Bool, true, false, not, ◌&&◌, ◌||◌, Option, some, arith, if◌then◌else◌, ℤ,
  if-cases,
}
use aku.RingBuffer.{DualRingBuffer, append}
use aku.RingBuffer.Inv.{IsValid}
use aku.LogView.State.{Text, LogView, filtering, searching}
use aku.LogView.Content.{filter_indices, rebuild_match_positions, keeps}
use aku.LogView.Append.{
  append_line, insert_marker, refilter, count_rows, buffer_after, evicted, is_match,
}
use aku.LogView.Sound.{IsSound, show_end-IsSound, finish_lem}
use aku.LogView.Counted.{rows_counted, track_counted, kept→room}
use aku.LogView.Refilter.{refilter-IsSound, filtering→some, filtering→none, passed_by}

or-false : (a : Bool) → (a || false) ≡ a
or-false true = refl
or-false false = refl

or-true : (a : Bool) → (a || true) ≡ true
or-true true = refl
or-true false = refl

neither : {a b : Bool} → (not a && not b) ≡ true → (a ≡ false) × (b ≡ false)
neither h = ground arith

module _ {Re : Type 0} (t : Text Re) where
  passes :
      (re : Re) (line : String) {o : Option Re}
      → t.is_marker line ≡ false
      → o ≡ some re
      → keeps t re line ≡ is_match t o line
  passes re line plain e = rw e (rw plain (or-false (t.matches re line)))

  -- A line that is not taken for a marker.
  pub append_line-IsSound :
      (line : String) {l : LogView Re}
      → t.is_marker line ≡ false
      → IsSound t l
      → IsSound t (append_line t line l)
  unfolding append_line
  append_line-IsSound line {l} plain h =
      if-cases (IsSound t) (filtering l) _ _
        (λ on.
          let f : (re : Re) × (l.filter_state.re ≡ some re) = filtering→some l on in
          let k = passes f.0 line plain f.1 in
          if-cases (IsSound t)
            (not (is_match t l.filter_state.re line)
              && not (evicted l.buffer (buffer_after t l line)))
            _ _
            (λ skip.
              let both = neither skip in passed_by t f.0 line _ _ _ h f.1 (k ∙ both.0) both.1)
            (λ _. finish_lem t _ _ (
              refilter-IsSound t _ _ f.0 line _ _ _ _ h.valid refl f.1 (rw f.1 at h.exact) k refl)))
        (λ off. finish_lem t _ _ (rows_counted t line _ _ _ h (filtering→none l off)))

  -- A marker's text passes any filter.
  marker_refiltered :
      (out : Bool) (raw c s : String) (w : ℤ) {d : DualRingBuffer} (l : LogView Re)
      → t.is_marker raw ≡ true
      → IsValid d
      → l.buffer ≡ append d raw c s w
      → l.filtered_indices ≡ filter_indices t l.filter_state.re l.filtered_index_offset d
      → filtering l ≡ true
      → evicted d (append d raw c s w) ≡ out
      → IsSound t (refilter out true l)
  marker_refiltered out raw c s w l marks v b x on o =
      let f : (re : Re) × (l.filter_state.re ≡ some re) = filtering→some l on in
      refilter-IsSound t out true f.0 raw c s w l v b f.1 (rw f.1 at x)
        (rw marks (or-true (t.matches f.0 raw))) o

  -- A text that is taken for a marker.
  pub insert_marker-IsSound :
      (raw styled : String) {l : LogView Re}
      → t.is_marker raw ≡ true
      → IsSound t l
      → IsSound t (insert_marker t raw styled l)
  unfolding insert_marker rebuild_match_positions
  insert_marker-IsSound raw styled {l} marks h = show_end-IsSound t (
      if-cases (IsSound t) (evicted l.buffer (append l.buffer raw styled raw (t.string_width raw)))
        _ _
        (λ out.
          let counted =
            count_rows l (t.string_width raw)
              (append l.buffer raw styled raw (t.string_width raw)) in
          let refiltered : IsSound t
              (if filtering counted then refilter true true counted else counted) =
            if-cases (IsSound t) (filtering counted) _ _
              (λ on. marker_refiltered true raw styled raw _ _ marks h.valid refl h.exact on out)
              (λ off. rows_counted t raw styled raw _ h (filtering→none l off)) in
          if-cases (IsSound t) (searching counted) _ _
            (λ _. record {
              valid = refiltered.valid;
              exact = refiltered.exact;
              rows = refiltered.rows;
            })
            (λ _. refiltered))
        (λ within.
          if-cases (IsSound t) (filtering l) _ _
            (λ on.
              marker_refiltered false raw styled raw _
                (record l { buffer = append l.buffer raw styled raw (t.string_width raw) }) marks
                h.valid refl h.exact on within)
            (λ off.
              track_counted t raw styled raw _ h (filtering→none l off)
                (kept→room raw styled raw _ l.buffer h.valid within))))

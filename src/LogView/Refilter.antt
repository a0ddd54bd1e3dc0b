-- ===== src/LogView/Refilter.antt =====
-- The bookkeeping under a filter keeps the indices exact.
use aku.Base.{
  ℕ, ◌+◌, ◌-◌, ◌<◌, ◌≡◌, refl, ap, ap₂, sym, ◌∙◌, String, Bool, true, false, none, some, List, [],
  ◌∷◌, ◌++◌, map, arith, ltb, if◌then◌else◌, ℤ, Option-cases, inl, inr, append-nil, subst,
}
use aku.RingBuffer.{DualRingBuffer, append, width_get}
use aku.RingBuffer.Inv.{IsValid, append-IsValid}
use aku.Search.{active}
use aku.LogView.State.{Text, LogView, filtering, buffer_index}
use aku.LogView.Content.{keeps, raws, matching}
use aku.LogView.Append.{refilter, count_rows, evicted, trim, add_last, shift_filter}
use aku.LogView.Filter.{indices-append, indices-evict, index_if}
use aku.LogView.Wrap.{rows_of, kept_widths}
use aku.LogView.Sound.{IsSound, recount-IsSound}
use aku.LogView.Counted.{evicted→full, kept→room, dropped-append}

module _ {Re : Type 0} where
  pub filtering→some :
      (l : LogView Re) → filtering l ≡ true → (re : Re) × (l.filter_state.re ≡ some re)
  unfolding active
  filtering→some l h = elim (Option-cases l.filter_state.re) [
    | inl e ↦ absurd (ground arith)
    | inr (re, e) ↦ (re, e)
  ]

  pub filtering→none : (l : LogView Re) → filtering l ≡ false → l.filter_state.re ≡ none
  unfolding active
  filtering→none l h = elim (Option-cases l.filter_state.re) [
    | inl e ↦ e
    | inr (re, e) ↦ absurd (ground arith)
  ]

module _ {Re : Type 0} (t : Text Re) where
  module _ (re : Re) (line c s : String) (w : ℤ) {d : DualRingBuffer} (v : IsValid d) where
    -- The indices with that of the new line.
    abbrev with_last : Bool → ℕ → List ℕ → List ℕ
    with_last m off is = if m then is ++ (off + (append d line c s w).count - 1) ∷ [] else is

    last-index_if :
        (m : Bool) (off n : ℕ) (is : List ℕ)
        → keeps t re line ≡ m
        → off + (append d line c s w).count - 1 ≡ n
        → with_last m off is ≡ is ++ index_if t re line n
    last-index_if true off n is k e = rw k (ap (λ i. is ++ i ∷ []) e)
    last-index_if false off n is k e = rw k (sym (append-nil is))

    exact-append :
        (m : Bool) (off : ℕ) {is : List ℕ}
        → keeps t re line ≡ m
        → d.count < d.capacity
        → is ≡ matching t re off (raws d)
        → with_last m off is ≡ matching t re off (raws (append d line c s w))
    unfolding append
    exact-append m off {is} k room e =
        ap (with_last m off) e
        ∙ last-index_if m off (off + d.count) _ k (ground arith)
        ∙ sym (indices-append t re off line c s w v room)

    exact-evict :
        (m : Bool) (off : ℕ) {is : List ℕ}
        → keeps t re line ≡ m
        → d.count ≡ d.capacity
        → is ≡ matching t re off (raws d)
        → with_last m (off + 1) (trim (off + 1) is)
          ≡ matching t re (off + 1) (raws (append d line c s w))
    unfolding append
    exact-evict m off {is} k full e =
        ap (λ r. with_last m (off + 1) (trim (off + 1) r)) e
        ∙ last-index_if m (off + 1) (off + d.count) _ k (ground (arith, v.room))
        ∙ sym (indices-evict t re off line c s w v full)

  -- The bookkeeping under a filter keeps the indices exact.
  pub refilter-IsSound :
      (out m : Bool) (re : Re) (line c s : String) (w : ℤ) {d : DualRingBuffer} (l : LogView Re)
      → IsValid d
      → l.buffer ≡ append d line c s w
      → l.filter_state.re ≡ some re
      → l.filtered_indices ≡ matching t re l.filtered_index_offset (raws d)
      → keeps t re line ≡ m
      → evicted d (append d line c s w) ≡ out
      → IsSound t (refilter out m l)
  refilter-IsSound true true re line c s w {d} l v b e x k o =
      recount-IsSound t (add_last (shift_filter l))
        (subst IsValid (sym b) (append-IsValid line c s w v))
        (rw e (
          rw b (
            exact-evict re line c s w v true l.filtered_index_offset k
              (evicted→full line c s w d v o) x)))
  refilter-IsSound true false re line c s w {d} l v b e x k o =
      recount-IsSound t (shift_filter l) (subst IsValid (sym b) (append-IsValid line c s w v)) (
        rw e (
          rw b (
            exact-evict re line c s w v false l.filtered_index_offset k
              (evicted→full line c s w d v o) x)))
  refilter-IsSound false true re line c s w {d} l v b e x k o =
      recount-IsSound t (add_last l) (subst IsValid (sym b) (append-IsValid line c s w v)) (
        rw e (
          rw b (
            exact-append re line c s w v true l.filtered_index_offset k (kept→room line c s w d v o)
              x)))
  refilter-IsSound false false re line c s w {d} l v b e x k o =
      recount-IsSound t l (subst IsValid (sym b) (append-IsValid line c s w v)) (
        rw e (
          rw b (
            exact-append re line c s w v false l.filtered_index_offset k
              (kept→room line c s w d v o) x)))

  -- A line that does not pass, where there is room, leaves the indices and the rows.
  pub passed_by :
      (re : Re) (line c s : String) (w : ℤ) {l : LogView Re}
      → IsSound t l
      → l.filter_state.re ≡ some re
      → keeps t re line ≡ false
      → evicted l.buffer (append l.buffer line c s w) ≡ false
      → IsSound t (count_rows l w (append l.buffer line c s w))
  unfolding active
  passed_by re line c s w {l} h e k o = record {
    valid = append-IsValid line c s w h.valid;
    exact = rw e (exact-append re line c s w h.valid false l.filtered_index_offset k room before);
    rows = λ on. rw on (
        rw under (
          rw under at (h.rows on)
          ∙ ap₂ (λ ws n. rows_of l.log_vp.width ws + (if ltb 0 n then 1 else 0)) widths
              (sym (dropped-append line c s w l.buffer room))));
  }
    where
      room : l.buffer.count < l.buffer.capacity
      room = kept→room line c s w l.buffer h.valid o

      before : l.filtered_indices ≡ matching t re l.filtered_index_offset (raws l.buffer)
      before = rw e at h.exact

      under : filtering l ≡ true
      under = rw e refl

      widths :
          map (λ i. width_get l.buffer (buffer_index l i)) l.filtered_indices
          ≡ map (λ i. width_get (append l.buffer line c s w) (buffer_index l i)) l.filtered_indices
      widths = rw before (sym (kept_widths t re l.filtered_index_offset line c s w h.valid room))

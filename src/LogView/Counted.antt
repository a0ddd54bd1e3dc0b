-- ===== src/LogView/Counted.antt =====
-- The rows that are counted at an append, without a filter.
use aku.Base.{
  ℕ, ◌+◌, ◌-◌, ◌<◌, ◌≡◌, refl, ap, ◌∙◌, String, true, false, ◌&&◌, none, arith, ltb, ◌==◌,
  if◌then◌else◌, ℤ, pos, Bool-cases, inl, inr, ◌⊎◌,
}
use aku.RingBuffer.{DualRingBuffer, append, width_get}
use aku.RingBuffer.Inv.{IsValid, append-IsValid}
use aku.Search.{active}
use aku.LogView.State.{Text, LogView, indicator, wrap_height}
use aku.LogView.Content.{filter_indices}
use aku.LogView.Append.{count_rows, rows_after, evicted}
use aku.LogView.Wrap.{rows_of, widths_of, rows-append, rows-evict}
use aku.LogView.Sound.{IsSound}

pub evicted→full :
    (line c s : String) (w : ℤ) (d : DualRingBuffer)
    → IsValid d
    → evicted d (append d line c s w) ≡ true
    → d.count ≡ d.capacity
unfolding append
evicted→full line c s w d v o = ground arith

pub kept→room :
    (line c s : String) (w : ℤ) (d : DualRingBuffer)
    → IsValid d
    → evicted d (append d line c s w) ≡ false
    → d.count < d.capacity
unfolding append
kept→room line c s w d v o = ground (arith, v.count_in)

pub dropped-evict :
    (line c s : String) (w : ℤ) (d : DualRingBuffer)
    → d.count ≡ d.capacity
    → (append d line c s w).dropped ≡ d.dropped + 1
unfolding append
dropped-evict line c s w d h = ground arith

pub dropped-append :
    (line c s : String) (w : ℤ) (d : DualRingBuffer)
    → d.count < d.capacity
    → (append d line c s w).dropped ≡ d.dropped
unfolding append
dropped-append line c s w d h = ground arith

module _ {Re : Type 0} (t : Text Re) where
  -- The rows counted at an append, without a filter.
  count_rows_lem :
      (line c s : String) (w vp gone : ℤ) (total : ℕ) {d : DualRingBuffer}
      → IsValid d
      → total ≡ rows_of vp (widths_of d) + indicator d
      → (d.count ≡ d.capacity → gone ≡ width_get d (pos 0))
      → rows_after vp w gone (evicted d (append d line c s w)) (d.dropped == 0) total
        ≡ rows_of vp (widths_of (append d line c s w)) + indicator (append d line c s w)
  count_rows_lem line c s w vp gone total {d} v e g = elim (Bool-cases (d.count == d.capacity)) [
    | inl full ↦
        let n : d.count ≡ d.capacity = ground arith in
        let same : wrap_height gone vp ≡ wrap_height (width_get d (pos 0)) vp =
          ap (λ x. wrap_height x vp) (g n) in
        counted d.dropped (append d line c s w).dropped total (rows_of vp (widths_of d))
          (rows_of vp (widths_of (append d line c s w))) (wrap_height w vp) (wrap_height gone vp) e
          (inl (dropped-evict line c s w d n, omega (arith, same, rows-evict line c s w v vp n)))
    | inr room ↦
        let n : d.count < d.capacity = ground (arith, v.count_in) in
        counted d.dropped (append d line c s w).dropped total (rows_of vp (widths_of d))
          (rows_of vp (widths_of (append d line c s w))) (wrap_height w vp) (wrap_height gone vp) e
          (inr (dropped-append line c s w d n, rows-append line c s w v vp n))
  ]
    where
      counted :
          (b b' total r r' w g : ℕ)
          → total ≡ r + (if ltb 0 b then 1 else 0)
          → ((b' ≡ b + 1) × (r' + g ≡ r + w)) ⊎ ((b' ≡ b) × (r' ≡ r + w))
          → (if ltb b b' then total + w - g else total + w) + (if ltb b b' && b == 0 then 1 else 0)
            ≡ r' + (if ltb 0 b' then 1 else 0)
      counted b b' total r r' w g e (inl (h, k)) = ground arith
      counted b b' total r r' w g e (inr (h, k)) = ground arith

  pub rows_counted :
      (line c s : String) (w : ℤ) {l : LogView Re}
      → IsSound t l
      → l.filter_state.re ≡ none
      → IsSound t (count_rows l w (append l.buffer line c s w))
  unfolding active
  rows_counted line c s w {l} h e = record {
    valid = append-IsValid line c s w h.valid;
    exact = rw e (h.exact ∙ ap (λ r. filter_indices t r l.filtered_index_offset l.buffer) e);
    rows = λ on. rw on (
        rw e (
          let before : l.total_wrapped_rows
              ≡ rows_of l.log_vp.width (widths_of l.buffer) + indicator l.buffer =
            rw e at (h.rows on) in
          count_rows_lem line c s w l.log_vp.width _ l.total_wrapped_rows h.valid before (λ full.
            let k : (l.buffer.count == l.buffer.capacity) ≡ true = ground arith in rw k refl)));
  }

  -- A marker without a filter.
  pub track_counted :
      (line c s : String) (w : ℤ) {l : LogView Re}
      → IsSound t l
      → l.filter_state.re ≡ none
      → l.buffer.count < l.buffer.capacity
      → IsSound t (record l {
        buffer = append l.buffer line c s w;
        total_wrapped_rows =
            if l.soft_wrap
            then l.total_wrapped_rows + wrap_height w l.log_vp.width
            else l.total_wrapped_rows;
      })
  unfolding active
  track_counted line c s w {l} h e room = record {
    valid = append-IsValid line c s w h.valid;
    exact = rw e (h.exact ∙ ap (λ r. filter_indices t r l.filtered_index_offset l.buffer) e);
    rows = λ on. rw on (
        rw e (
          let before : l.total_wrapped_rows
              ≡ rows_of l.log_vp.width (widths_of l.buffer) + indicator l.buffer =
            rw e at (h.rows on) in
          let same : indicator (append l.buffer line c s w) ≡ indicator l.buffer =
            ap (λ n. if ltb 0 n then 1 else 0) (dropped-append line c s w l.buffer room) in
          omega (arith, before, same, rows-append line c s w h.valid l.log_vp.width room)));
  }

-- ===== src/RingBuffer/Refine.antt =====
-- The ring buffer against what it promises: the last `capacity` lines, in order, and a count of
-- those that were evicted.
use native.Mathlib.Nat.{mod-eq_of_lt, mod-add-mod, add-mod_right}
use aku.Base.{
  ℕ, suc, ◌+◌, ◌-◌, ◌%◌, ◌≤◌, ◌<◌, ◌≡◌, ap, sym, ◌∙◌, List, [], ◌∷◌, ◌++◌, String, arith, length,
  set, drop, last_n, ltb, ltb→lt, subst, ◌==◌, if◌then◌else◌, ℤ, pos, length-append, Bool-cases,
  inl, inr, drop-append,
}
use aku.RingBuffer.{DualRingBuffer, append}
use aku.RingBuffer.View.{cells, cells_congr, length-cells, cells-set_end, drop-cells}
use aku.RingBuffer.Inv.{IsValid}
use aku.RingBuffer.Slice.{oldest, shown}

-- What a client can see: the lines of each array, oldest first, and the eviction count.
pub record Lines : Type 0 where
  pub raw : List String
  pub colored : List String
  pub stripped : List String
  pub widths : List ℤ
  pub dropped : ℕ

abbrev pub lines : DualRingBuffer → Lines
lines d = record {
  raw = shown d d.raw "";
  colored = shown d d.colored "";
  stripped = shown d d.stripped "";
  widths = shown d d.widths (pos 0);
  dropped = d.dropped;
}

-- Adding a line keeps the last `cap` lines and counts the one that goes.
abbrev pub add_line : ℕ → Lines → String → String → String → ℤ → Lines
add_line cap l r c s w = record {
  raw = last_n cap (l.raw ++ r ∷ []);
  colored = last_n cap (l.colored ++ c ∷ []);
  stripped = last_n cap (l.stripped ++ s ∷ []);
  widths = last_n cap (l.widths ++ w ∷ []);
  dropped = l.dropped + (length l.raw + 1 - cap);
}

module _ {ℓ} {A : Type ℓ} (arr : List A) (cap : ℕ) (z x : A) (full : length arr ≡ cap) where
  -- A write just past `n` cells, read from an equal position.
  written :
      (head p q n : ℕ)
      → n < cap
      → head ≡ (p + n) % cap
      → q % cap ≡ p % cap
      → cells (set arr head x) cap z q (n + 1) ≡ cells arr cap z p n ++ x ∷ []
  written head p q n h at same =
      ap (cells (set arr head x) cap z q) {x = n + 1} {y = suc n} (omega arith)
      ∙ cells_congr (set arr head x) cap z q p (suc n) same
      ∙ ap (λ i. cells (set arr i x) cap z p (suc n)) at
      ∙ cells-set_end arr cap z x p n h full

  module _ (head count : ℕ) (h : head < cap) where
    write_more :
        count < cap
        → cells (set arr head x) cap z ((head + 1) % cap + cap - (count + 1)) (count + 1)
          ≡ last_n cap (cells arr cap z (head + cap - count) count ++ x ∷ [])
    write_more more =
        written head (head + cap - count) ((head + 1) % cap + cap - (count + 1)) count more
          (sym (mod-eq_of_lt h)
            ∙ sym (add-mod_right head cap)
            ∙ ap (λ r. r % cap) {x = head + cap} (omega arith))
          (ap (λ r. r % cap) {y = (head + 1) % cap + (cap - (count + 1))} (omega arith)
            ∙ mod-add-mod (head + 1) cap (cap - (count + 1))
            ∙ ap (λ r. r % cap) {x = head + 1 + (cap - (count + 1))} (omega arith))
        ∙ ap (λ k. drop k (cells arr cap z (head + cap - count) count ++ x ∷ [])) {x = 0}
            (omega (
              arith,
              length-append (cells arr cap z (head + cap - count) count) (x ∷ []),
              length-cells arr cap z (head + cap - count) count,
            ))

    write_over :
        cells (set arr head x) cap z ((head + 1) % cap + cap - cap) cap
        ≡ last_n cap (cells arr cap z (head + cap - cap) cap ++ x ∷ [])
    write_over =
        ap (cells (set arr head x) cap z ((head + 1) % cap + cap - cap)) {y = cap - 1 + 1}
          (omega arith)
        ∙ written head (head + 1) ((head + 1) % cap + cap - cap) (cap - 1) (omega arith)
            (sym (mod-eq_of_lt h)
              ∙ sym (add-mod_right head cap)
              ∙ ap (λ r. r % cap) {x = head + cap} (omega arith))
            (ap (λ r. r % cap) {y = (head + 1) % cap + 0} (omega arith)
              ∙ mod-add-mod (head + 1) cap 0
              ∙ ap (λ r. r % cap) {x = head + 1 + 0} (omega arith))
        ∙ ap (λ r. r ++ x ∷ [])
            (ap (λ k. cells arr cap z k (cap - 1)) {y = head + cap - cap + 1} (omega arith)
              ∙ sym (drop-cells arr cap z (head + cap - cap) cap 1 (omega arith)))
        ∙ sym (
            drop-append 1 (cells arr cap z (head + cap - cap) cap) (x ∷ [])
              (omega (arith, length-cells arr cap z (head + cap - cap) cap)))
        ∙ ap (λ k. drop k (cells arr cap z (head + cap - cap) cap ++ x ∷ [])) {x = 1}
            (omega (
              arith,
              length-append (cells arr cap z (head + cap - cap) cap) (x ∷ []),
              length-cells arr cap z (head + cap - cap) cap,
            ))

    -- A write at the head, with the counters of `Append`, on one array.
    write_head :
        count ≤ cap
        → let count' = (if ltb count cap then count + 1 else count) in
          cells (set arr head x) cap z ((head + 1) % cap + cap - count') count'
          ≡ last_n cap (cells arr cap z (head + cap - count) count ++ x ∷ [])
    write_head hc = elim (Bool-cases (ltb count cap)) [
      | inl more ↦ rw more (write_more (ltb→lt _ _ more))
      | inr over ↦ rw over (
          let e : cap ≡ count = ground arith in
          subst
            (λ k.
              cells (set arr head x) cap z ((head + 1) % cap + cap - k) k
              ≡ last_n cap (cells arr cap z (head + cap - k) k ++ x ∷ []))
            e write_over)
    ]

-- `Append` is `add_line` on what the buffer shows.
pub append_refines :
    (r c s : String) (w : ℤ) {d : DualRingBuffer}
    → IsValid d
    → lines (append d r c s w) ≡ add_line d.capacity (lines d) r c s w
unfolding append
append_refines r c s w {d} v = λ i. record {
  raw = write_head d.raw d.capacity "" r v.raw_full d.head d.count v.head_in v.count_in i;
  colored =
      write_head d.colored d.capacity "" c v.colored_full d.head d.count v.head_in v.count_in i;
  stripped =
      write_head d.stripped d.capacity "" s v.stripped_full d.head d.count v.head_in v.count_in i;
  widths =
      write_head d.widths d.capacity (pos 0) w v.widths_full d.head d.count v.head_in v.count_in i;
  dropped = evicted i;
}
  where
    evicted :
        (if d.count == d.capacity then d.dropped + 1 else d.dropped)
        ≡ d.dropped + (length (shown d d.raw "") + 1 - d.capacity)
    evicted = ground (arith, length-cells d.raw d.capacity "" (oldest d) d.count, v.count_in)

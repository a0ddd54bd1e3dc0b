-- ===== src/RingBuffer/Update.antt =====
-- The setters and the readers of the ring buffer on what it shows.
use aku.Base.{
  ◌≡◌, refl, ap, sym, ◌∙◌, List, String, arith, length, set, ℤ, pos, negsuc, pos_part, Bool-cases,
  inl, inr, true, false, set_beyond,
}
use aku.RingBuffer.{
  DualRingBuffer, set_colored, set_stripped, out_of_range, phys_idx, raw_get, colored_get,
  stripped_get, width_get, copy_slice, copy_int_slice, width_slice, raw_slice, colored_slice,
  stripped_slice,
}
use aku.RingBuffer.View.{length-cells, cells-set_self}
use aku.RingBuffer.Inv.{IsValid}
use aku.RingBuffer.Slice.{oldest, shown, at_or, between, reads, copies, phys-mod}
use aku.RingBuffer.Refine.{lines}

-- A write at an index of any sign; out of range it changes nothing.
abbrev pub set_at {ℓ} : {A : Type ℓ} → List A → ℤ → A → List A
set_at xs (pos i) x = set xs i x
set_at xs (negsuc i) x = xs

module _ {A : Type 0} {d : DualRingBuffer} (v : IsValid d) (arr : List A) (z x : A) where
  write_in :
      (i : ℤ)
      → out_of_range d i ≡ false
      → length arr ≡ d.capacity
      → shown d (set arr (phys_idx d (pos_part i)) x) z ≡ set_at (shown d arr z) i x
  write_in (negsuc i) e full = absurd (ground arith)
  write_in (pos i) e full =
      ap (λ k. shown d (set arr k x) z) (phys-mod d arr z i v.count_in)
      ∙ cells-set_self arr d.capacity z x (oldest d) d.count i (ground arith) v.count_in full

  write_out : (i : ℤ) → out_of_range d i ≡ true → shown d arr z ≡ set_at (shown d arr z) i x
  write_out (negsuc i) e = refl
  write_out (pos i) e = sym (
      set_beyond (shown d arr z) i x
        (ground (arith, length-cells arr d.capacity z (oldest d) d.count)))

-- `SetColored` and `SetStripped` overwrite one line, or nothing out of range; all else stays.
pub setters_refine :
    (i : ℤ) (s : String) (w : ℤ) {d : DualRingBuffer}
    → IsValid d
    → (lines (set_colored d i s w) ≡ record (lines d) {
      colored = set_at (lines d).colored i s;
      widths = set_at (lines d).widths i w;
    })
      × (lines (set_stripped d i s) ≡ record (lines d) { stripped = set_at (lines d).stripped i s })
unfolding set_colored set_stripped
setters_refine i s w {d} v = elim (Bool-cases (out_of_range d i)) [
  | inl out ↦ rw out (
    λ k. record (lines d) {
      colored = write_out v d.colored "" s i out k;
      widths = write_out v d.widths (pos 0) w i out k;
    },
    λ k. record (lines d) { stripped = write_out v d.stripped "" s i out k },
  )
  | inr within ↦ rw within (
    λ k. record (lines d) {
      colored = write_in v d.colored "" s i within v.colored_full k;
      widths = write_in v d.widths (pos 0) w i within v.widths_full k;
    },
    λ k. record (lines d) { stripped = write_in v d.stripped "" s i within v.stripped_full k },
  )
]

-- Every reader returns the shown line or lines: the zero value for an index out of range, and for
-- a slice the part of the range that is there.
pub readers_lem :
    (start end : ℤ) {d : DualRingBuffer}
    → IsValid d
    → (raw_get d start ≡ at_or (lines d).raw start "")
      × (colored_get d start ≡ at_or (lines d).colored start "")
      × (stripped_get d start ≡ at_or (lines d).stripped start "")
      × (width_get d start ≡ at_or (lines d).widths start (pos 0))
      × (raw_slice d start end ≡ between (lines d).raw start end)
      × (colored_slice d start end ≡ between (lines d).colored start end)
      × (stripped_slice d start end ≡ between (lines d).stripped start end)
      × (width_slice d start end ≡ between (lines d).widths start end)
unfolding raw_get colored_get stripped_get width_get raw_slice colored_slice stripped_slice
    width_slice copy_slice copy_int_slice
readers_lem start end {d} v = (
  reads d d.raw "" start v.count_in,
  reads d d.colored "" start v.count_in,
  reads d d.stripped "" start v.count_in,
  reads d d.widths (pos 0) start v.count_in,
  copies d d.raw "" v v.raw_full start end,
  copies d d.colored "" v v.colored_full start end,
  copies d d.stripped "" v v.stripped_full start end,
  copies d d.widths (pos 0) v v.widths_full start end,
)

-- ===== src/RingBuffer/Slice.antt =====
-- What the readers of the ring buffer return: the lines in logical order, oldest first.
use native.Mathlib.Nat.{mod-lt, mod-mod}
use native.Mathlib.Decide.{dec_lt}
use aku.Base.{
  ℕ, ◌+◌, ◌-◌, ◌%◌, ◌≤◌, ◌≡◌, ap, sym, ◌∙◌, List, arith, min, length, get_or, take, drop,
  get_or_beyond, ℤ, pos, negsuc, pos_part, leb_ℤ, ltb_ℤ, if◌then◌else◌, Bool-cases, inl, inr,
}
use aku.RingBuffer.{DualRingBuffer, phys_idx, out_of_range, copy_range, bulk_copy}
use aku.RingBuffer.View.{
  cells, cells_congr, length-cells, get_or-cells, cells_slice, bulk_copy-cells,
}
use aku.RingBuffer.Inv.{IsValid}

-- The position of the oldest line.
abbrev pub oldest : DualRingBuffer → ℕ
oldest d = d.head + d.capacity - d.count

-- The lines that an array of the buffer holds, oldest first.
abbrev pub shown {ℓ} : {A : Type ℓ} → DualRingBuffer → List A → A → List A
shown d arr z = cells arr d.capacity z (oldest d) d.count

-- The element at an index of any sign, and a default out of range.
abbrev pub at_or {ℓ} : {A : Type ℓ} → List A → ℤ → A → A
at_or xs (pos i) z = get_or xs i z
at_or xs (negsuc i) z = z

-- The elements from index `start` up to `end`, as many of them as there are.
abbrev pub between {ℓ} : {A : Type ℓ} → List A → ℤ → ℤ → List A
between xs start end = take (pos_part end - pos_part start) (drop (pos_part start) xs)

module _ {ℓ} {A : Type ℓ} (d : DualRingBuffer) (arr : List A) (z : A) where
  -- The index of a logical position is that of the oldest line, moved on.
  pub phys-mod : (i : ℕ) → d.count ≤ d.capacity → phys_idx d i ≡ (oldest d + i) % d.capacity
  phys-mod i h = ap (λ r. r % d.capacity) (omega arith)

  pub reads :
      (i : ℤ)
      → d.count ≤ d.capacity
      → (if out_of_range d i then z else get_or arr (phys_idx d (pos_part i)) z)
        ≡ at_or (shown d arr z) i z
  reads (negsuc i) h = ground arith
  reads (pos i) h = elim (dec_lt i d.count) [
    | yes within ↦ ground (
      arith,
      get_or-cells arr d.capacity z (oldest d) d.count i within,
      ap (λ r. get_or arr r z) (phys-mod i h),
    )
    | no beyond ↦
        ground (
          arith,
          get_or_beyond (shown d arr z) i z,
          length-cells arr d.capacity z (oldest d) d.count,
        )
  ]

  module _ (v : IsValid d) (full : length arr ≡ d.capacity) where
    -- A bulk copy of lines that are there.
    copied :
        (lo n : ℕ)
        → n ≤ d.capacity
        → bulk_copy d.capacity arr (phys_idx d lo) n ≡ cells arr d.capacity z (oldest d + lo) n
    copied lo n h =
        bulk_copy-cells arr d.capacity z full (phys_idx d lo) n (mod-lt _ v.room) h
        ∙ cells_congr arr d.capacity z (phys_idx d lo) (oldest d + lo) n
            (mod-mod _ d.capacity ∙ phys-mod lo v.count_in)

    pub copies : (start end : ℤ) → copy_range d arr start end ≡ between (shown d arr z) start end
    copies start end = elim (Bool-cases (leb_ℤ hi (pos lo))) [
      | inl empty ↦
          rw empty (ap (cells arr d.capacity z (oldest d + lo)) {x = 0} (ground arith) ∙ sym sliced)
      | inr some_lines ↦ rw some_lines (
          copied lo (pos_part hi - lo) (ground arith)
          ∙ ap (cells arr d.capacity z (oldest d + lo)) {x = pos_part hi - lo} (ground arith)
          ∙ sym sliced)
    ]
      where
        lo : ℕ
        lo = pos_part start

        hi : ℤ
        hi = if ltb_ℤ (pos d.count) end then pos d.count else end

        sliced :
            between (shown d arr z) start end
            ≡ cells arr d.capacity z (oldest d + lo) (min (pos_part end - lo) (d.count - lo))
        sliced = cells_slice arr d.capacity z (oldest d) d.count lo (pos_part end - lo)

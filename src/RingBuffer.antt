-- ===== src/RingBuffer.antt =====
-- internal/ui/ringbuffer.go: the circular store of the log view, four parallel arrays of one
-- capacity. Methods return the new buffer; an index or bound is Go's `int`, so it may be negative.
-- The counters are unbounded numbers: `dropped` would need 2 ^ 63 evictions to wrap.
pub mod View
pub mod Inv
pub mod Slice
pub mod Refine
pub mod Update
pub mod Run
mod Tests
use aku.Base.{
  ℕ, suc, ◌+◌, ◌-◌, ◌%◌, String, Bool, ◌||◌, List, [], ◌∷◌, ◌++◌, ltb, leb, ◌==◌, if◌then◌else◌,
  get_or, set, take, drop, replicate, ℤ, pos, negsuc, pos_part, ltb_ℤ, leb_ℤ,
}

-- `DualRingBuffer`.
pub record DualRingBuffer : Type 0 where
  pub raw : List String
  pub colored : List String
  pub stripped : List String
  pub widths : List ℤ
  pub head : ℕ
  pub count : ℕ
  pub capacity : ℕ
  pub dropped : ℕ

-- A capacity below 1 is taken as 1.
abbrev pub clamp_capacity : ℤ → ℕ
clamp_capacity capacity = if ltb_ℤ capacity (pos 1) then 1 else pos_part capacity

-- `make([]T, n)` fills with the zero value.
unfoldable pub new : ℤ → DualRingBuffer
new capacity =
    let n = clamp_capacity capacity in
    record {
      raw = replicate n "";
      colored = replicate n "";
      stripped = replicate n "";
      widths = replicate n (pos 0);
      head = 0;
      count = 0;
      capacity = n;
      dropped = 0;
    }

unfoldable pub append : DualRingBuffer → String → String → String → ℤ → DualRingBuffer
append d raw colored stripped raw_width = record {
  raw = set d.raw d.head raw;
  colored = set d.colored d.head colored;
  stripped = set d.stripped d.head stripped;
  widths = set d.widths d.head raw_width;
  head = (d.head + 1) % d.capacity;
  count = if ltb d.count d.capacity then d.count + 1 else d.count;
  capacity = d.capacity;
  dropped = if d.count == d.capacity then d.dropped + 1 else d.dropped;
}

-- `physIdx`: (head - count + capacity + i) % capacity, with the subtraction last.
abbrev pub phys_idx : DualRingBuffer → ℕ → ℕ
phys_idx d i = (d.head + d.capacity + i - d.count) % d.capacity

-- The guard `i < 0 || i >= d.count` of the accessors.
abbrev pub out_of_range : DualRingBuffer → ℤ → Bool
out_of_range d i = ltb_ℤ i (pos 0) || leb_ℤ (pos d.count) i

unfoldable pub raw_get : DualRingBuffer → ℤ → String
raw_get d i = if out_of_range d i then "" else get_or d.raw (phys_idx d (pos_part i)) ""

pub colored_get : DualRingBuffer → ℤ → String
colored_get d i = if out_of_range d i then "" else get_or d.colored (phys_idx d (pos_part i)) ""

pub stripped_get : DualRingBuffer → ℤ → String
stripped_get d i = if out_of_range d i then "" else get_or d.stripped (phys_idx d (pos_part i)) ""

unfoldable pub width_get : DualRingBuffer → ℤ → ℤ
width_get d i =
    if out_of_range d i then pos 0 else get_or d.widths (phys_idx d (pos_part i)) (pos 0)

pub set_colored : DualRingBuffer → ℤ → String → ℤ → DualRingBuffer
set_colored d i s width = if out_of_range d i then d else record d {
  colored = set d.colored (phys_idx d (pos_part i)) s;
  widths = set d.widths (phys_idx d (pos_part i)) width;
}

pub set_stripped : DualRingBuffer → ℤ → String → DualRingBuffer
set_stripped d i s =
    if out_of_range d i
    then d
    else record d { stripped = set d.stripped (phys_idx d (pos_part i)) s }

-- The two bulk copies of `n` cells from the physical index `p` on.
abbrev pub bulk_copy {ℓ} : {A : Type ℓ} → ℕ → List A → ℕ → ℕ → List A
bulk_copy capacity arr p n =
    if leb (p + n) capacity
    then take n (drop p arr)
    else drop p arr ++ take (n - (capacity - p)) arr

-- `copySlice` and `copyIntSlice`, which differ in the element type alone: the bounds are clamped
-- to [0, count), and an empty range gives nil.
abbrev pub copy_range {ℓ} : {A : Type ℓ} → DualRingBuffer → List A → ℤ → ℤ → List A
copy_range d arr start end =
    let lo = pos_part start in
    let hi : ℤ = if ltb_ℤ (pos d.count) end then pos d.count else end in
    if leb_ℤ hi (pos lo) then [] else bulk_copy d.capacity arr (phys_idx d lo) (pos_part hi - lo)

pub copy_slice : DualRingBuffer → List String → ℤ → ℤ → List String
copy_slice = copy_range

pub copy_int_slice : DualRingBuffer → List ℤ → ℤ → ℤ → List ℤ
copy_int_slice = copy_range

pub width_slice : DualRingBuffer → ℤ → ℤ → List ℤ
width_slice d start end = copy_int_slice d d.widths start end

pub raw_all : DualRingBuffer → List String
raw_all d = copy_slice d d.raw (pos 0) (pos d.count)

pub colored_all : DualRingBuffer → List String
colored_all d = copy_slice d d.colored (pos 0) (pos d.count)

pub raw_slice : DualRingBuffer → ℤ → ℤ → List String
raw_slice d start end = copy_slice d d.raw start end

pub colored_slice : DualRingBuffer → ℤ → ℤ → List String
colored_slice d start end = copy_slice d d.colored start end

pub stripped_slice : DualRingBuffer → ℤ → ℤ → List String
stripped_slice d start end = copy_slice d d.stripped start end

-- `clear` on a slice writes the zero value to every cell.
abbrev pub clear {ℓ} : {A : Type ℓ} → List A → A → List A
clear [] z = []
clear (_ ∷ xs) z = z ∷ clear xs z

unfoldable pub reset : DualRingBuffer → DualRingBuffer
reset d = record d {
  raw = clear d.raw "";
  colored = clear d.colored "";
  stripped = clear d.stripped "";
  widths = clear d.widths (pos 0);
  head = 0;
  count = 0;
  dropped = 0;
}

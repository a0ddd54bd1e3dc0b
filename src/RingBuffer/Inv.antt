-- ===== src/RingBuffer/Inv.antt =====
-- The representation invariant of the ring buffer, and that every method keeps it.
use native.Mathlib.Nat.{mod-lt}
use aku.Base.{
  ◌+◌, suc, ◌≤◌, ◌<◌, ◌≡◌, refl, ap, List, [], ◌∷◌, String, arith, length, length-set,
  length-replicate, ℤ, pos_part, Bool-cases, inl, inr,
}
use aku.RingBuffer.{
  DualRingBuffer, new, append, set_colored, set_stripped, reset, clamp_capacity, clear,
  out_of_range, phys_idx,
}

-- Four arrays of `capacity` cells, at least one; the write position is inside.
pub record IsValid (d : DualRingBuffer) : Type 0 where
  pub room : 0 < d.capacity
  pub raw_full : length d.raw ≡ d.capacity
  pub colored_full : length d.colored ≡ d.capacity
  pub stripped_full : length d.stripped ≡ d.capacity
  pub widths_full : length d.widths ≡ d.capacity
  pub head_in : d.head < d.capacity
  pub count_in : d.count ≤ d.capacity

length-clear {ℓ} : {A : Type ℓ} (xs : List A) (z : A) → length (clear xs z) ≡ length xs
length-clear [] z = refl
length-clear (x ∷ xs) z = ap suc (length-clear xs z)

clamp_pos : (n : ℤ) → 0 < clamp_capacity n
clamp_pos n = ground arith

pub new-IsValid : (capacity : ℤ) → IsValid (new capacity)
unfolding new
new-IsValid capacity = record {
  room = clamp_pos capacity;
  raw_full = length-replicate _ _;
  colored_full = length-replicate _ _;
  stripped_full = length-replicate _ _;
  widths_full = length-replicate _ _;
  head_in = clamp_pos capacity;
  count_in = omega arith;
}

pub append-IsValid :
    (r c s : String) (w : ℤ) {d : DualRingBuffer} → IsValid d → IsValid (append d r c s w)
unfolding append
append-IsValid r c s w {d} v = record {
  room = v.room;
  raw_full = omega (arith, length-set d.raw d.head r);
  colored_full = omega (arith, length-set d.colored d.head c);
  stripped_full = omega (arith, length-set d.stripped d.head s);
  widths_full = omega (arith, length-set d.widths d.head w);
  head_in = mod-lt (d.head + 1) v.room;
  count_in = ground arith;
}

pub set_colored-IsValid :
    (i : ℤ) (s : String) (w : ℤ) {d : DualRingBuffer} → IsValid d → IsValid (set_colored d i s w)
unfolding set_colored
set_colored-IsValid i s w {d} v = elim (Bool-cases (out_of_range d i)) [
  | inl out ↦ rw out v
  | inr within ↦ rw within (record {
    room = v.room;
    raw_full = v.raw_full;
    colored_full = omega (arith, length-set d.colored (phys_idx d (pos_part i)) s);
    stripped_full = v.stripped_full;
    widths_full = omega (arith, length-set d.widths (phys_idx d (pos_part i)) w);
    head_in = v.head_in;
    count_in = v.count_in;
  })
]

pub set_stripped-IsValid :
    (i : ℤ) (s : String) {d : DualRingBuffer} → IsValid d → IsValid (set_stripped d i s)
unfolding set_stripped
set_stripped-IsValid i s {d} v = elim (Bool-cases (out_of_range d i)) [
  | inl out ↦ rw out v
  | inr within ↦ rw within (record {
    room = v.room;
    raw_full = v.raw_full;
    colored_full = v.colored_full;
    stripped_full = omega (arith, length-set d.stripped (phys_idx d (pos_part i)) s);
    widths_full = v.widths_full;
    head_in = v.head_in;
    count_in = v.count_in;
  })
]

pub reset-IsValid : {d : DualRingBuffer} → IsValid d → IsValid (reset d)
unfolding reset
reset-IsValid {d} v = record {
  room = v.room;
  raw_full = omega (arith, length-clear d.raw "");
  colored_full = omega (arith, length-clear d.colored "");
  stripped_full = omega (arith, length-clear d.stripped "");
  widths_full = omega (arith, length-clear {0} d.widths _);
  head_in = v.room;
  count_in = omega arith;
}

-- The buffers that come of a new one by calls.
pub data Used : DualRingBuffer → Type 0 where
  made : (capacity : ℤ) → Used (new capacity)
  appended : (r c s : String) (w : ℤ) {d : DualRingBuffer} → Used d → Used (append d r c s w)
  colored_again :
      (i : ℤ) (s : String) (w : ℤ) {d : DualRingBuffer} → Used d → Used (set_colored d i s w)
  stripped_again : (i : ℤ) (s : String) {d : DualRingBuffer} → Used d → Used (set_stripped d i s)
  emptied : {d : DualRingBuffer} → Used d → Used (reset d)

-- Every buffer that calls can reach has at least one cell, four arrays of `capacity` cells, the
-- write position inside them and at most `capacity` lines.
pub Used-IsValid : {d : DualRingBuffer} → Used d → IsValid d
Used-IsValid (made capacity) = new-IsValid capacity
Used-IsValid (appended r c s w u) = append-IsValid r c s w (Used-IsValid u)
Used-IsValid (colored_again i s w u) = set_colored-IsValid i s w (Used-IsValid u)
Used-IsValid (stripped_again i s u) = set_stripped-IsValid i s (Used-IsValid u)
Used-IsValid (emptied u) = reset-IsValid (Used-IsValid u)

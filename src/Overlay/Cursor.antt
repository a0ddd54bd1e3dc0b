-- ===== src/Overlay/Cursor.antt =====
-- The cursor and the window behind a move.
use aku.Base.{
  ℕ, ◌+◌, ◌-◌, ◌==◌, ◌≤◌, ◌<◌, ◌≡◌, refl, false, leb, min, length, if◌then◌else◌, Bool-cases, inl,
  inr, ℤ, pos_part, arith,
}
use aku.WordMotion.{Unicode}
use aku.Overlay.{Overlay, TextInput, Measure, effective_max_visible, scroll_to, clamp_cursor}

module _ {I R M : Type 0} (ti : TextInput I R M) (me : Measure) (u : Unicode R) where
  pub scroll_to-window :
      (mv offset at : ℕ)
      → 1 ≤ mv
      → (scroll_to ti me u mv offset at ≤ at) × (at < scroll_to ti me u mv offset at + mv)
  scroll_to-window mv offset at h = (ground arith, ground arith)

  scroll_to-still :
      (mv offset at : ℕ) → offset ≤ at → at < offset + mv → scroll_to ti me u mv offset at ≡ offset
  scroll_to-still mv offset at h k = ground arith

  nearest : (n c : ℕ) → 1 ≤ n → (if leb n c then n - 1 else c) ≡ min c (n - 1)
  nearest n c h = ground arith

  pub effective_max_visible-pos : (o : Overlay I) → 1 ≤ effective_max_visible ti me u o
  effective_max_visible-pos o = ground arith

  -- Where there are items, the cursor is set to the item that is nearest to the one asked for, and it
  -- is in the window, which moves only if it has to.
  pub clamp_cursor_lem :
      (c : ℤ) (o : Overlay I)
      → 1 ≤ length o.items
      → let p = clamp_cursor ti me u c o in
        let mv = effective_max_visible ti me u o in
        (p.cursor ≡ min (pos_part c) (length o.items - 1))
        × (p.offset ≤ p.cursor)
        × (p.cursor < p.offset + mv)
        × ((o.offset ≤ p.cursor) → (p.cursor < o.offset + mv) → p.offset ≡ o.offset)
  unfolding clamp_cursor
  clamp_cursor_lem c o h =
      let n = length o.items in
      let mv = effective_max_visible ti me u o in
      let at = (if leb n (pos_part c) then n - 1 else pos_part c) in
      let some_items : (n == 0) ≡ false = ground arith in
      let (from, to) = scroll_to-window mv o.offset at (effective_max_visible-pos o) in
      rw some_items (nearest n (pos_part c) h, from, to, scroll_to-still mv o.offset at)

  -- Only the cursor and the offset change.
  pub clamp_cursor-rest :
      (c : ℤ) (o : Overlay I)
      → ((clamp_cursor ti me u c o).items ≡ o.items)
        × ((clamp_cursor ti me u c o).inputs ≡ o.inputs)
        × ((clamp_cursor ti me u c o).focus_idx ≡ o.focus_idx)
  unfolding clamp_cursor
  clamp_cursor-rest c o = elim (Bool-cases (length o.items == 0)) [
    | inl e ↦ rw e (refl, refl, refl)
    | inr e ↦ rw e (refl, refl, refl)
  ]

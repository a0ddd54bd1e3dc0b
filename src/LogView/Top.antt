-- ===== src/LogView/Top.antt =====
-- The top row under soft wrap: the walk over the heights finds the line that the offset falls in.
use aku.Base.{
  length-map, ℕ, suc, ◌+◌, ◌-◌, ◌≤◌, ◌<◌, ◌≡◌, refl, sym, ◌∙◌, String, Bool, true, false, List, [],
  ◌∷◌, map, arith, length, take, get_or, ltb, ltb_ℤ, leb_ℤ, if◌then◌else◌, ℤ, pos, pos_part,
  Bool-cases, inl, inr, if-cases, subst,
}
use aku.Search.{Compiled}
use aku.LogView.State.{LogView, Text, positive, viewport_height, wrap_height, max_offset, clamp_to}
use aku.LogView.Window.{first_visible, row_heights, line_widths, update_viewport_wrapped}
use aku.LogView.Content.{sum, wrapped_rows}
use aku.LogView.Visible.{clamp_to_lem, most_lem}
use aku.LogView.Reach.{Reach, Reach-IsSound}

-- The offset `y` falls in the item `r.0` of the heights, `r.1` rows below its top, where the heights
-- begin with the item `di` at the row `row`.
abbrev FallsIn : List ℕ → ℕ → ℕ → ℕ → ℕ × ℕ → Type 0
FallsIn hs y di row r =
    (di ≤ r.0) × (row + sum (take (r.0 - di) hs) + r.1 ≡ y) × (r.1 < get_or hs (r.0 - di) 0)

from_top :
    (hs : List ℕ) (y : ℕ) (r : ℕ × ℕ)
    → FallsIn hs y 0 0 r
    → (sum (take r.0 hs) + r.1 ≡ y) × (r.1 < get_or hs r.0 0)
from_top hs y r f =
    let e : r.0 - 0 ≡ r.0 = omega arith in
    let g : (0 + sum (take r.0 hs) + r.1 ≡ y) × (r.1 < get_or hs r.0 0) =
      subst (λ k. (0 + sum (take k hs) + r.1 ≡ y) × (r.1 < get_or hs k 0)) e (f.1, f.2) in
    (omega (arith, g.0), g.1)

here :
    (h : ℕ) (hs : List ℕ) (y di row : ℕ)
    → row ≤ y
    → y < row + h
    → FallsIn (h ∷ hs) y di row (di, y - row)
here h hs y di row lo hi =
    let e : di - di ≡ 0 = omega arith in rw e (omega arith, omega arith, omega arith)

there :
    (h : ℕ) (hs : List ℕ) (y di row : ℕ) (r : ℕ × ℕ)
    → FallsIn hs y (di + 1) (row + h) r
    → FallsIn (h ∷ hs) y di row r
there h hs y di row r f =
    let e : r.0 - di ≡ suc (r.0 - (di + 1)) = omega (arith, f.0) in
    rw e (omega (arith, f.0), omega (arith, f.1), f.2)

first_visible-FallsIn :
    (hs : List ℕ) (y di row : ℕ)
    → row ≤ y
    → y < row + sum hs
    → FallsIn hs y di row (first_visible hs y di row)
unfolding first_visible
first_visible-FallsIn [] y di row lo hi = absurd (omega arith)
first_visible-FallsIn (h ∷ []) y di row lo hi =
    let e : ltb y (row + h) ≡ true = ground arith in rw e (here h [] y di row lo (omega arith))
first_visible-FallsIn (h ∷ k ∷ hs) y di row lo hi =
    if-cases (FallsIn (h ∷ k ∷ hs) y di row) (ltb y (row + h)) _ _
      (λ inside. here h (k ∷ hs) y di row lo (ground arith))
      (λ below.
        there h (k ∷ hs) y di row _
          (first_visible-FallsIn (k ∷ hs) y (di + 1) (row + h) (ground arith) (ground arith)))

height_pos : (h : ℤ) → ltb_ℤ (pos 0) h ≡ true → 0 < pos_part h
height_pos h p = ground arith

one_at_least : (b : Bool) (n : ℕ) → 0 < (if b then 1 else 1 + n)
one_at_least true n = omega arith
one_at_least false n = omega arith

wrap_height_pos : (w vp : ℤ) → 0 < wrap_height w vp
unfolding wrap_height
wrap_height_pos w vp = one_at_least (leb_ℤ w (pos (positive vp))) _

sum_pos : (vp : ℤ) (ws : List ℤ) → 0 < length ws → 0 < sum (map (λ w. wrap_height w vp) ws)
sum_pos vp [] h = absurd (omega arith)
sum_pos vp (w ∷ ws) h = omega (arith, wrap_height_pos w vp)

module _ {Re : Type 0} where
  sum-row_heights : (l : LogView Re) → sum (row_heights l) ≡ wrapped_rows l
  sum-row_heights l = elim (Bool-cases (ltb 0 l.buffer.dropped)) [
    | inl gone ↦ rw gone (omega arith)
    | inr whole ↦ rw whole (omega arith)
  ]

  row_heights_pos : (l : LogView Re) → 0 < length (row_heights l) → 0 < sum (row_heights l)
  row_heights_pos l h = elim (Bool-cases (ltb 0 l.buffer.dropped)) [
    | inl gone ↦ rw gone (omega arith)
    | inr whole ↦ rw whole (
        sum_pos l.log_vp.width (line_widths l) (
          omega
            (arith, rw whole at h, length-map (λ w. wrap_height w l.log_vp.width) (line_widths l))))
  ]

module _ {Re : Type 0} (t : Text Re) {Err : Type 0} (regexp : String → Compiled Re Err) where
  -- In a panel that calls can reach, which wraps lines and has some and room for one,
  -- `updateViewportWrapped` leaves an offset that is not negative and past which the rows fill the
  -- viewport, if there are enough; and the walk finds the line that the row at the offset belongs to,
  -- and how many of its rows are above.
  pub first_visible-lem :
      {l : LogView Re}
      → Reach t regexp l
      → l.soft_wrap ≡ true
      → ltb_ℤ (pos 0) (viewport_height l) ≡ true
      → 0 < length (row_heights l)
      → let after = update_viewport_wrapped l in
        let y = pos_part after.wrap_y_offset in
        let heights = row_heights after in
        let top = first_visible heights y 0 0 in
        (after.wrap_y_offset ≡ pos y)
        × (y ≤ sum heights - pos_part (viewport_height l))
        × (sum (take top.0 heights) + top.1 ≡ y)
        × (top.1 < get_or heights top.0 0)
  unfolding update_viewport_wrapped
  first_visible-lem {l} r on room some_rows =
      let most = max_offset l.total_wrapped_rows (viewport_height l) in
      let y = (if l.autoscroll then pos most else clamp_to most l.wrap_y_offset) in
      let inside : (y ≡ pos (pos_part y)) × (pos_part y ≤ most) =
        if-cases (λ x. (x ≡ pos (pos_part x)) × (pos_part x ≤ most)) l.autoscroll (pos most) _
          (λ _. (refl, omega arith)) (λ _. clamp_to_lem most l.wrap_y_offset) in
      let total : l.total_wrapped_rows ≡ sum (row_heights l) =
        (Reach-IsSound t regexp r).rows on ∙ sym (sum-row_heights l) in
      let low : pos_part y ≤ sum (row_heights l) - pos_part (viewport_height l) =
        omega (arith, inside.1, total, most_lem l.total_wrapped_rows (viewport_height l) room) in
      let f : FallsIn (row_heights l) (pos_part y) 0 0
          (first_visible (row_heights l) (pos_part y) 0 0) =
        first_visible-FallsIn (row_heights l) (pos_part y) 0 0 (omega arith)
          (omega (arith, low, row_heights_pos l some_rows, height_pos (viewport_height l) room)) in
      let g = from_top (row_heights l) (pos_part y) _ f in (inside.0, low, g.0, g.1)

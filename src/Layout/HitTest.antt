-- ===== src/Layout/HitTest.antt =====
-- `PaneAt` against the geometry: the cached rectangles tile the area above the status bar, and the
-- pane under a cell of it is found.
use aku.Base.{
  ℕ, ◌<◌, ◌≡◌, refl, ap, ◌∙◌, inl, inr, Bool, true, false, ◌&&◌, ◌||◌, List, [], ◌∷◌, Option, none,
  some, arith, ltb, ◌==◌, Bool-cases, if-cases, ℤ, pos, negsuc, ltb_ℤ, leb_ℤ,
}
use aku.Layout.State.{Layout, PaneRect, split_count, effective_zoom, detail_pane_kind}
use aku.Layout.Geometry.{Frame, frame, rects, rects_in, contains, first_containing, pane_at}
use aku.Layout.Tiling.{count_at, bit, zoom_tile}
use aku.Layout.Reach.{Reach, Reach-WellFormed}

-- The cell is above the status bar and inside the screen.
abbrev pub inside : Layout → ℤ → ℤ → Bool
inside l x y = (leb_ℤ (pos 0) x && ltb_ℤ x l.width) && (leb_ℤ (pos 0) y && ltb_ℤ y l.height)

abbrev pub is_some : Option PaneRect → Bool
is_some none = false
is_some (some _) = true

abbrev pub hits : ℤ → ℤ → Option PaneRect → Bool
hits x y none = false
hits x y (some r) = contains x y r

positive : (z : ℤ) → leb_ℤ z (pos 0) ≡ false → (n : ℕ) × (z ≡ pos n)
positive (pos n) e = (n, refl)
positive (negsuc n) e = absurd (ground arith)

rects-tile_pos :
    (l : Layout) (w h x y : ℕ)
    → l.width ≡ pos w
    → l.height ≡ pos h
    → 0 < split_count l
    → count_at
        (pos x)
        (pos y)
        (rects_in (effective_zoom l) l.focus_idx (detail_pane_kind l) (frame l) (split_count l))
      ≡ bit (ltb x w && ltb y h)
rects-tile_pos l w h x y hw hh n =
    ap
      (λ (f : Frame).
        count_at (pos x) (pos y)
          (rects_in (effective_zoom l) l.focus_idx (detail_pane_kind l) f (split_count l)))
      (λ i. record {
        right_visible = l.right_visible;
        orientation = l.orientation;
        width = hw i;
        height = hh i;
      })
    ∙ zoom_tile w h x y (detail_pane_kind l) (split_count l) n (effective_zoom l) l.right_visible
        l.orientation l.focus_idx

-- No rectangle holds a cell with a negative coordinate.
count_at-neg_x : (x : ℕ) (y : ℤ) (rs : List PaneRect) → count_at (negsuc x) y rs ≡ 0
count_at-neg_x x y [] = refl
count_at-neg_x x y (r ∷ rs) = ground (arith, count_at-neg_x x y rs)

count_at-neg_y : (x y : ℕ) (rs : List PaneRect) → count_at (pos x) (negsuc y) rs ≡ 0
count_at-neg_y x y [] = refl
count_at-neg_y x y (r ∷ rs) = ground (arith, count_at-neg_y x y rs)

rects-tile :
    (l : Layout) (x y : ℤ)
    → 0 < split_count l
    → count_at x y (rects l (split_count l)) ≡ bit (inside l x y)
unfolding rects
rects-tile l (negsuc x) y n = count_at-neg_x x y _ ∙ ground arith
rects-tile l (pos x) (negsuc y) n = count_at-neg_y x y _ ∙ ground arith
rects-tile l (pos x) (pos y) n =
    if-cases (λ rs. count_at (pos x) (pos y) rs ≡ bit (inside l (pos x) (pos y)))
      (split_count l == 0 || leb_ℤ l.width (pos 0) || leb_ℤ l.height (pos 0)) _ _
      (λ empty. ground arith)
      (λ area.
        let (w, hw) = positive l.width (ground arith) in
        let (h, hh) = positive l.height (ground arith) in
        rects-tile_pos l w h x y hw hh n ∙ ground arith)

first-count :
    (x y : ℤ) (rs : List PaneRect) (b : Bool)
    → count_at x y rs ≡ bit b
    → (is_some (first_containing x y rs) ≡ b) × (hits x y (first_containing x y rs) ≡ b)
first-count x y [] true e = absurd (omega arith)
first-count x y [] false e = (refl, refl)
first-count x y (r ∷ rs) b e = elim (Bool-cases (contains x y r)) [
  | inl here ↦ let found : b ≡ true = ground arith in rw (here, found) (refl, here)
  | inr not_here ↦ rw not_here (first-count x y rs b (ground arith))
]

-- In every reachable layout with a split each cell above the status bar lies in exactly one of the
-- cached rectangles and any other cell in none; `PaneAt` finds a rectangle for exactly those cells,
-- and it holds the cell.
pub pane_at-tiles :
    {l : Layout} (x y : ℤ)
    → Reach l
    → 0 < split_count l
    → (count_at x y l.pane_rects ≡ bit (inside l x y))
      × (is_some (pane_at l x y) ≡ inside l x y)
      × (hits x y (pane_at l x y) ≡ inside l x y)
unfolding pane_at
pane_at-tiles {l} x y r n =
    let cache = (Reach-WellFormed r).sized.cache in
    let once = ap (count_at x y) cache ∙ rects-tile l x y n in
    let found = first-count x y l.pane_rects (inside l x y) once in (once, found.0, found.1)

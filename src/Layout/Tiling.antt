-- ===== src/Layout/Tiling.antt =====
-- The rectangles of the panes tile the area above the status bar, and `PaneAt` finds the one pane
-- of each of its cells.
use native.Mathlib.Nat.{div-mul-le_self}
use aku.Base.{
  ℕ, zero, suc, ◌+◌, ◌-◌, ◌*◌, ◌/◌, ◌≤◌, ◌<◌, ◌≡◌, refl, sym, ap, ◌∙◌, Bool, true, false, ◌&&◌,
  List, [], ◌∷◌, ◌++◌, arith, ltb, leb, ◌==◌, if◌then◌else◌, tabulate, ==_iff, ℤ, pos, pos_part,
  ◌-ℤ◌, ◌/ℤ◌,
}
use aku.Layout.State.{
  PaneRect, PaneKind, Orientation, ZoomMode, zoom_none, zoom_split, zoom_detail, vertical,
  horizontal,
}
use aku.Layout.Geometry.{Frame, parts, rects_in, contains, row_rect, column_rect, panel_rect}

-- How many rectangles hold the cell.
abbrev pub count_at : ℤ → ℤ → List PaneRect → ℕ
count_at x y [] = 0
count_at x y (r ∷ rs) = (if contains x y r then 1 else 0) + count_at x y rs

count_at-append :
    (x y : ℤ) (rs ss : List PaneRect) → count_at x y (rs ++ ss) ≡ count_at x y rs + count_at x y ss
count_at-append x y [] ss = omega arith
count_at-append x y (r ∷ rs) ss = omega (arith, count_at-append x y rs ss)

abbrev pub bit : Bool → ℕ
bit b = if b then 1 else 0

-- `n` cells from `a` on.
abbrev spans : ℕ → ℕ → ℕ → Bool
spans a n x = leb a x && ltb x (a + n)

contains-spans :
    (x y : ℕ) (r : PaneRect) → contains (pos x) (pos y) r ≡ (spans r.x r.w x && spans r.y r.h y)
contains-spans x y r = ground arith

-- Two adjacent strips are one, in the direction across `p`.
stack :
    (p : Bool) (y t s b : ℕ)
    → t + s ≤ b
    → bit (p && spans t s y) + bit (p && (leb (t + s) y && ltb y b))
      ≡ bit (p && (leb t y && ltb y b))
stack p y t s b h = ground arith

-- A strip that ends at `b`.
ends :
    (p : Bool) (y t b : ℕ) → t ≤ b → bit (p && spans t (b - t) y) ≡ bit (p && (leb t y && ltb y b))
ends p y t b h = ground arith

module _ (size n : ℕ) where
  -- The extent of strip `i` of `n`.
  abbrev extent : ℕ → ℕ
  extent i = if i == n - 1 then size - size / n * (n - 1) else size / n

  extent_last : (i : ℕ) → i + 1 ≡ n → extent i ≡ size - size / n * i
  extent_last i e =
      let last : i ≡ n - 1 = omega arith in
      rw ((==_iff i (n - 1)).1 last) (ap (λ j. size - size / n * j) (sym last))

  extent_inner : (i k : ℕ) → i + suc (suc k) ≡ n → extent i ≡ size / n
  extent_inner i k e = ground arith

  strips_fit : (i k : ℕ) → i + k ≡ n → size / n * i + size / n * k ≤ size
  strips_fit i k e =
      let all : size / n * (i + k) ≡ size / n * n = ap (λ j. size / n * j) e in
      omega (arith, all, div-mul-le_self size n)

  -- Strips from the one at `i` on hold the cells from its start to the end, each once.
  strips :
      (f : ℕ → PaneRect) (x y : ℤ) (p : Bool) (c : ℕ)
      → ((i : ℕ) → contains x y (f i) ≡ (p && spans (size / n * i) (extent i) c))
      → (i k : ℕ) → i + suc k ≡ n
      → count_at x y (tabulate f i (suc k)) ≡ bit (p && (leb (size / n * i) c && ltb c size))
  strips f x y p c at i zero e =
      rw (at i, extent_last i e)
        (omega (arith, ends p c (size / n * i) size (omega (arith, strips_fit i 1 e))))
  strips f x y p c at i (suc k) e =
      let next : size / n * suc i ≡ size / n * i + size / n = omega arith in
      rw (at i, extent_inner i k e)
        (omega (
          arith,
          strips f x y p c at (suc i) k (omega arith),
          ap (λ t. bit (p && (leb t c && ltb c size))) next,
          stack p c (size / n * i) (size / n) size (omega (arith, strips_fit i (suc (suc k)) e)),
        ))

starts : (w x : ℕ) → spans 0 w x ≡ ltb x w
starts w x = ground arith

cross : (b : Bool) {c d : Bool} → c ≡ d → (b && c) ≡ (d && b)
cross b e = ground (arith, e)

-- `n` rows, or `n` columns, fill their area.
rows_tile :
    (w h n x y : ℕ)
    → 0 < n
    → count_at (pos x) (pos y) (tabulate (row_rect w h n) 0 n) ≡ bit (ltb x w && ltb y h)
rows_tile w h zero x y e = absurd (omega arith)
rows_tile w h (suc n) x y e =
    strips h (suc n) (row_rect w h (suc n)) (pos x) (pos y) (ltb x w) y
      (λ i.
        contains-spans x y (row_rect w h (suc n) i)
        ∙ ap (λ b. b && spans (h / suc n * i) (extent h (suc n) i) y) (starts w x))
      0 n (omega arith)
    ∙ ground arith

columns_tile :
    (w h n x y : ℕ)
    → 0 < n
    → count_at (pos x) (pos y) (tabulate (column_rect w h n) 0 n) ≡ bit (ltb x w && ltb y h)
columns_tile w h zero x y e = absurd (omega arith)
columns_tile w h (suc n) x y e =
    strips w (suc n) (column_rect w h (suc n)) (pos x) (pos y) (ltb y h) x
      (λ i.
        contains-spans x y (column_rect w h (suc n) i)
        ∙ cross (spans (w / suc n * i) (extent w (suc n) i) x) (starts h y))
      0 n (omega arith)
    ∙ ground arith

-- The parts of a positive length.
parts_pos :
    (shown : Bool) (n : ℕ)
    → (pos_part (parts shown (pos n)).0 ≡ (if shown then n / 2 else n))
      × (pos_part (parts shown (pos n)).1 ≡ (if shown then n - n / 2 else 0))
unfolding ◌/ℤ◌ ◌-ℤ◌
parts_pos true n = (refl, ground arith)
parts_pos false n = (refl, refl)

-- The panel beside the splits, or below them.
beside :
    (w h x y : ℕ)
    → bit (ltb x (w / 2) && ltb y h) + bit (spans (w / 2) (w - w / 2) x && spans 0 h y)
      ≡ bit (ltb x w && ltb y h)
beside w h x y = ground arith

below :
    (w h x y : ℕ)
    → bit (ltb x w && ltb y (h / 2)) + bit (spans 0 w x && spans (h / 2) (h - h / 2) y)
      ≡ bit (ltb x w && ltb y h)
below w h x y = ground arith

module _ (w h x y : ℕ) (kind : PaneKind) (n : ℕ) (e : 0 < n) where
  abbrev framed : Bool → Orientation → Frame
  framed shown o = record { right_visible = shown; orientation = o; width = pos w; height = pos h }

  panel_tile :
      (shown : Bool) (o : Orientation)
      → count_at (pos x) (pos y) (rects_in zoom_none 0 kind (framed shown o) n)
        ≡ bit (ltb x w && ltb y h)
  unfolding ◌/ℤ◌ ◌-ℤ◌
  panel_tile false vertical =
      count_at-append (pos x) (pos y) (tabulate (row_rect w h n) 0 n) []
      ∙ omega (arith, rows_tile w h n x y e)
  panel_tile false horizontal =
      count_at-append (pos x) (pos y) (tabulate (column_rect w h n) 0 n) []
      ∙ omega (arith, columns_tile w h n x y e)
  panel_tile true vertical =
      let r = panel_rect vertical kind (framed true vertical) in
      count_at-append (pos x) (pos y) (tabulate (row_rect (w / 2) h n) 0 n) (r ∷ [])
      ∙ omega (
        arith,
        rows_tile (w / 2) h n x y e,
        ap bit (contains-spans x y r),
        ap (λ k. bit (spans (w / 2) k x && spans 0 h y)) (parts_pos true w).1,
        beside w h x y,
      )
  panel_tile true horizontal =
      let r = panel_rect horizontal kind (framed true horizontal) in
      count_at-append (pos x) (pos y) (tabulate (column_rect w (h / 2) n) 0 n) (r ∷ [])
      ∙ omega (
        arith,
        columns_tile w (h / 2) n x y e,
        ap bit (contains-spans x y r),
        ap (λ k. bit (spans 0 w x && spans (h / 2) k y)) (parts_pos true h).1,
        below w h x y,
      )

  pub zoom_tile :
      (z : ZoomMode) (shown : Bool) (o : Orientation) (idx : ℕ)
      → count_at (pos x) (pos y) (rects_in z idx kind (framed shown o) n) ≡ bit (ltb x w && ltb y h)
  zoom_tile zoom_none shown o idx = panel_tile shown o
  zoom_tile zoom_split shown o idx = ground arith
  zoom_tile zoom_detail shown o idx = ground arith

-- ===== src/Layout/Geometry.antt =====
-- The geometry of the layout: `panelSizes`, `splitDimensions`, `recalcSizes`, `rebuildPaneRects`
-- and `PaneAt`. `EnsureCursorVisible`, at the end of `recalcSizes`, scrolls a table and is left out.
use aku.Base.{
  ℕ, ◌+◌, ◌-◌, ◌*◌, ◌/◌, Bool, ◌&&◌, ◌||◌, Option, none, some, List, [], ◌∷◌, ◌++◌, if◌then◌else◌,
  ◌==◌, map_index, tabulate, ℤ, pos, pos_part, ltb_ℤ, leb_ℤ, ◌+ℤ◌, ◌-ℤ◌, ◌/ℤ◌, scale,
}
use aku.Layout.Pane.{Pane, set_size}
use aku.Layout.Panel
use aku.Layout.Panel.{Panel}
use aku.Layout.State.{
  ZoomMode, zoom_none, zoom_split, zoom_detail, Orientation, vertical, horizontal, PaneKind, split,
  PaneRect, Layout, split_count, on_active, effective_zoom, detail_pane_kind,
}

abbrev pub status_bar_height : ℤ
status_bar_height = pos 1

-- `int(float64(n) * leftPanelRatio)` with the ratio 0.5: half, toward zero (exact below 2 ^ 53).
abbrev pub left_part : ℤ → ℤ
left_part n = n /ℤ 2

-- The first and second part of a length that the panel shares with the splits.
abbrev pub parts : Bool → ℤ → ℤ × ℤ
parts right_visible n = if right_visible then (left_part n, n -ℤ left_part n) else (n, pos 0)

-- The part of the state that the sizes depend on.
pub record Frame : Type 0 where
  pub right_visible : Bool
  pub orientation : Orientation
  pub width : ℤ
  pub height : ℤ

abbrev pub frame : Layout → Frame
frame l = record {
  right_visible = l.right_visible;
  orientation = l.orientation;
  width = l.width;
  height = l.height;
}

-- `panelSizes` in the given orientation.
abbrev pub panel_sizes_in : Orientation → Frame → ℤ × ℤ
panel_sizes_in horizontal f = parts f.right_visible f.height
panel_sizes_in vertical f = parts f.right_visible f.width

abbrev pub panel_sizes : Layout → ℤ × ℤ
panel_sizes l = panel_sizes_in l.orientation (frame l)

abbrev pub split_dimensions : Layout → ℕ → ℤ × ℤ
split_dimensions l total_splits =
    let n = (if total_splits == 0 then 1 else total_splits) in
    elim l.orientation [
      | horizontal ↦ (l.width /ℤ n, (panel_sizes l).0)
      | vertical ↦ ((panel_sizes l).0, l.height /ℤ n)
    ]

-- The extent of split `i` of `n` along a length: equal parts, the last one taking the rest.
abbrev pub split_extent : ℤ → ℕ → ℕ → ℤ
split_extent total n i = if i == n - 1 then total -ℤ scale (total /ℤ n) (n - 1) else total /ℤ n

-- The size that `recalcSizes` gives to split `i` of `n`.
unfoldable pub split_size : Layout → ℕ → ℕ → ℤ × ℤ
split_size l n i = elim (effective_zoom l) [
  | zoom_detail ↦ (pos 0, pos 0)
  | zoom_split ↦
      (if i == l.focus_idx then (l.width, l.height +ℤ status_bar_height) else (pos 0, pos 0))
  | zoom_none ↦ elim l.orientation [
    | horizontal ↦ (split_extent l.width n i, (panel_sizes l).0)
    | vertical ↦ ((panel_sizes l).0, split_extent l.height n i)
  ]
]

-- The size of the panel, if `recalcSizes` sets it.
unfoldable pub panel_size : Layout → Option (ℤ × ℤ)
panel_size l = elim (effective_zoom l) [
  | zoom_detail ↦ some (l.width, l.height +ℤ status_bar_height)
  | zoom_split ↦ none
  | zoom_none ↦
      if l.right_visible
      then (elim l.orientation [
        | horizontal ↦ some (l.width, (panel_sizes l).1)
        | vertical ↦ some ((panel_sizes l).1, l.height)
      ])
      else none
]

abbrev pub full_rect : Frame → PaneKind → ℕ → PaneRect
full_rect f kind idx = record {
  x = 0;
  y = 0;
  w = pos_part f.width;
  h = pos_part f.height;
  kind = kind;
  split_idx = idx;
}

-- Rectangle `i` of `n` splits side by side in a strip of the given height.
abbrev pub column_rect : ℕ → ℕ → ℕ → ℕ → PaneRect
column_rect width height n i = record {
  x = width / n * i;
  y = 0;
  w = if i == n - 1 then width - width / n * (n - 1) else width / n;
  h = height;
  kind = split;
  split_idx = i;
}

-- Rectangle `i` of `n` splits on top of each other in a strip of the given width.
abbrev pub row_rect : ℕ → ℕ → ℕ → ℕ → PaneRect
row_rect width height n i = record {
  x = 0;
  y = height / n * i;
  w = width;
  h = if i == n - 1 then height - height / n * (n - 1) else height / n;
  kind = split;
  split_idx = i;
}

-- The first and the second extent as the rectangles have them.
abbrev pub first_extent : Orientation → Frame → ℕ
first_extent o f = pos_part (panel_sizes_in o f).0

abbrev pub second_extent : Orientation → Frame → ℕ
second_extent o f = pos_part (panel_sizes_in o f).1

abbrev pub split_rects : Orientation → Frame → ℕ → List PaneRect
split_rects horizontal f n =
    tabulate (column_rect (pos_part f.width) (first_extent horizontal f) n) 0 n
split_rects vertical f n = tabulate (row_rect (first_extent vertical f) (pos_part f.height) n) 0 n

abbrev pub panel_rect : Orientation → PaneKind → Frame → PaneRect
panel_rect horizontal kind f = record {
  x = 0;
  y = first_extent horizontal f;
  w = pos_part f.width;
  h = second_extent horizontal f;
  kind = kind;
  split_idx = 0;
}
panel_rect vertical kind f = record {
  x = first_extent vertical f;
  y = 0;
  w = second_extent vertical f;
  h = pos_part f.height;
  kind = kind;
  split_idx = 0;
}

abbrev pub rects_in : ZoomMode → ℕ → PaneKind → Frame → ℕ → List PaneRect
rects_in zoom_detail focus_idx kind f n = full_rect f kind 0 ∷ []
rects_in zoom_split focus_idx kind f n = full_rect f split focus_idx ∷ []
rects_in zoom_none focus_idx kind f n =
    split_rects f.orientation f n
    ++ (if f.right_visible then panel_rect f.orientation kind f ∷ [] else [])

-- `rebuildPaneRects`: the rectangles of the current geometry, with `n` splits.
unfoldable pub rects : Layout → ℕ → List PaneRect
rects l n =
    if n == 0 || leb_ℤ l.width (pos 0) || leb_ℤ l.height (pos 0)
    then []
    else rects_in (effective_zoom l) l.focus_idx (detail_pane_kind l) (frame l) n

unfoldable pub rebuild_pane_rects : Layout → Layout
rebuild_pane_rects l = record l { pane_rects = rects l (split_count l) }

abbrev pub resize_panel : Option (ℤ × ℤ) → Panel → Panel
resize_panel none p = p
resize_panel (some (w, h)) p = Panel.set_size w h p

abbrev pub resize_pane : Layout → ℕ → ℕ → Pane → Pane
resize_pane l n i p = let (w, h) = split_size l n i in set_size w h p

abbrev pub resize_splits : Layout → Layout
resize_splits l = record l { splits = map_index (resize_pane l (split_count l)) 0 l.splits }

-- `recalcSizes`: with no splits nothing is sized, and the rectangles are rebuilt all the same.
unfoldable pub recalc_sizes : Layout → Layout
unfolding rebuild_pane_rects
recalc_sizes l =
    let size = (if split_count l == 0 then none else panel_size l) in
    rebuild_pane_rects (on_active (resize_panel size) (resize_splits l))

abbrev pub contains : ℤ → ℤ → PaneRect → Bool
contains x y r =
    leb_ℤ (pos r.x) x && ltb_ℤ x (pos (r.x + r.w)) && leb_ℤ (pos r.y) y && ltb_ℤ y (pos (r.y + r.h))

abbrev pub first_containing : ℤ → ℤ → List PaneRect → Option PaneRect
first_containing x y [] = none
first_containing x y (r ∷ rs) = if contains x y r then some r else first_containing x y rs

unfoldable pub pane_at : Layout → ℤ → ℤ → Option PaneRect
pane_at l x y = first_containing x y l.pane_rects

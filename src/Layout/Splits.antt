-- ===== src/Layout/Splits.antt =====
-- A new layout, and the operations that add and remove splits or change the terminal's size.
use aku.Base.{
  ℕ, ◌+◌, ◌-◌, String, Bool, true, false, [], if◌then◌else◌, ltb, leb, modify, insert_at, remove_at,
  length, ℤ, pos, ◌-ℤ◌,
}
use aku.Layout.Pane.{Pane, new_resource_list, set_borderless}
use aku.Layout.Panel.{Panel}
use aku.Layout.State.{Layout, resources, vertical, split_count}
use aku.Layout.Geometry.{recalc_sizes, split_dimensions, status_bar_height}
use aku.Layout.Focus.{retarget}

-- A new panel of no width.
abbrev pub new_panel : ℤ → Panel
new_panel h = record { focused = false; borderless = false; width = pos 0; height = h }

unfoldable pub new : ℤ → ℤ → Layout
new width height = record {
  splits = [];
  focus_idx = 0;
  right_panel = new_panel (height -ℤ status_bar_height);
  right_visible = false;
  focus_target = resources;
  split_zoomed = false;
  detail_zoomed = false;
  orientation = vertical;
  width = width;
  height = height -ℤ status_bar_height;
  log_view = new_panel (height -ℤ status_bar_height);
  log_mode = false;
  pane_rects = [];
}

-- The borderless flag of the focused split follows `splitZoomed`.
abbrev pub flag_focused : Bool → Layout → Layout
flag_focused b l = record l {
  splits = if l.split_zoomed then modify l.focus_idx (set_borderless b) l.splits else l.splits;
}

abbrev pub insert_idx : Layout → ℕ
insert_idx l = if ltb 0 (split_count l) then l.focus_idx + 1 else 0

-- The common part of `AddSplit` and `AddTerminalSplit`: the pane goes behind the focused one and
-- takes the focus. With no split the first call changes nothing, as its guard says.
unfoldable pub insert_pane : Pane → Layout → Layout
insert_pane p l =
    let cleared = flag_focused false l in
    recalc_sizes (
      flag_focused true (
        retarget (insert_idx l)
          (record cleared { splits = insert_at (insert_idx l) p cleared.splits })))

unfoldable pub add_split : String → String → String → Layout → Layout
unfolding insert_pane
add_split plugin namespace context l =
    let (w, h) = split_dimensions l (split_count l + 1) in
    insert_pane (new_resource_list plugin namespace context w h) l

unfoldable pub add_terminal_split : Pane → Layout → Layout
unfolding insert_pane
add_terminal_split p l = insert_pane p l

-- The new focus after a removal: the same place, or the last one.
abbrev pub refocus : ℕ → ℕ → ℕ
refocus idx n = if leb n idx then n - 1 else idx

-- `CloseCurrentSplit`: true, and no change, where one split or none is left.
unfoldable pub close_current_split : Layout → Layout × Bool
close_current_split l =
    let rest = remove_at l.focus_idx l.splits in
    if leb (split_count l) 1 then (l, true) else (
      recalc_sizes (
          flag_focused true
            (retarget (refocus l.focus_idx (length rest)) (record l { splits = rest }))),
      false,
    )

unfoldable pub resize : ℤ → ℤ → Layout → Layout
resize width height l =
    recalc_sizes (record l { width = width; height = height -ℤ status_bar_height })

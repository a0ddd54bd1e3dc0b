-- ===== src/Layout/Focus.antt =====
-- Focus: `reconcileFocus`, `moveBorderlessFlag`, and the operations that move the focus.
use aku.Base.{
  ℕ, ◌+◌, ◌-◌, ◌%◌, Bool, true, false, ◌&&◌, ◌||◌, if◌then◌else◌, ltb, ◌==◌, map_index, modify,
  swap_at, ℤ, pos, pos_part, ltb_ℤ, leb_ℤ, ◌+ℤ◌,
}
use aku.Layout.Pane.{Pane, focus, blur, blur_border, set_borderless}
use aku.Layout.Panel
use aku.Layout.State.{Layout, resources, details, split_count, on_active, focused_details}
use aku.Layout.Geometry.{recalc_sizes}

-- The panel has the input.
abbrev pub detail_owns : Layout → Bool
detail_owns l = focused_details l && l.right_visible

abbrev pub reconcile_pane : Layout → ℕ → Pane → Pane
reconcile_pane l i p =
    if i == l.focus_idx then (if detail_owns l then blur_border p else focus p) else blur p

-- With no split nothing changes, the panel neither.
unfoldable pub reconcile_focus : Layout → Layout
reconcile_focus l =
    on_active (λ p. if split_count l == 0 then p else Panel.set_focused (detail_owns l) p)
      (record l { splits = map_index (reconcile_pane l) 0 l.splits })

unfoldable pub move_borderless_flag : ℕ → ℕ → Layout → Layout
move_borderless_flag from to l =
    if l.split_zoomed
    then recalc_sizes (record l {
      splits = modify to (set_borderless true) (modify from (set_borderless false) l.splits);
    })
    else l

-- The focus goes to the resources of the split at `idx`.
abbrev pub retarget : ℕ → Layout → Layout
retarget idx l = reconcile_focus (record l { focus_target = resources; focus_idx = idx })

-- Where the wrap leaves the focus on the same split, the flag is not moved.
abbrev pub cycle : ℕ → Layout → Layout
cycle idx l =
    if l.focus_idx == idx
    then retarget idx l
    else move_borderless_flag l.focus_idx idx (retarget idx l)

unfoldable pub focus_next : Layout → Layout
focus_next l = if split_count l == 0 then l else cycle ((l.focus_idx + 1) % split_count l) l

unfoldable pub focus_prev : Layout → Layout
focus_prev l =
    if split_count l == 0 then l else cycle ((l.focus_idx + split_count l - 1) % split_count l) l

unfoldable pub focus_split_at : ℤ → Layout → Layout
focus_split_at idx l =
    if ltb_ℤ idx (pos 0) || leb_ℤ (pos (split_count l)) idx
    then l
    else move_borderless_flag l.focus_idx (pos_part idx) (retarget (pos_part idx) l)

unfoldable pub move_focused_split : ℤ → Layout → Layout
move_focused_split delta l =
    let target = pos l.focus_idx +ℤ delta in
    if ltb_ℤ target (pos 0) || leb_ℤ (pos (split_count l)) target
    then l
    else recalc_sizes (
        retarget (pos_part target)
          (record l { splits = swap_at l.focus_idx (pos_part target) l.splits }))

-- No panel to see, or no split: nothing happens.
unfoldable pub focus_details : Layout → Layout
focus_details l =
    if l.right_visible && ltb 0 (split_count l)
    then reconcile_focus (record l { focus_target = details })
    else l

unfoldable pub focus_resources : Layout → Layout
focus_resources l = reconcile_focus (record l { focus_target = resources })

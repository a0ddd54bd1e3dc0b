-- ===== src/Layout/Detail.antt =====
-- The panel on the right, zoom and orientation.
use aku.Base.{Bool, true, false, if◌then◌else◌, ltb, modify}
use aku.Layout.Pane.{set_borderless}
use aku.Layout.Panel
use aku.Layout.State.{Layout, resources, Orientation, vertical, horizontal, split_count, on_active}
use aku.Layout.Geometry.{recalc_sizes, rebuild_pane_rects}
use aku.Layout.Focus.{reconcile_focus}
use aku.Layout.Splits.{flag_focused}

unfoldable pub show_right_panel : Layout → Layout
show_right_panel l = recalc_sizes (record l { right_visible = true })

-- `ActiveDetailPanel().SetBorderless(false)` under the detail zoom.
abbrev pub unzoom_detail : Layout → Layout
unzoom_detail l = on_active (λ p. if l.detail_zoomed then Panel.set_borderless false p else p) l

unfoldable pub hide_right_panel : Layout → Layout
hide_right_panel l = recalc_sizes (
    reconcile_focus (record (unzoom_detail l) {
      detail_zoomed = false;
      right_visible = false;
      focus_target = resources;
    }))

unfoldable pub set_log_mode : Bool → Layout → Layout
set_log_mode on l = rebuild_pane_rects (record l { log_mode = on })

-- A call of `SetBorderless` on the focused pane, if there is one.
abbrev pub flag_pane : Bool → Layout → Layout
flag_pane b l = record l { splits = modify l.focus_idx (set_borderless b) l.splits }

unfoldable pub toggle_zoom_split : Layout → Layout
toggle_zoom_split l =
    if l.split_zoomed
    then recalc_sizes (flag_pane false (record l { split_zoomed = false }))
    else if ltb 0 (split_count l)
    then recalc_sizes (flag_pane true (record l { split_zoomed = true }))
    else l

unfoldable pub toggle_zoom_detail : Layout → Layout
toggle_zoom_detail l =
    if l.detail_zoomed
    then recalc_sizes (on_active (Panel.set_borderless false) (record l { detail_zoomed = false }))
    else if l.right_visible
    then recalc_sizes (on_active (Panel.set_borderless true) (record l { detail_zoomed = true }))
    else l

abbrev pub turn : Orientation → Orientation
turn vertical = horizontal
turn horizontal = vertical

unfoldable pub toggle_orientation : Layout → Layout
toggle_orientation l = recalc_sizes (record l { orientation = turn l.orientation })

unfoldable pub unzoom_all : Layout → Layout
unzoom_all l =
    recalc_sizes (record (flag_focused false (unzoom_detail l)) {
      split_zoomed = false;
      detail_zoomed = false;
    })

-- ===== src/Layout/Reach.antt =====
-- The calls of a layout as steps of a relation, and what holds of every layout they can reach.
use aku.Base.{◌≡◌, refl, false, String, Bool, ℤ}
use aku.Layout.Pane.{Pane}
use aku.Layout.State.{Layout}
use aku.Layout.Focus.{
  focus_next, focus_prev, focus_split_at, move_focused_split, focus_details, focus_resources,
}
use aku.Layout.Splits.{new, add_split, add_terminal_split, close_current_split, resize}
use aku.Layout.Detail.{
  show_right_panel, hide_right_panel, set_log_mode, toggle_zoom_split, toggle_zoom_detail,
  toggle_orientation, unzoom_all,
}
use aku.Layout.Invariant.{WellFormed}
use aku.Layout.EditInvariant.{insert_pane-WellFormed, close_current_split-WellFormed}
use aku.Layout.FocusInvariant.{
  focus_next-WellFormed, focus_prev-WellFormed, focus_split_at-WellFormed,
  move_focused_split-WellFormed, focus_details-WellFormed, focus_resources-WellFormed,
}
use aku.Layout.DetailInvariant.{
  new-WellFormed, show_right_panel-WellFormed, hide_right_panel-WellFormed, set_log_mode-WellFormed,
  toggle_zoom_split-WellFormed, toggle_zoom_detail-WellFormed, toggle_orientation-WellFormed,
  resize-WellFormed, unzoom_all-WellFormed,
}

-- One call of an exported method that changes the layout. A terminal pane comes to the layout
-- with its border, as its constructor leaves it.
pub data Step (l : Layout) : Layout → Type 0 where
  add_list : (plugin namespace context : String) → Step l (add_split plugin namespace context l)
  add_terminal : (p : Pane) → p.borderless ≡ false → Step l (add_terminal_split p l)
  close : Step l (close_current_split l).0
  next : Step l (focus_next l)
  prev : Step l (focus_prev l)
  at : (idx : ℤ) → Step l (focus_split_at idx l)
  move : (delta : ℤ) → Step l (move_focused_split delta l)
  to_details : Step l (focus_details l)
  to_resources : Step l (focus_resources l)
  show : Step l (show_right_panel l)
  hide : Step l (hide_right_panel l)
  logs : (on : Bool) → Step l (set_log_mode on l)
  zoom_split : Step l (toggle_zoom_split l)
  zoom_detail : Step l (toggle_zoom_detail l)
  unzoom : Step l (unzoom_all l)
  turn : Step l (toggle_orientation l)
  size : (width height : ℤ) → Step l (resize width height l)

pub data Reach : Layout → Type 0 where
  start : (width height : ℤ) → Reach (new width height)
  then_call : {l m : Layout} → Reach l → Step l m → Reach m

Step-WellFormed : {l m : Layout} → Step l m → WellFormed l → WellFormed m
unfolding add_split add_terminal_split
Step-WellFormed (add_list p n c) w = insert_pane-WellFormed _ refl w
Step-WellFormed (add_terminal p flat) w = insert_pane-WellFormed p flat w
Step-WellFormed close w = close_current_split-WellFormed w
Step-WellFormed next w = focus_next-WellFormed w
Step-WellFormed prev w = focus_prev-WellFormed w
Step-WellFormed (at idx) w = focus_split_at-WellFormed idx w
Step-WellFormed (move delta) w = move_focused_split-WellFormed delta w
Step-WellFormed to_details w = focus_details-WellFormed w
Step-WellFormed to_resources w = focus_resources-WellFormed w
Step-WellFormed show w = show_right_panel-WellFormed w
Step-WellFormed hide w = hide_right_panel-WellFormed w
Step-WellFormed (logs on) w = set_log_mode-WellFormed on w
Step-WellFormed zoom_split w = toggle_zoom_split-WellFormed w
Step-WellFormed zoom_detail w = toggle_zoom_detail-WellFormed w
Step-WellFormed unzoom w = unzoom_all-WellFormed w
Step-WellFormed turn w = toggle_orientation-WellFormed w
Step-WellFormed (size width height) w = resize-WellFormed width height w

-- Every layout that calls can reach is well formed: the focus index is in range; at most the split
-- there is focused or has a cursor; it alone is borderless, and only under the split zoom; the
-- panel is shown where it has the input or the zoom; sizes and rectangles are those of the geometry.
pub Reach-WellFormed : {l : Layout} → Reach l → WellFormed l
Reach-WellFormed (start width height) = new-WellFormed width height
Reach-WellFormed (then_call r s) = Step-WellFormed s (Reach-WellFormed r)

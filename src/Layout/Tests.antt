-- ===== src/Layout/Tests.antt =====
-- Runs of the layout, and the theorems at concrete layouts.
use aku.Base.{◌≡◌, refl, true, false, [], ◌∷◌, arith, pos, ◌-ℤ◌, ◌/ℤ◌, scale}
use aku.Layout.Pane.{resource_list}
use aku.Layout.State.{Layout, PaneKind, details, vertical, split, log}
use aku.Layout.Geometry.{recalc_sizes, rects, split_size, panel_size, pane_at}
use aku.Layout.Focus.{reconcile_focus}
use aku.Layout.Splits.{new, add_split}
use aku.Layout.Detail.{show_right_panel, set_log_mode, hide_right_panel}
use aku.Layout.Invariant.{WellFormed}
use aku.Layout.Reach.{Reach, start, then_call, add_list, Reach-WellFormed}
use aku.Layout.Tiling.{count_at, bit}
use aku.Layout.HitTest.{inside, is_some, hits, pane_at-tiles}
use aku.Layout.CloseOrder.{close_order}

-- Two lists on a screen of 81 columns and 26 rows.
abbrev two_lists : Layout
two_lists =
    add_split "services" "default" "prod"
      (add_split "pods" "default" "prod" (new (pos 81) (pos 26)))

two_lists-Reach : Reach two_lists
two_lists-Reach =
    then_call (then_call (start (pos 81) (pos 26)) (add_list "pods" "default" "prod"))
      (add_list "services" "default" "prod")

-- The remainder of 25 rows goes to the last split.
two_lists-rects :
    (show_right_panel two_lists).pane_rects
    ≡ record { x = 0; y = 0; w = 40; h = 12; kind = split; split_idx = 0 }
      ∷ record { x = 0; y = 12; w = 40; h = 13; kind = split; split_idx = 1 }
      ∷ record { x = 40; y = 0; w = 41; h = 25; kind = PaneKind.detail; split_idx = 0 }
      ∷ []
unfolding show_right_panel add_split new recalc_sizes reconcile_focus rects split_size panel_size
    ◌-ℤ◌ ◌/ℤ◌ scale
two_lists-rects = refl

Reach-WellFormed_example : WellFormed two_lists
Reach-WellFormed_example = Reach-WellFormed two_lists-Reach

pane_at-tiles_example :
    (count_at (pos 3) (pos 20) two_lists.pane_rects ≡ bit (inside two_lists (pos 3) (pos 20)))
    × (is_some (pane_at two_lists (pos 3) (pos 20)) ≡ inside two_lists (pos 3) (pos 20))
    × (hits (pos 3) (pos 20) (pane_at two_lists (pos 3) (pos 20))
        ≡ inside two_lists (pos 3) (pos 20))
unfolding add_split new recalc_sizes reconcile_focus
pane_at-tiles_example = pane_at-tiles (pos 3) (pos 20) two_lists-Reach (omega arith)

-- The log panel, zoomed over one list.
abbrev zoomed_logs : Layout
zoomed_logs = record {
  splits =
      record {
        content = resource_list "pods" "default" "prod";
        focused = false;
        selection = true;
        borderless = false;
        width = pos 0;
        height = pos 0;
      }
      ∷ [];
  focus_idx = 0;
  right_panel = record { focused = false; borderless = false; width = pos 0; height = pos 25 };
  right_visible = true;
  focus_target = details;
  split_zoomed = false;
  detail_zoomed = true;
  orientation = vertical;
  width = pos 81;
  height = pos 25;
  log_view = record { focused = true; borderless = true; width = pos 81; height = pos 26 };
  log_mode = true;
  pane_rects = record { x = 0; y = 0; w = 81; h = 25; kind = log; split_idx = 0 } ∷ [];
}

close_order_example :
    let closed = hide_right_panel (set_log_mode false zoomed_logs) in
    let reordered = set_log_mode false (hide_right_panel zoomed_logs) in
    (closed.right_visible ≡ false)
    × (closed.detail_zoomed ≡ false)
    × (closed.log_view.borderless ≡ true)
    × (reordered.right_visible ≡ false)
    × (reordered.detail_zoomed ≡ false)
    × (reordered.log_view.borderless ≡ false)
close_order_example = close_order zoomed_logs refl refl refl

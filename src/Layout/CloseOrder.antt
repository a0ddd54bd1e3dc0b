-- ===== src/Layout/CloseOrder.antt =====
-- The panel's borderless flag and the order of two calls: internal/app/commands.go's
-- `closeRightPanel` leaves the log mode before it hides the panel.
use aku.Base.{
  ◌≡◌, refl, ◌∙◌, ◌&&◌, not, ◌==◌, arith, if-cases, Bool, true, false, Option, none, some, ℤ,
  if◌then◌else◌,
}
use aku.Layout.Panel
use aku.Layout.Panel.{Panel}
use aku.Layout.State.{Layout, split_count}
use aku.Layout.Geometry.{recalc_sizes, rebuild_pane_rects, resize_panel}
use aku.Layout.Focus.{reconcile_focus}
use aku.Layout.Detail.{hide_right_panel, set_log_mode}

borderless-resize_panel :
    (o : Option (ℤ × ℤ)) (p : Panel) → (resize_panel o p).borderless ≡ p.borderless
borderless-resize_panel none p = refl
borderless-resize_panel (some _) p = refl

border-recalc_sizes : (l : Layout) → (recalc_sizes l).log_view.borderless ≡ l.log_view.borderless
unfolding recalc_sizes
border-recalc_sizes l =
    if-cases (λ (p : Panel). p.borderless ≡ l.log_view.borderless) l.log_mode _ _
      (λ _. borderless-resize_panel _ l.log_view) (λ _. refl)

border-reconcile_focus :
    (l : Layout) → (reconcile_focus l).log_view.borderless ≡ l.log_view.borderless
unfolding reconcile_focus
border-reconcile_focus l =
    if-cases (λ (p : Panel). p.borderless ≡ l.log_view.borderless) l.log_mode _ _
      (λ _.
        if-cases (λ (p : Panel). p.borderless ≡ l.log_view.borderless) (split_count l == 0) _ _
          (λ _. refl) (λ _. refl))
      (λ _. refl)

border-hide_right_panel :
    (l : Layout)
    → (hide_right_panel l).log_view.borderless
      ≡ (l.log_view.borderless && not (l.log_mode && l.detail_zoomed))
unfolding hide_right_panel
border-hide_right_panel l =
    border-recalc_sizes _ ∙ border-reconcile_focus _ ∙ cleared l.log_mode l.detail_zoomed l.log_view
  where
    cleared :
        (mode zoomed : Bool) (p : Panel)
        → (if mode then (if zoomed then Panel.set_borderless false p else p) else p).borderless
          ≡ (p.borderless && not (mode && zoomed))
    cleared mode zoomed p = ground arith

-- With the log panel zoomed, leaving the log mode first and hiding then, as `closeRightPanel` does,
-- hides the panel and ends its zoom, but leaves the log panel borderless; in the other order the
-- log panel has its border again.
pub close_order :
    (l : Layout)
    → l.log_mode ≡ true
    → l.detail_zoomed ≡ true
    → l.log_view.borderless ≡ true
    → let closed = hide_right_panel (set_log_mode false l) in
      let reordered = set_log_mode false (hide_right_panel l) in
      (closed.right_visible ≡ false)
      × (closed.detail_zoomed ≡ false)
      × (closed.log_view.borderless ≡ true)
      × (reordered.right_visible ≡ false)
      × (reordered.detail_zoomed ≡ false)
      × (reordered.log_view.borderless ≡ false)
unfolding set_log_mode rebuild_pane_rects hide_right_panel recalc_sizes reconcile_focus
close_order l mode zoomed border = (
  refl,
  refl,
  border-hide_right_panel (set_log_mode false l) ∙ ground (arith, border),
  refl,
  refl,
  border-hide_right_panel l ∙ ground (arith, mode, zoomed),
)

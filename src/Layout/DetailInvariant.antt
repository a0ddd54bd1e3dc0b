-- ===== src/Layout/DetailInvariant.antt =====
-- The operations on the panel, the zoom, the orientation and the size keep the invariant, so it
-- holds of every layout that calls can reach.
use aku.Base.{
  ◌<◌, ◌≡◌, refl, Bool, true, false, arith, ltb, modify, subst, Each, Each-modify, length-modify,
  if-cases, ℤ, ◌-ℤ◌,
}
use aku.Layout.Pane.{set_borderless}
use aku.Layout.Panel.{Panel}
use aku.Layout.EditInvariant.{cleared-Flat, length-cleared}
use aku.Layout.State.{Layout, Orientation, split_count}
use aku.Layout.Geometry.{split_size, rects, rebuild_pane_rects, status_bar_height}
use aku.Layout.Splits.{new, resize}
use aku.Layout.Detail.{
  show_right_panel, hide_right_panel, set_log_mode, toggle_zoom_split, toggle_zoom_detail,
  toggle_orientation, unzoom_all, flag_pane, turn,
}
use aku.Layout.Borders.{Marked, Flat-of-unmarked, Marked-of-Flat, Flat-modify, Marked-modify}
use aku.Layout.Invariant.{
  FocusedAs, IsFocused, WellFormed, reconcile_focus-IsFocused, recalc_sizes-WellFormed,
}

pub new-WellFormed : (width height : ℤ) → WellFormed (new width height)
unfolding new rects
new-WellFormed width height = record {
  focused = record {
    marked = record {
      idx = omega arith;
      shown = λ e. cc e;
      zoomed = λ e. cc e;
      has_split = λ e. cc e;
      borders = tt;
    };
    focus_bits = tt;
  };
  sized = record { sizes = tt; cache = refl };
}

pub show_right_panel-WellFormed : {l : Layout} → WellFormed l → WellFormed (show_right_panel l)
unfolding show_right_panel
show_right_panel-WellFormed {l} w =
    let m = w.focused.marked in
    recalc_sizes-WellFormed (record {
      marked = record {
        idx = m.idx;
        shown = λ _. refl;
        zoomed = λ _. refl;
        has_split = m.has_split;
        borders = m.borders;
      };
      focus_bits = w.focused.focus_bits;
    })

pub hide_right_panel-WellFormed : {l : Layout} → WellFormed l → WellFormed (hide_right_panel l)
unfolding hide_right_panel
hide_right_panel-WellFormed {l} w =
    let m = w.focused.marked in
    recalc_sizes-WellFormed (
      reconcile_focus-IsFocused (record {
        idx = m.idx;
        shown = λ e. cc e;
        zoomed = λ e. cc e;
        has_split = m.has_split;
        borders = m.borders;
      }))

pub set_log_mode-WellFormed :
    (on : Bool) {l : Layout} → WellFormed l → WellFormed (set_log_mode on l)
unfolding set_log_mode rebuild_pane_rects split_size rects
set_log_mode-WellFormed on {l} w =
    let m = w.focused.marked in
    record {
      focused = record {
        marked = record {
          idx = m.idx;
          shown = m.shown;
          zoomed = m.zoomed;
          has_split = m.has_split;
          borders = m.borders;
        };
        focus_bits = w.focused.focus_bits;
      };
      sized = record { sizes = w.sized.sizes; cache = refl };
    }

-- The flag of the focused split put on or off together with the zoom.
flagged-IsFocused :
    {l : Layout} (z : Bool)
    → (z ≡ true → 0 < split_count l)
    → Marked l.focus_idx z 0 (modify l.focus_idx (set_borderless z) l.splits)
    → IsFocused l
    → IsFocused (flag_pane z (record l { split_zoomed = z }))
flagged-IsFocused {l} z has borders f =
    let m = f.marked in
    let n = length-modify l.focus_idx (set_borderless z) l.splits in
    record {
      marked = record {
        idx = omega (arith, m.idx, n);
        shown = m.shown;
        zoomed = m.zoomed;
        has_split = λ e. omega (arith, has e, n);
        borders = borders;
      };
      focus_bits =
          Each-modify (FocusedAs l) (set_borderless z) 0 l.focus_idx l.splits (λ _ _ g. g)
            f.focus_bits;
    }

pub toggle_zoom_split-WellFormed : {l : Layout} → WellFormed l → WellFormed (toggle_zoom_split l)
unfolding toggle_zoom_split
toggle_zoom_split-WellFormed {l} w =
    let m = w.focused.marked in
    if-cases WellFormed l.split_zoomed _ _
      (λ z. recalc_sizes-WellFormed (
        flagged-IsFocused false (λ e. cc e)
          (Marked-of-Flat l.focus_idx 0 _ (
            Flat-modify (set_borderless false) l.focus_idx l.focus_idx l.split_zoomed 0 l.splits
              (omega arith) (λ _. refl) m.borders))
          w.focused))
      (λ z.
        if-cases WellFormed (ltb 0 (split_count l)) _ _
          (λ some_split. recalc_sizes-WellFormed (
            flagged-IsFocused true (λ _. ground arith)
              (Marked-modify (set_borderless true) l.focus_idx l.focus_idx true 0 l.splits
                (omega arith) (λ _. refl)
                (Flat-of-unmarked l.focus_idx 0 l.splits
                  (subst (λ b. Marked l.focus_idx b 0 l.splits) z m.borders)))
              w.focused))
          (λ _. w))

-- A change of the panel and of the detail zoom leaves the splits as they are.
detail-IsFocused :
    {l : Layout} (z : Bool)
    → (z ≡ true → l.right_visible ≡ true)
    → IsFocused l
    → IsFocused (record l { detail_zoomed = z })
detail-IsFocused z zoomed f = record {
  marked = record {
    idx = f.marked.idx;
    shown = f.marked.shown;
    zoomed = zoomed;
    has_split = f.marked.has_split;
    borders = f.marked.borders;
  };
  focus_bits = f.focus_bits;
}

panels-IsFocused :
    {l : Layout} (r v : Panel)
    → IsFocused l
    → IsFocused (record l { right_panel = r; log_view = v })
panels-IsFocused r v f = record {
  marked = record {
    idx = f.marked.idx;
    shown = f.marked.shown;
    zoomed = f.marked.zoomed;
    has_split = f.marked.has_split;
    borders = f.marked.borders;
  };
  focus_bits = f.focus_bits;
}

frame-IsFocused :
    {l : Layout} (o : Orientation) (width height : ℤ)
    → IsFocused l
    → IsFocused (record l { orientation = o; width = width; height = height })
frame-IsFocused o width height f = record {
  marked = record {
    idx = f.marked.idx;
    shown = f.marked.shown;
    zoomed = f.marked.zoomed;
    has_split = f.marked.has_split;
    borders = f.marked.borders;
  };
  focus_bits = f.focus_bits;
}

pub toggle_zoom_detail-WellFormed : {l : Layout} → WellFormed l → WellFormed (toggle_zoom_detail l)
unfolding toggle_zoom_detail
toggle_zoom_detail-WellFormed {l} w =
    if-cases WellFormed l.detail_zoomed _ _
      (λ _.
        recalc_sizes-WellFormed
          (panels-IsFocused _ _ (detail-IsFocused false (λ e. cc e) w.focused)))
      (λ _.
        if-cases WellFormed l.right_visible _ _
          (λ shown.
            recalc_sizes-WellFormed
              (panels-IsFocused _ _ (detail-IsFocused true (λ _. shown) w.focused)))
          (λ _. w))

pub toggle_orientation-WellFormed : {l : Layout} → WellFormed l → WellFormed (toggle_orientation l)
unfolding toggle_orientation
toggle_orientation-WellFormed {l} w =
    recalc_sizes-WellFormed (frame-IsFocused (turn l.orientation) l.width l.height w.focused)

pub resize-WellFormed :
    (width height : ℤ) {l : Layout} → WellFormed l → WellFormed (resize width height l)
unfolding resize
resize-WellFormed width height {l} w =
    recalc_sizes-WellFormed
      (frame-IsFocused l.orientation width (height -ℤ status_bar_height) w.focused)

pub unzoom_all-WellFormed : {l : Layout} → WellFormed l → WellFormed (unzoom_all l)
unfolding unzoom_all
unzoom_all-WellFormed {l} w =
    let m = w.focused.marked in
    let n = length-cleared l.split_zoomed l.focus_idx l.splits in
    recalc_sizes-WellFormed (record {
      marked = record {
        idx = omega (arith, m.idx, n);
        shown = m.shown;
        zoomed = λ e. cc e;
        has_split = λ e. cc e;
        borders =
            Marked-of-Flat l.focus_idx 0 _
              (cleared-Flat l.split_zoomed l.focus_idx l.splits m.borders);
      };
      focus_bits =
          if-cases (Each (FocusedAs l) 0) l.split_zoomed _ _
            (λ _.
              Each-modify (FocusedAs l) (set_borderless false) 0 l.focus_idx l.splits (λ _ _ g. g)
                w.focused.focus_bits)
            (λ _. w.focused.focus_bits);
    })

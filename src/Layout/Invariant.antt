-- ===== src/Layout/Invariant.antt =====
-- What holds of a layout between two calls, and the two steps that restore it: `reconcileFocus`
-- for the focus bits, and `recalcSizes` for the sizes and the cache of rectangles.
use aku.Base.{
  ℕ, ◌-◌, ◌≤◌, ◌<◌, ◌≡◌, refl, sym, ap, ◌∙◌, Bool, true, not, ◌&&◌, ◌==◌, arith, Each, Each-of,
  Each-map_index, length-map_index,
}
use aku.Layout.Pane.{Pane, is_list}
use aku.Layout.State.{Layout, details, split_count, focused_details}
use aku.Layout.Geometry.{split_size, rects, recalc_sizes, resize_pane}
use aku.Layout.Focus.{reconcile_focus, reconcile_pane}
use aku.Layout.Borders.{Marked}

-- The focus bits: at most one split is focused, and at most one has a cursor, namely the split at
-- the focus index; it keeps its cursor while the panel has the input.
abbrev pub FocusedAs : Layout → ℕ → Pane → Type 0
FocusedAs l i p =
    (p.focused ≡ (i == l.focus_idx && not (focused_details l)))
    × (p.selection ≡ (i == l.focus_idx && is_list p.content))

abbrev pub SizedAs : Layout → ℕ → ℕ → Pane → Type 0
SizedAs l n i p = (p.width ≡ (split_size l n i).0) × (p.height ≡ (split_size l n i).1)

-- The part that no later step restores.
pub record IsMarked (l : Layout) : Type 0 where
  pub idx : l.focus_idx ≤ split_count l - 1
  pub shown : l.focus_target ≡ details → l.right_visible ≡ true
  pub zoomed : l.detail_zoomed ≡ true → l.right_visible ≡ true
  pub has_split : l.split_zoomed ≡ true → 0 < split_count l
  pub borders : Marked l.focus_idx l.split_zoomed 0 l.splits

-- The sizes and the cached rectangles are those of the geometry.
pub record IsSized (l : Layout) : Type 0 where
  pub sizes : Each (SizedAs l (split_count l)) 0 l.splits
  pub cache : l.pane_rects ≡ rects l (split_count l)

pub record IsFocused (l : Layout) : Type 0 where
  pub marked : IsMarked l
  pub focus_bits : Each (FocusedAs l) 0 l.splits

-- The whole invariant.
pub record WellFormed (l : Layout) : Type 0 where
  pub focused : IsFocused l
  pub sized : IsSized l

reconcile_pane-FocusedAs :
    (l : Layout) (i : ℕ) (p : Pane)
    → (l.focus_target ≡ details → l.right_visible ≡ true)
    → FocusedAs l i (reconcile_pane l i p)
reconcile_pane-FocusedAs l i p shown = ground arith

reconcile_pane-borderless :
    (l : Layout) (i : ℕ) (p : Pane) → (reconcile_pane l i p).borderless ≡ p.borderless
reconcile_pane-borderless l i p = ground arith

reconcile_pane-SizedAs :
    (l : Layout) (n i : ℕ) (p : Pane) → SizedAs l n i p → SizedAs l n i (reconcile_pane l i p)
reconcile_pane-SizedAs l n i p s = ground arith

pub split_count-reconcile_focus : (l : Layout) → split_count (reconcile_focus l) ≡ split_count l
unfolding reconcile_focus
split_count-reconcile_focus l = length-map_index (reconcile_pane l) 0 l.splits

-- The focus bits are restored whatever they were, and the borderless flags are left alone.
pub reconcile_focus-FocusedAs :
    (l : Layout)
    → (l.focus_target ≡ details → l.right_visible ≡ true)
    → Each (FocusedAs l) 0 (reconcile_focus l).splits
unfolding reconcile_focus
reconcile_focus-FocusedAs l shown =
    Each-map_index (λ _ _. Unit {0}) (FocusedAs l) (reconcile_pane l) 0 l.splits
      (λ i p _. reconcile_pane-FocusedAs l i p shown) (Each-of 0 l.splits (λ _ _. tt))

pub reconcile_focus-Marked :
    (l : Layout) (m : ℕ) (z : Bool)
    → Marked m z 0 l.splits
    → Marked m z 0 (reconcile_focus l).splits
unfolding reconcile_focus
reconcile_focus-Marked l m z e =
    Each-map_index (λ i p. p.borderless ≡ (i == m && z)) (λ i p. p.borderless ≡ (i == m && z))
      (reconcile_pane l) 0 l.splits (λ i p b. reconcile_pane-borderless l i p ∙ b) e

pub reconcile_focus-IsFocused : {l : Layout} → IsMarked l → IsFocused (reconcile_focus l)
unfolding reconcile_focus
reconcile_focus-IsFocused {l} m = record {
  marked = record {
    idx = omega (arith, m.idx, length-map_index {0, 0} (reconcile_pane l) 0 l.splits);
    shown = m.shown;
    zoomed = m.zoomed;
    has_split =
        λ z. omega (arith, m.has_split z, length-map_index {0, 0} (reconcile_pane l) 0 l.splits);
    borders = reconcile_focus-Marked l l.focus_idx l.split_zoomed m.borders;
  };
  focus_bits = reconcile_focus-FocusedAs l m.shown;
}

pub reconcile_focus-IsSized : {l : Layout} → IsSized l → IsSized (reconcile_focus l)
unfolding reconcile_focus split_size rects
reconcile_focus-IsSized {l} s =
    let n = length-map_index (reconcile_pane l) 0 l.splits in
    record {
      sizes = rw n (
          Each-map_index (SizedAs l (split_count l)) (SizedAs l (split_count l)) (reconcile_pane l)
            0 l.splits (λ i p e. reconcile_pane-SizedAs l (split_count l) i p e) s.sizes);
      cache = s.cache ∙ ap (rects l) (sym n);
    }

pub recalc_sizes-IsFocused : {l : Layout} → IsFocused l → IsFocused (recalc_sizes l)
unfolding recalc_sizes
recalc_sizes-IsFocused {l} f =
    let m = f.marked in
    let resized : ℕ → Pane → Pane = resize_pane l (split_count l) in
    let n = length-map_index resized 0 l.splits in
    record {
      marked = record {
        idx = omega (arith, m.idx, n);
        shown = m.shown;
        zoomed = m.zoomed;
        has_split = λ z. omega (arith, m.has_split z, n);
        borders =
            Each-map_index (λ i p. p.borderless ≡ (i == l.focus_idx && l.split_zoomed))
              (λ i p. p.borderless ≡ (i == l.focus_idx && l.split_zoomed)) resized 0 l.splits
              (λ i p e. e) m.borders;
      };
      focus_bits =
          Each-map_index (FocusedAs l) (FocusedAs l) resized 0 l.splits (λ i p e. e) f.focus_bits;
    }

pub recalc_sizes-IsSized : (l : Layout) → IsSized (recalc_sizes l)
unfolding recalc_sizes split_size rects
recalc_sizes-IsSized l =
    let resized : ℕ → Pane → Pane = resize_pane l (split_count l) in
    let n = length-map_index resized 0 l.splits in
    record {
      sizes = rw n (
          Each-map_index (λ _ _. Unit {0}) (SizedAs l (split_count l)) resized 0 l.splits
            (λ i p _. (refl, refl)) (Each-of 0 l.splits (λ _ _. tt)));
      cache = refl;
    }

pub recalc_sizes-WellFormed : {l : Layout} → IsFocused l → WellFormed (recalc_sizes l)
recalc_sizes-WellFormed {l} f = record {
  focused = recalc_sizes-IsFocused f;
  sized = recalc_sizes-IsSized l;
}

-- ===== src/Layout/EditInvariant.antt =====
-- The operations that add and remove splits keep the invariant.
use aku.Base.{
  ℕ, ◌<◌, ◌≡◌, refl, ◌∙◌, inl, inr, Bool, true, false, List, arith, leb, if◌then◌else◌, length,
  modify, insert_at, remove_at, Each, Each-modify, Each-insert_at, length-modify, length-insert_at,
  length-remove_at, Bool-cases,
}
use aku.Layout.Pane.{Pane, set_borderless}
use aku.Layout.State.{Layout, resources, split_count}
use aku.Layout.Geometry.{recalc_sizes}
use aku.Layout.Focus.{reconcile_focus, retarget}
use aku.Layout.Splits.{flag_focused, insert_idx, insert_pane, refocus, close_current_split}
use aku.Layout.Borders.{
  Flat, Marked, Flat-of-unmarked, Marked-of-Flat, Flat-modify, Marked-modify, Flat-remove_at,
}
use aku.Layout.Invariant.{
  FocusedAs, WellFormed, split_count-reconcile_focus, reconcile_focus-FocusedAs,
  reconcile_focus-Marked, recalc_sizes-WellFormed,
}

abbrev flagged : Bool → ℕ → List Pane → List Pane
flagged z idx ps = if z then modify idx (set_borderless true) ps else ps

flagged-Marked :
    (z : Bool) (idx : ℕ) (ps : List Pane) → Flat 0 ps → Marked idx z 0 (flagged z idx ps)
flagged-Marked true idx ps flat =
    Marked-modify (set_borderless true) idx idx true 0 ps (omega arith) (λ _. refl) flat
flagged-Marked false idx ps flat = Marked-of-Flat idx 0 ps flat

flagged-FocusedAs :
    (l : Layout) (z : Bool) (idx : ℕ) (ps : List Pane)
    → Each (FocusedAs l) 0 ps
    → Each (FocusedAs l) 0 (flagged z idx ps)
flagged-FocusedAs l true idx ps e =
    Each-modify (FocusedAs l) (set_borderless true) 0 idx ps (λ _ _ f. f) e
flagged-FocusedAs l false idx ps e = e

length-flagged : (z : Bool) (idx : ℕ) (ps : List Pane) → length (flagged z idx ps) ≡ length ps
length-flagged true idx ps = length-modify idx (set_borderless true) ps
length-flagged false idx ps = refl

-- The end of an edit of the splits: the focus goes to `idx`, where the flag is put if zoomed.
placed-WellFormed :
    (l : Layout) (ps : List Pane) (idx : ℕ)
    → (l.detail_zoomed ≡ true → l.right_visible ≡ true)
    → idx < length ps
    → Flat 0 ps
    → WellFormed (recalc_sizes (flag_focused true (retarget idx (record l { splits = ps }))))
unfolding reconcile_focus
placed-WellFormed l ps idx zoomed h flat =
    let m : Layout = record l { splits = ps; focus_idx = idx; focus_target = resources } in
    let qs = (reconcile_focus m).splits in
    let n = length-flagged l.split_zoomed idx qs ∙ split_count-reconcile_focus m in
    recalc_sizes-WellFormed (record {
      marked = record {
        idx = omega (arith, n, h);
        shown = λ e. cc e;
        zoomed = zoomed;
        has_split = λ _. omega (arith, n, h);
        borders = flagged-Marked l.split_zoomed idx qs (
            Flat-of-unmarked idx 0 qs
              (reconcile_focus-Marked m idx false (Marked-of-Flat idx 0 ps flat)));
      };
      focus_bits =
          flagged-FocusedAs m l.split_zoomed idx qs (reconcile_focus-FocusedAs m (λ e. cc e));
    })

-- Taking the flag off the marked split leaves none.
pub cleared-Flat :
    (z : Bool) (idx : ℕ) (ps : List Pane)
    → Marked idx z 0 ps
    → Flat 0 (if z then modify idx (set_borderless false) ps else ps)
cleared-Flat true idx ps e =
    Flat-modify (set_borderless false) idx idx true 0 ps (omega arith) (λ _. refl) e
cleared-Flat false idx ps e = Flat-of-unmarked idx 0 ps e

pub length-cleared :
    (z : Bool) (idx : ℕ) (ps : List Pane)
    → length (if z then modify idx (set_borderless false) ps else ps) ≡ length ps
length-cleared true idx ps = length-modify idx (set_borderless false) ps
length-cleared false idx ps = refl

pub insert_pane-WellFormed :
    (p : Pane) {l : Layout} → p.borderless ≡ false → WellFormed l → WellFormed (insert_pane p l)
unfolding insert_pane
insert_pane-WellFormed p {l} flat w =
    let m = w.focused.marked in
    let ps : List Pane = (flag_focused false l).splits in
    placed-WellFormed l (insert_at (insert_idx l) p ps) (insert_idx l) m.zoomed
      (ground (
        arith,
        m.idx,
        length-insert_at (insert_idx l) p ps,
        length-cleared l.split_zoomed l.focus_idx l.splits,
      ))
      (Each-insert_at (λ q. q.borderless ≡ false) (insert_idx l) 0 0 p ps flat
        (cleared-Flat l.split_zoomed l.focus_idx l.splits m.borders))

pub close_current_split-WellFormed :
    {l : Layout} → WellFormed l → WellFormed (close_current_split l).0
unfolding close_current_split
close_current_split-WellFormed {l} w = elim (Bool-cases (leb (split_count l) 1)) [
  | inl last ↦ rw last w
  | inr more ↦ rw more (
      let m = w.focused.marked in
      let rest = remove_at l.focus_idx l.splits in
      placed-WellFormed l rest (refocus l.focus_idx (length rest)) m.zoomed
        (ground (arith, m.idx, length-remove_at l.focus_idx l.splits))
        (Flat-remove_at l.focus_idx l.focus_idx l.split_zoomed 0 l.splits (omega arith) m.borders))
]

-- ===== src/Layout/FocusInvariant.antt =====
-- The operations that move the focus keep the invariant.
use native.Mathlib.Nat.{mod-lt}
use aku.Base.{
  ℕ, ◌+◌, ◌-◌, ◌%◌, ◌≤◌, ◌≡◌, refl, sym, ap, ◌∙◌, inl, inr, Bool, true, false, ◌&&◌, ◌||◌, List,
  ◌==◌, arith, ltb, modify, subst, Each-map, Each-modify, length-modify, length-swap_at, Bool-cases,
  if-cases, ==_iff, ℤ, pos, pos_part, ltb_ℤ, leb_ℤ, ◌+ℤ◌,
}
use aku.Layout.Pane.{Pane, set_borderless}
use aku.Layout.State.{Layout, FocusTarget, resources, details, split_count}
use aku.Layout.Geometry.{split_size, rects}
use aku.Layout.Focus.{
  reconcile_focus, move_borderless_flag, retarget, cycle, focus_next, focus_prev, focus_split_at,
  move_focused_split, focus_details, focus_resources,
}
use aku.Layout.Borders.{
  Marked, Flat-of-unmarked, Marked-of-Flat, Flat-modify, Marked-modify, Marked-swap_at,
}
use aku.Layout.Invariant.{
  FocusedAs, SizedAs, IsMarked, IsSized, IsFocused, WellFormed, split_count-reconcile_focus,
  reconcile_focus-FocusedAs, reconcile_focus-Marked, reconcile_focus-IsFocused,
  reconcile_focus-IsSized, recalc_sizes-WellFormed,
}

-- Without the split zoom the geometry does not ask where the focus is.
split_size-refocused :
    (l : Layout) (t : FocusTarget) (k n i : ℕ)
    → l.split_zoomed ≡ false
    → split_size (record l { focus_target = t; focus_idx = k }) n i ≡ split_size l n i
unfolding split_size
split_size-refocused l t k n i z = elim (Bool-cases (l.detail_zoomed && l.right_visible)) [
  | inl d ↦ rw (d, split_size)
  | inr d ↦ rw (d, z, split_size)
]

rects-refocused :
    (l : Layout) (t : FocusTarget) (k n : ℕ)
    → l.split_zoomed ≡ false
    → rects (record l { focus_target = t; focus_idx = k }) n ≡ rects l n
unfolding rects
rects-refocused l t k n z =
    rw z (elim (Bool-cases (l.detail_zoomed && l.right_visible)) [ inl d ↦ rw d | inr d ↦ rw d ])

refocused-IsSized :
    {l : Layout} (t : FocusTarget) (k : ℕ)
    → l.split_zoomed ≡ false
    → IsSized l
    → IsSized (record l { focus_target = t; focus_idx = k })
refocused-IsSized {l} t k z s = record {
  sizes =
      Each-map (SizedAs l (split_count l))
        (SizedAs (record l { focus_target = t; focus_idx = k }) (split_count l)) 0 l.splits
        (λ i p e. (
          e.0 ∙ ap (λ (r : ℤ × ℤ). r.0) (sym (split_size-refocused l t k (split_count l) i z)),
          e.1 ∙ ap (λ (r : ℤ × ℤ). r.1) (sym (split_size-refocused l t k (split_count l) i z)),
        ))
        s.sizes;
  cache = s.cache ∙ sym (rects-refocused l t k (split_count l) z);
}

unzoomed-IsMarked :
    {l : Layout} (k : ℕ)
    → k ≤ split_count l - 1
    → l.split_zoomed ≡ false
    → IsMarked l
    → IsMarked (record l { focus_target = resources; focus_idx = k })
unzoomed-IsMarked {l} k h z m = record {
  idx = h;
  shown = λ e. cc e;
  zoomed = m.zoomed;
  has_split = m.has_split;
  borders =
      subst (λ b. Marked k b 0 l.splits) (sym z)
        (Marked-of-Flat k 0 l.splits (
          Flat-of-unmarked l.focus_idx 0 l.splits
            (subst (λ b. Marked l.focus_idx b 0 l.splits) z m.borders)));
}

-- The panes under a moved flag, which the zoom asks for.
moved-IsFocused :
    {l : Layout} (k : ℕ)
    → k ≤ split_count l - 1
    → l.split_zoomed ≡ true
    → WellFormed l
    → let m = retarget k l in
      IsFocused (record m {
        splits =
            modify k (set_borderless true) (modify l.focus_idx (set_borderless false) m.splits);
      })
unfolding reconcile_focus
moved-IsFocused {l} k h z w =
    let m = w.focused.marked in
    let t : Layout = record l { focus_target = resources; focus_idx = k } in
    let ps : List Pane = (reconcile_focus t).splits in
    let qs : List Pane = modify l.focus_idx (set_borderless false) ps in
    let n =
      length-modify k (set_borderless true) qs
      ∙ length-modify l.focus_idx (set_borderless false) ps
      ∙ split_count-reconcile_focus t in
    record {
      marked = record {
        idx = omega (arith, n, h);
        shown = λ e. cc e;
        zoomed = m.zoomed;
        has_split = λ e. omega (arith, m.has_split z, n);
        borders =
            Marked-modify (set_borderless true) k k l.split_zoomed 0 qs (omega arith) (λ _. sym z)
              (Flat-modify (set_borderless false) l.focus_idx l.focus_idx l.split_zoomed 0 ps
                (omega arith) (λ _. refl)
                (reconcile_focus-Marked t l.focus_idx l.split_zoomed m.borders));
      };
      focus_bits =
          Each-modify (FocusedAs t) (set_borderless true) 0 k qs (λ _ _ f. f)
            (Each-modify (FocusedAs t) (set_borderless false) 0 l.focus_idx ps (λ _ _ f. f)
              (reconcile_focus-FocusedAs t (λ e. cc e)));
    }

split_zoomed-retarget : (k : ℕ) (l : Layout) → (retarget k l).split_zoomed ≡ l.split_zoomed
unfolding reconcile_focus
split_zoomed-retarget k l = refl

-- The focus goes to the resources of a split, and under the split zoom the flag goes along.
moved-WellFormed :
    {l : Layout} (k : ℕ)
    → k ≤ split_count l - 1
    → WellFormed l
    → WellFormed (move_borderless_flag l.focus_idx k (retarget k l))
unfolding move_borderless_flag
moved-WellFormed {l} k h w =
    if-cases WellFormed (retarget k l).split_zoomed _ _
      (λ z. recalc_sizes-WellFormed (moved-IsFocused k h (sym (split_zoomed-retarget k l) ∙ z) w))
      (λ z.
        let off = sym (split_zoomed-retarget k l) ∙ z in
        record {
          focused = reconcile_focus-IsFocused (unzoomed-IsMarked k h off w.focused.marked);
          sized = reconcile_focus-IsSized (refocused-IsSized resources k off w.sized);
        })

aimed-IsSized : {l : Layout} (t : FocusTarget) → IsSized l → IsSized (record l { focus_target = t })
unfolding split_size rects
aimed-IsSized t s = record { sizes = s.sizes; cache = s.cache }

-- The focus stays on its split, and the input goes to `t`.
aimed-WellFormed :
    {l : Layout} (t : FocusTarget)
    → (t ≡ details → l.right_visible ≡ true)
    → WellFormed l
    → WellFormed (reconcile_focus (record l { focus_target = t }))
aimed-WellFormed {l} t shown w = record {
  focused = reconcile_focus-IsFocused (record {
    idx = w.focused.marked.idx;
    shown = shown;
    zoomed = w.focused.marked.zoomed;
    has_split = w.focused.marked.has_split;
    borders = w.focused.marked.borders;
  });
  sized = reconcile_focus-IsSized (aimed-IsSized t w.sized);
}

same-WellFormed : {l : Layout} → WellFormed l → WellFormed (retarget l.focus_idx l)
same-WellFormed w = aimed-WellFormed resources (λ e. cc e) w

cycle-WellFormed :
    {l : Layout} (k : ℕ) → k ≤ split_count l - 1 → WellFormed l → WellFormed (cycle k l)
cycle-WellFormed {l} k h w = elim (Bool-cases (l.focus_idx == k)) [
  | inl same ↦
      rw same
        (subst (λ i. WellFormed (retarget i l)) ((==_iff l.focus_idx k).0 same) (same-WellFormed w))
  | inr other ↦ rw other (moved-WellFormed k h w)
]

pub focus_next-WellFormed : {l : Layout} → WellFormed l → WellFormed (focus_next l)
unfolding focus_next
focus_next-WellFormed {l} w = elim (Bool-cases (split_count l == 0)) [
  | inl none ↦ rw none w
  | inr some_split ↦ rw some_split (
      cycle-WellFormed ((l.focus_idx + 1) % split_count l)
        (ground (arith, mod-lt (l.focus_idx + 1) {m = split_count l})) w)
]

pub focus_prev-WellFormed : {l : Layout} → WellFormed l → WellFormed (focus_prev l)
unfolding focus_prev
focus_prev-WellFormed {l} w = elim (Bool-cases (split_count l == 0)) [
  | inl none ↦ rw none w
  | inr some_split ↦ rw some_split (
      cycle-WellFormed ((l.focus_idx + split_count l - 1) % split_count l)
        (ground (arith, mod-lt (l.focus_idx + split_count l - 1) {m = split_count l})) w)
]

abbrev outside : ℤ → ℕ → Bool
outside i n = ltb_ℤ i (pos 0) || leb_ℤ (pos n) i

pub focus_split_at-WellFormed :
    (idx : ℤ) {l : Layout} → WellFormed l → WellFormed (focus_split_at idx l)
unfolding focus_split_at
focus_split_at-WellFormed idx {l} w = elim (Bool-cases (outside idx (split_count l))) [
  | inl out ↦ rw out w
  | inr within ↦ rw within (moved-WellFormed (pos_part idx) (ground arith) w)
]

pub move_focused_split-WellFormed :
    (delta : ℤ) {l : Layout} → WellFormed l → WellFormed (move_focused_split delta l)
unfolding move_focused_split
move_focused_split-WellFormed delta {l} w =
    let target = pos l.focus_idx +ℤ delta in
    elim (Bool-cases (outside target (split_count l))) [
      | inl out ↦ rw out w
      | inr within ↦ rw within (
          let m = w.focused.marked in
          let n = length-swap_at l.focus_idx (pos_part target) l.splits in
          recalc_sizes-WellFormed (
            reconcile_focus-IsFocused (record {
              idx = ground (arith, n);
              shown = λ e. cc e;
              zoomed = m.zoomed;
              has_split = λ z. omega (arith, m.has_split z, n);
              borders =
                  Marked-swap_at l.focus_idx (pos_part target) l.split_zoomed l.splits
                    (ground (arith, m.idx)) (ground arith) m.borders;
            })))
    ]

pub focus_resources-WellFormed : {l : Layout} → WellFormed l → WellFormed (focus_resources l)
unfolding focus_resources
focus_resources-WellFormed {l} w = same-WellFormed w

pub focus_details-WellFormed : {l : Layout} → WellFormed l → WellFormed (focus_details l)
unfolding focus_details
focus_details-WellFormed {l} w = elim (Bool-cases (l.right_visible && ltb 0 (split_count l))) [
  | inl open_panel ↦ rw open_panel (aimed-WellFormed details (λ _. ground arith) w)
  | inr other ↦ rw other w
]

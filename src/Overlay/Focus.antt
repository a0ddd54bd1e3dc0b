-- ===== src/Overlay/Focus.antt =====
-- The way of the focus around the inputs and the list.
use aku.Base.{
  ℕ, zero, suc, ◌+◌, ◌-◌, ◌==◌, ◌≤◌, ◌<◌, ◌≡◌, refl, sym, ap, subst, ◌∙◌, Bool, true, false, Option,
  none, some, ltb, leb, length, length-map, if◌then◌else◌, Bool-cases, inl, inr, arith,
}
use aku.WordMotion.{Unicode}
use aku.Overlay.{
  Overlay, TextInput, Measure, focus_input, focus_list, list_or_input, focus_next_input,
  focus_prev_input,
}
use aku.Overlay.Inv.{length-focus_from}

module _ {I R M : Type 0} (ti : TextInput I R M) (me : Measure) (u : Unicode R) where
  -- The focus behind one, of `n` inputs, and of the list if it has items.
  abbrev pub next_focus : ℕ → Bool → Option ℕ → Option ℕ
  next_focus n listed none = some 0
  next_focus n listed (some i) =
      if leb (n - 1) i then (if listed then none else some 0) else some (i + 1)

  abbrev pub prev_focus : ℕ → Bool → Option ℕ → Option ℕ
  prev_focus n listed none = some (n - 1)
  prev_focus n listed (some i) =
      if i == 0 then (if listed then none else some (n - 1)) else some (i - 1)

  -- What the focus depends on.
  abbrev Same : Overlay I → Option ℕ → Overlay I → Type 0
  Same o f p = (p.focus_idx ≡ f) × (length p.inputs ≡ length o.inputs) × (p.items ≡ o.items)

  focus_input-Same : (i : ℕ) (o : Overlay I) → Same o (some i) (focus_input ti me u i o)
  unfolding focus_input
  focus_input-Same i o = (refl, length-focus_from ti me u i 0 o.inputs, refl)

  focus_list-Same : (o : Overlay I) → Same o none (focus_list ti me u o)
  unfolding focus_list
  focus_list-Same o = (refl, length-map ti.blur o.inputs, refl)

  list_or_input-Same :
      (i : ℕ) (o : Overlay I)
      → Same o (if ltb 0 (length o.items) then none else some i) (list_or_input ti me u i o)
  list_or_input-Same i o = elim (Bool-cases (ltb 0 (length o.items))) [
    | inl e ↦ rw e (focus_list-Same o)
    | inr e ↦ rw e (focus_input-Same i o)
  ]

  focus_next_input-Same :
      (o : Overlay I)
      → 1 ≤ length o.inputs
      → Same o
          (next_focus (length o.inputs) (ltb 0 (length o.items)) o.focus_idx)
          (focus_next_input ti me u o)
  unfolding focus_next_input
  focus_next_input-Same o h =
      let some_inputs : (length o.inputs == 0) ≡ false = ground arith in
      rw some_inputs (go o.focus_idx)
    where
      go :
          (f : Option ℕ)
          → Same o
              (next_focus (length o.inputs) (ltb 0 (length o.items)) f)
              (elim f as (λ _. Overlay I) [
                | none ↦ focus_input ti me u 0 o
                | some i ↦
                    if leb (length o.inputs - 1) i
                    then list_or_input ti me u 0 o
                    else focus_input ti me u (i + 1) o
              ])
      go none = focus_input-Same 0 o
      go (some i) = elim (Bool-cases (leb (length o.inputs - 1) i)) [
        | inl e ↦ rw e (list_or_input-Same 0 o)
        | inr e ↦ rw e (focus_input-Same (i + 1) o)
      ]

  focus_prev_input-Same :
      (o : Overlay I)
      → 1 ≤ length o.inputs
      → Same o
          (prev_focus (length o.inputs) (ltb 0 (length o.items)) o.focus_idx)
          (focus_prev_input ti me u o)
  unfolding focus_prev_input
  focus_prev_input-Same o h =
      let some_inputs : (length o.inputs == 0) ≡ false = ground arith in
      rw some_inputs (go o.focus_idx)
    where
      go :
          (f : Option ℕ)
          → Same o
              (prev_focus (length o.inputs) (ltb 0 (length o.items)) f)
              (elim f as (λ _. Overlay I) [
                | none ↦ focus_input ti me u (length o.inputs - 1) o
                | some i ↦
                    if i == 0
                    then list_or_input ti me u (length o.inputs - 1) o
                    else focus_input ti me u (i - 1) o
              ])
      go none = focus_input-Same (length o.inputs - 1) o
      go (some i) = elim (Bool-cases (i == 0)) [
        | inl e ↦ rw e (list_or_input-Same (length o.inputs - 1) o)
        | inr e ↦ rw e (focus_input-Same (i - 1) o)
      ]

  -- The focus is at an input, or at a list with items.
  abbrev pub IsFocus : ℕ → Bool → Option ℕ → Type 0
  IsFocus n listed none = listed ≡ true
  IsFocus n listed (some i) = i < n

  prev_focus-next_focus :
      (n : ℕ) (listed : Bool) (f : Option ℕ)
      → 1 ≤ n
      → IsFocus n listed f
      → prev_focus n listed (next_focus n listed f) ≡ f
  prev_focus-next_focus n true none h k = refl
  prev_focus-next_focus n false none h k = absurd (ground arith)
  prev_focus-next_focus n true (some i) h k = elim (Bool-cases (leb (n - 1) i)) [
    | inl e ↦ rw e (ap (λ x. some x) (ground arith))
    | inr e ↦
        let behind : (i + 1 == 0) ≡ false = ground arith in
        rw (e, behind) (ap (λ x. some x) (omega arith))
  ]
  prev_focus-next_focus n false (some i) h k = elim (Bool-cases (leb (n - 1) i)) [
    | inl e ↦ rw e (ap (λ x. some x) (ground arith))
    | inr e ↦
        let behind : (i + 1 == 0) ≡ false = ground arith in
        rw (e, behind) (ap (λ x. some x) (omega arith))
  ]

  next_focus-inner :
      (n k : ℕ) (listed : Bool) → suc k < n → next_focus n listed (some k) ≡ some (suc k)
  next_focus-inner n k listed h =
      let more : leb (n - 1) k ≡ false = ground arith in rw more (ap (λ x. some x) (omega arith))

  next_focus-last : (n k : ℕ) → suc k ≡ n → next_focus n true (some k) ≡ none
  next_focus-last n k h = let last : leb (n - 1) k ≡ true = ground arith in rw last refl

  -- Where the focus is at an input, or at a list with items, it comes back from a step forth and one
  -- back.
  pub focus_prev_input-focus_next_input :
      (o : Overlay I)
      → 1 ≤ length o.inputs
      → IsFocus (length o.inputs) (ltb 0 (length o.items)) o.focus_idx
      → (focus_prev_input ti me u (focus_next_input ti me u o)).focus_idx ≡ o.focus_idx
  focus_prev_input-focus_next_input o h k =
      let (f, n, items) = focus_next_input-Same o h in
      let back = focus_prev_input-Same (focus_next_input ti me u o) (omega (arith, n, h)) in
      back.0
      ∙ rw (n, items, f)
          (prev_focus-next_focus (length o.inputs) (ltb 0 (length o.items)) o.focus_idx h k)

  abbrev pub next_times : ℕ → Overlay I → Overlay I
  next_times zero o = o
  next_times (suc k) o = focus_next_input ti me u (next_times k o)

  next_times-Same :
      (k : ℕ) (o : Overlay I)
      → o.focus_idx ≡ none
      → k < length o.inputs
      → Same o (some k) (next_times (suc k) o)
  next_times-Same zero o e h =
      subst
        (λ f.
          Same o (next_focus (length o.inputs) (ltb 0 (length o.items)) f)
            (focus_next_input ti me u o))
        e (focus_next_input-Same o (omega (arith, h)))
  next_times-Same (suc k) o e h =
      let p = next_times (suc k) o in
      let (f, n, items) = next_times-Same k o e (omega (arith, h)) in
      let (g, m, same) = focus_next_input-Same p (omega (arith, n, h)) in
      let listed = ltb 0 (length p.items) in
      (
        g
            ∙ ap (next_focus (length p.inputs) listed) f
            ∙ next_focus-inner (length p.inputs) k listed (omega (arith, n, h)),
        m ∙ n,
        same ∙ items,
      )

  next_times-back :
      (m : ℕ) (o : Overlay I)
      → o.focus_idx ≡ none
      → 1 ≤ length o.items
      → suc m ≡ length o.inputs
      → (next_times (suc (suc m)) o).focus_idx ≡ none
  next_times-back m o e h k =
      let p = next_times (suc m) o in
      let (f, n, items) = next_times-Same m o e (omega (arith, k)) in
      let (g, _, _) = focus_next_input-Same p (omega (arith, n, k)) in
      let listed : ltb 0 (length p.items) ≡ true =
        ap (λ xs. ltb 0 (length xs)) items ∙ ground (arith, h) in
      g
      ∙ ap (next_focus (length p.inputs) (ltb 0 (length p.items))) f
      ∙ ap (λ b. next_focus (length p.inputs) b (some m)) listed
      ∙ next_focus-last (length p.inputs) m (k ∙ sym n)

  -- From a list with items, so many steps as there are inputs visit each of them in order, and one more
  -- leads back to the list.
  pub next_times_lem :
      (o : Overlay I)
      → o.focus_idx ≡ none
      → 1 ≤ length o.items
      → ((k : ℕ) → k < length o.inputs → (next_times (suc k) o).focus_idx ≡ some k)
        × (1 ≤ length o.inputs → (next_times (suc (length o.inputs)) o).focus_idx ≡ none)
  next_times_lem o e h = (
    λ k small. (next_times-Same k o e small).0,
    λ some_input.
        let whole : suc (length o.inputs - 1) ≡ length o.inputs = omega (arith, some_input) in
        subst (λ n. (next_times (suc n) o).focus_idx ≡ none) whole
          (next_times-back (length o.inputs - 1) o e h whole),
  )

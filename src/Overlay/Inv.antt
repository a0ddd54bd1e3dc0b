-- ===== src/Overlay/Inv.antt =====
-- The cursor, window and focus of every overlay.
use aku.Base.{
  ℕ, suc, ◌+◌, ◌-◌, ◌==◌, ◌≤◌, ◌<◌, ◌≡◌, refl, ap, subst, String, Bool, true, false, Option, none,
  some, List, [], ◌∷◌, ◌++◌, ltb, leb, max, length, modify, length-map, length-append,
  length-modify, if◌then◌else◌, if-cases, Bool-cases, inl, inr, ℤ, pos, pos_part, sub_ℕ, arith,
}
use aku.WordMotion.{Unicode}
use aku.WordMotion.Keys.{Key, Code, key_up, key_down}
use aku.Overlay.{
  Overlay, TextInput, Measure, Msg, new_overlay, reset, effective_max_visible, clamp_cursor,
  set_items, handle_list_keys, sync_input, compute_inner_width, sync_input_widths, set_size,
  add_input, focus_from, focus_input, focus_list, list_or_input, focus_next_input, focus_prev_input,
  updated, update_inputs,
}
use aku.Overlay.Cursor.{scroll_to-window, effective_max_visible-pos}

module _ {I R M : Type 0} (ti : TextInput I R M) (me : Measure) (u : Unicode R) where
  abbrev pub HasFocus : Option ℕ → ℕ → Type 0
  HasFocus none n = Unit {0}
  HasFocus (some i) n = i < n

  -- The cursor is at an item, or at 0, and not before the window; the focus is at the list or an input.
  abbrev pub IsWellFormed : Overlay I → Type 0
  IsWellFormed o =
      (o.cursor < max (length o.items) 1)
      × (o.offset ≤ o.cursor)
      × HasFocus o.focus_idx (length o.inputs)

  pub clamp_cursor-IsWellFormed :
      (c : ℤ) (o : Overlay I)
      → HasFocus o.focus_idx (length o.inputs)
      → IsWellFormed (clamp_cursor ti me u c o)
  unfolding clamp_cursor
  clamp_cursor-IsWellFormed c o h = elim (Bool-cases (length o.items == 0)) [
    | inl e ↦ rw e (omega arith, omega arith, h)
    | inr e ↦
        let n = length o.items in
        let at = (if leb n (pos_part c) then n - 1 else pos_part c) in
        let some_items : 1 ≤ n = ground arith in
        let small : at < max n 1 = ground arith in
        rw e (
          small,
          (scroll_to-window ti me u (effective_max_visible ti me u o) o.offset at
              (effective_max_visible-pos ti me u o)).0,
          h,
        )
  ]

  pub length-focus_from : (i j : ℕ) (xs : List I) → length (focus_from ti me u i j xs) ≡ length xs
  length-focus_from i j [] = refl
  length-focus_from i j (x ∷ xs) = ap suc (length-focus_from i (j + 1) xs)

  -- The focus may go to any input that there is.
  pub focus_input-IsWellFormed :
      (i : ℕ) (o : Overlay I)
      → i < length o.inputs
      → IsWellFormed o
      → IsWellFormed (focus_input ti me u i o)
  unfolding focus_input
  focus_input-IsWellFormed i o h (c, w, f) =
      (c, w, omega (arith, h, length-focus_from i 0 o.inputs))

  focus_list-IsWellFormed : (o : Overlay I) → IsWellFormed o → IsWellFormed (focus_list ti me u o)
  unfolding focus_list
  focus_list-IsWellFormed o (c, w, f) = (c, w, tt)

  list_or_input-IsWellFormed :
      (i : ℕ) (o : Overlay I)
      → i < length o.inputs
      → IsWellFormed o
      → IsWellFormed (list_or_input ti me u i o)
  list_or_input-IsWellFormed i o h w =
      if-cases IsWellFormed (ltb 0 (length o.items)) (focus_list ti me u o)
        (focus_input ti me u i o) (λ _. focus_list-IsWellFormed o w)
        (λ _. focus_input-IsWellFormed i o h w)

  focus_next_input-IsWellFormed :
      (o : Overlay I) → IsWellFormed o → IsWellFormed (focus_next_input ti me u o)
  unfolding focus_next_input
  focus_next_input-IsWellFormed o w =
      if-cases IsWellFormed (length o.inputs == 0) o _ (λ _. w)
        (λ e. go o w (ground arith) o.focus_idx)
    where
      go :
          (o : Overlay I)
          → IsWellFormed o
          → 1 ≤ length o.inputs
          → (f : Option ℕ)
          → IsWellFormed (elim f [
            | none ↦ focus_input ti me u 0 o
            | some i ↦
                if leb (length o.inputs - 1) i
                then list_or_input ti me u 0 o
                else focus_input ti me u (i + 1) o
          ])
      go o w h none = focus_input-IsWellFormed 0 o h w
      go o w h (some i) =
          if-cases IsWellFormed (leb (length o.inputs - 1) i) _ _
            (λ _. list_or_input-IsWellFormed 0 o h w)
            (λ e. focus_input-IsWellFormed (i + 1) o (ground arith) w)

  focus_prev_input-IsWellFormed :
      (o : Overlay I) → IsWellFormed o → IsWellFormed (focus_prev_input ti me u o)
  unfolding focus_prev_input
  focus_prev_input-IsWellFormed o w =
      if-cases IsWellFormed (length o.inputs == 0) o _ (λ _. w)
        (λ e. go o w (ground arith) o.focus_idx refl)
    where
      go :
          (o : Overlay I)
          → IsWellFormed o
          → 1 ≤ length o.inputs
          → (f : Option ℕ) → o.focus_idx ≡ f
          → IsWellFormed (elim f [
            | none ↦ focus_input ti me u (length o.inputs - 1) o
            | some i ↦
                if i == 0
                then list_or_input ti me u (length o.inputs - 1) o
                else focus_input ti me u (i - 1) o
          ])
      go o w h none e = focus_input-IsWellFormed (length o.inputs - 1) o (omega (arith, h)) w
      go o w h (some i) e =
          let f : HasFocus (some i) (length o.inputs) =
            subst (λ x. HasFocus x (length o.inputs)) e w.2 in
          if-cases IsWellFormed (i == 0) _ _
            (λ _. list_or_input-IsWellFormed (length o.inputs - 1) o (omega (arith, h)) w)
            (λ _. focus_input-IsWellFormed (i - 1) o (omega (arith, f)) w)

  -- The overlays that come of a new one by calls. Texts and sizes that are only stored are any.
  pub data Reach : Overlay I → Type 0 where
    started : Reach new_overlay
    was_reset : {o : Overlay I} → Reach o → Reach (reset ti me u o)
    configured :
        (a v : Bool) (title content footer msg : String) (w mv post : ℕ) {o : Overlay I}
        → Reach o
        → Reach (record o {
          is_active = a;
          items_set = v;
          title = title;
          content = content;
          footer = footer;
          no_items_msg = msg;
          fixed_width = w;
          max_visible = mv;
          post_list_input_idx = post;
        })
    sized : (w h : ℕ) {o : Overlay I} → Reach o → Reach (set_size ti me u w h o)
    listed : (items : List String) {o : Overlay I} → Reach o → Reach (set_items ti me u items o)
    pointed : (c : ℤ) {o : Overlay I} → Reach o → Reach (clamp_cursor ti me u c o)
    pressed : (k : Key) {o : Overlay I} → Reach o → Reach (handle_list_keys ti me u k o).0
    extended : (i : I) {o : Overlay I} → Reach o → Reach (add_input ti me u i o)
    focused :
        (i : ℕ) {o : Overlay I} → i < length o.inputs → Reach o → Reach (focus_input ti me u i o)
    unfocused : {o : Overlay I} → Reach o → Reach (focus_list ti me u o)
    went_on : {o : Overlay I} → Reach o → Reach (focus_next_input ti me u o)
    went_back : {o : Overlay I} → Reach o → Reach (focus_prev_input ti me u o)
    edited : (msg : Msg M) {o : Overlay I} → Reach o → Reach (update_inputs ti me u msg o)

  HasFocus-le : (f : Option ℕ) (m n : ℕ) → m ≤ n → HasFocus f m → HasFocus f n
  HasFocus-le none m n h k = tt
  HasFocus-le (some i) m n h k = omega (arith, h, k)

  pub sync_input_widths-IsWellFormed :
      (o : Overlay I) → IsWellFormed o → IsWellFormed (sync_input_widths ti me u o)
  unfolding sync_input_widths
  sync_input_widths-IsWellFormed o (c, w, f) =
      (c, w, rw (length-map (sync_input ti me u (compute_inner_width ti me u o)) o.inputs) f)

  pub add_input-IsWellFormed :
      (i : I) (o : Overlay I) → IsWellFormed o → IsWellFormed (add_input ti me u i o)
  unfolding add_input
  add_input-IsWellFormed i o (c, w, f) =
      sync_input_widths-IsWellFormed (record o { inputs = o.inputs ++ i ∷ [] })
        (
          c,
          w,
          HasFocus-le o.focus_idx (length o.inputs) (length (o.inputs ++ i ∷ []))
              (omega (arith, length-append o.inputs (i ∷ []))) f,
        )

  pub update_inputs-IsWellFormed :
      (msg : Msg M) (o : Overlay I) → IsWellFormed o → IsWellFormed (update_inputs ti me u msg o)
  unfolding update_inputs
  update_inputs-IsWellFormed msg o w = go o.focus_idx
    where
      go :
          (f : Option ℕ)
          → IsWellFormed (elim f [
            | none ↦ o
            | some i ↦ record o { inputs = modify i (updated ti me u msg) o.inputs }
          ])
      go none = w
      go (some i) = (w.0, w.1, rw (length-modify i (updated ti me u msg) o.inputs) w.2)

  pub handle_list_keys-IsWellFormed :
      (k : Key) (o : Overlay I) → IsWellFormed o → IsWellFormed (handle_list_keys ti me u k o).0
  unfolding handle_list_keys
  handle_list_keys-IsWellFormed k o w = go k.code
    where
      go :
          (c : Code)
          → IsWellFormed
              (elim c as (λ _. Overlay I × Bool) [
                | key_down ↦ (clamp_cursor ti me u (pos (o.cursor + 1)) o, true)
                | key_up ↦ (clamp_cursor ti me u (sub_ℕ o.cursor 1) o, true)
                | _ ↦ (o, false)
              ]).0
      go key_down = clamp_cursor-IsWellFormed (pos (o.cursor + 1)) o w.2
      go key_up = clamp_cursor-IsWellFormed (sub_ℕ o.cursor 1) o w.2
      go _ = w

  -- In every overlay the cursor is at an item, or at 0 if there is none, and not before the window,
  -- and the focus is at the list or at an input that there is.
  pub Reach-IsWellFormed : (o : Overlay I) → Reach o → IsWellFormed o
  unfolding reset set_items set_size new_overlay
  Reach-IsWellFormed _ started = (omega arith, omega arith, tt)
  Reach-IsWellFormed _ (was_reset r) = (omega arith, omega arith, tt)
  Reach-IsWellFormed _ (configured a v title content footer msg w mv post r) =
      Reach-IsWellFormed _ r
  Reach-IsWellFormed _ (sized w h {o = p} r) =
      sync_input_widths-IsWellFormed (record p { width = w; height = h }) (Reach-IsWellFormed p r)
  Reach-IsWellFormed _ (listed items {o = p} r) =
      clamp_cursor-IsWellFormed (pos 0)
        (record p { items = items; items_set = true; cursor = 0; offset = 0 })
        (Reach-IsWellFormed p r).2
  Reach-IsWellFormed _ (pointed c {o = p} r) =
      clamp_cursor-IsWellFormed c p (Reach-IsWellFormed p r).2
  Reach-IsWellFormed _ (pressed k {o = p} r) =
      handle_list_keys-IsWellFormed k p (Reach-IsWellFormed p r)
  Reach-IsWellFormed _ (extended i {o = p} r) = add_input-IsWellFormed i p (Reach-IsWellFormed p r)
  Reach-IsWellFormed _ (focused i {o = p} h r) =
      focus_input-IsWellFormed i p h (Reach-IsWellFormed p r)
  Reach-IsWellFormed _ (unfocused {o = p} r) = focus_list-IsWellFormed p (Reach-IsWellFormed p r)
  Reach-IsWellFormed _ (went_on {o = p} r) =
      focus_next_input-IsWellFormed p (Reach-IsWellFormed p r)
  Reach-IsWellFormed _ (went_back {o = p} r) =
      focus_prev_input-IsWellFormed p (Reach-IsWellFormed p r)
  Reach-IsWellFormed _ (edited msg {o = p} r) =
      update_inputs-IsWellFormed msg p (Reach-IsWellFormed p r)

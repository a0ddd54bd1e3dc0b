-- ===== src/Picker/Shown.antt =====
-- What a picker shows and selects.
use aku.Base.{
  ℕ, zero, suc, ◌+◌, ◌≤◌, ◌<◌, ◌≡◌, refl, sym, ap, ◌∙◌, String, Bool, true, false, ◌&&◌, ◌==◌,
  Option, none, some, List, [], ◌∷◌, map, ltb, length, get_elem?, get_elem?-of_lt, length-map, ℤ,
  pos, sub_ℕ, if◌then◌else◌, if-cases, arith,
}
use aku.WordMotion.{Unicode}
use aku.WordMotion.Keys.{Key, Code, key_up, key_down, key_enter, key_escape}
use aku.Overlay.{
  Overlay, TextInput, Measure, Msg, key_press, other_message, new_overlay, reset, set_items,
  set_size, sync_input_widths, sync_input, compute_inner_width, clamp_cursor, selected_item,
  handle_list_keys, add_input, focus_input, update_inputs,
}
use aku.Overlay.Cursor.{clamp_cursor-rest}
use aku.Overlay.Inv.{
  IsWellFormed, HasFocus, clamp_cursor-IsWellFormed, handle_list_keys-IsWellFormed,
  update_inputs-IsWellFormed, sync_input_widths-IsWellFormed,
}
use aku.Picker.{
  Picker, PickerConfig, Button, wheel_up, wheel_down, other_button, configured, new_picker,
  query_of, apply_filter, set_all, set_display, open_picker, close_picker, resize_picker,
  press_arrow, scroll_wheel, type_key, update,
}

-- A text input keeps its value where its width, cursor and focus change.
pub record KeepsValue {I R M : Type 0} (ti : TextInput I R M) : Type 0 where
  pub set_width-value : (w : ℕ) (i : I) → ti.value (ti.set_width w i) ≡ ti.value i
  pub put_cursor-value : (c : ℤ) (i : I) → ti.value (ti.put_cursor c i) ≡ ti.value i

module _ {I R M : Type 0} (ti : TextInput I R M) (me : Measure) (u : Unicode R) where
  -- A list key changes neither items nor inputs.
  handle_list_keys-rest :
      (k : Key) (o : Overlay I)
      → ((handle_list_keys ti me u k o).0.items ≡ o.items)
        × ((handle_list_keys ti me u k o).0.inputs ≡ o.inputs)
  unfolding handle_list_keys
  handle_list_keys-rest k o = go k.code
    where
      go :
          (c : Code)
          → let p =
              (elim c as (λ _. Overlay I × Bool) [
                | key_down ↦ (clamp_cursor ti me u (pos (o.cursor + 1)) o, true)
                | key_up ↦ (clamp_cursor ti me u (sub_ℕ o.cursor 1) o, true)
                | _ ↦ (o, false)
              ]).0 in
            (p.items ≡ o.items) × (p.inputs ≡ o.inputs)
      go key_down = let (a, b, _) = clamp_cursor-rest ti me u (pos (o.cursor + 1)) o in (a, b)
      go key_up = let (a, b, _) = clamp_cursor-rest ti me u (sub_ℕ o.cursor 1) o in (a, b)
      go _ = (refl, refl)

  sync-query :
      (keeps : KeepsValue ti) (w : ℕ) (xs : List I)
      → query_of ti (map (sync_input ti me u w) xs) ≡ query_of ti xs
  sync-query keeps w [] = refl
  sync-query keeps w (x ∷ xs) = keeps.put_cursor-value _ _ ∙ keeps.set_width-value _ _

module _ {T I R M : Type 0} (ti : TextInput I R M) (me : Measure) (u : Unicode R) where
  -- The rows are those that the filter leaves of all items for the query, as they are displayed, and
  -- the cursor is at one of them, or at 0.
  abbrev pub IsShown : Picker T I R → Type 0
  IsShown p =
      (p.filtered ≡ p.cfg.filter (query_of ti p.overlay.inputs) p.all)
      × (p.overlay.items ≡ map p.cfg.display p.filtered)
      × IsWellFormed ti me u p.overlay

  apply_filter-IsShown :
      (p : Picker T I R)
      → HasFocus ti me u p.overlay.focus_idx (length p.overlay.inputs)
      → IsShown (apply_filter ti me u p)
  unfolding apply_filter set_items
  apply_filter-IsShown p h =
      let items = map p.cfg.display (p.cfg.filter (query_of ti p.overlay.inputs) p.all) in
      let o = p.overlay in
      let set = record o { items = items; items_set = true; cursor = 0; offset = 0 } in
      let (same_items, same_inputs, _) = clamp_cursor-rest ti me u (pos 0) set in
      (
        ap (λ xs. p.cfg.filter (query_of ti xs) p.all) (sym same_inputs),
        same_items,
        clamp_cursor-IsWellFormed ti me u (pos 0) set h,
      )

  press_arrow-IsShown : (k : Key) (p : Picker T I R) → IsShown p → IsShown (press_arrow ti me u k p)
  press_arrow-IsShown k p (f, s, w) =
      let (items, inputs) = handle_list_keys-rest ti me u k p.overlay in
      (
        f ∙ ap (λ xs. p.cfg.filter (query_of ti xs) p.all) (sym inputs),
        items ∙ s,
        handle_list_keys-IsWellFormed ti me u k p.overlay w,
      )

  type_key-IsShown : (k : Key) (p : Picker T I R) → IsShown p → IsShown (type_key ti me u k p)
  type_key-IsShown k p (f, s, w) =
      apply_filter-IsShown (record p { overlay = update_inputs ti me u (key_press k) p.overlay })
        (update_inputs-IsWellFormed ti me u (key_press k) p.overlay w).2

  update-IsShown : (msg : Msg M) (p : Picker T I R) → IsShown p → IsShown (update ti me u msg p).0
  unfolding update close_picker
  update-IsShown (other_message m) p h = h
  update-IsShown (key_press k) p (f, s, w) = go k.code
    where
      go :
          (c : Code)
          → IsShown
              (elim c as (λ _. Picker T I R × Option T) [
                | key_enter ↦
                    if ltb 0 (length p.filtered) && ltb p.overlay.cursor (length p.filtered)
                    then (close_picker ti me u p, get_elem? p.filtered p.overlay.cursor)
                    else (close_picker ti me u p, none)
                | key_escape ↦ (close_picker ti me u p, none)
                | key_up ↦ (press_arrow ti me u k p, none)
                | key_down ↦ (press_arrow ti me u k p, none)
                | _ ↦ (type_key ti me u k p, none)
              ]).0
      go key_enter =
          if-cases (λ (r : Picker T I R × Option T). IsShown r.0)
            (ltb 0 (length p.filtered) && ltb p.overlay.cursor (length p.filtered)) _ _
            (λ _. (f, s, w)) (λ _. (f, s, w))
      go key_escape = (f, s, w)
      go key_up = press_arrow-IsShown k p (f, s, w)
      go key_down = press_arrow-IsShown k p (f, s, w)
      go _ = type_key-IsShown k p (f, s, w)

  open_picker-IsShown : (p : Picker T I R) → IsShown (open_picker ti me u p)
  unfolding open_picker focus_input add_input sync_input_widths reset
  open_picker-IsShown p =
      let opened = reset ti me u p.overlay in
      let ready = configured ti me u p.cfg (record opened { is_active = true }) in
      let typing = add_input ti me u (ti.focus (ti.new_input "Filter: ")) ready in
      apply_filter-IsShown (record p { overlay = focus_input ti me u 0 typing }) (omega arith)

  -- The pickers that come of a new one by calls.
  pub data Reach : Picker T I R → Type 0 where
    made :
        (c : PickerConfig T R) (w h : ℕ)
        → ((q : List R) → c.filter q [] ≡ [])
        → Reach (new_picker ti me u c w h)
    filled : (items : List T) {p : Picker T I R} → Reach p → Reach (set_all ti me u items p)
    displayed :
        (display : T → String) {p : Picker T I R} → Reach p → Reach (set_display ti me u display p)
    opened : {p : Picker T I R} → Reach p → Reach (open_picker ti me u p)
    closed : {p : Picker T I R} → Reach p → Reach (close_picker ti me u p)
    resized : (w h : ℕ) {p : Picker T I R} → Reach p → Reach (resize_picker ti me u w h p)
    scrolled : (b : Button) {p : Picker T I R} → Reach p → Reach (scroll_wheel ti me u b p)
    updated : (msg : Msg M) {p : Picker T I R} → Reach p → Reach (update ti me u msg p).0

  map-get :
      (f : T → String) (xs : List T) (i : ℕ) (t : T)
      → get_elem? xs i ≡ some t
      → get_elem? (map f xs) i ≡ some (f t)
  map-get f [] i t h = absurd (ground (arith, h))
  map-get f (x ∷ xs) zero t h =
      ap (λ o. elim o as (λ _. Option String) [ none ↦ none | some y ↦ some (f y) ]) h
  map-get f (x ∷ xs) (suc i) t h = map-get f xs i t h

  module _ (keeps : KeepsValue ti) where
    resize_picker-IsShown :
        (w h : ℕ) (p : Picker T I R) → IsShown p → IsShown (resize_picker ti me u w h p)
    unfolding resize_picker set_size sync_input_widths
    resize_picker-IsShown w h p (f, s, ok) =
        let o = p.overlay in
        let sized = record o { width = w; height = h } in
        (
          f
              ∙ ap (λ q. p.cfg.filter q p.all)
                  (sym (sync-query ti me u keeps (compute_inner_width ti me u sized) o.inputs)),
          s,
          sync_input_widths-IsWellFormed ti me u sized ok,
        )

    -- In every picker the rows are what the filter leaves of all items for the query, as they are
    -- displayed, and the cursor is at one of them, or at 0 if there is none; a filter leaves nothing of
    -- no items, and an input keeps its value where its width and cursor change.
    pub Reach-IsShown : (p : Picker T I R) → Reach p → IsShown p
    unfolding new_picker set_all set_display close_picker scroll_wheel set_size sync_input_widths
        new_overlay
    Reach-IsShown _ (made c w h nothing) = (sym (nothing []), refl, (omega arith, omega arith, tt))
    Reach-IsShown _ (filled items {p = p} r) =
        apply_filter-IsShown (record p { all = items }) (Reach-IsShown p r).2.2
    Reach-IsShown _ (displayed d {p = p} r) =
        let c = p.cfg in
        apply_filter-IsShown (record p { cfg = record c { display = d } }) (Reach-IsShown p r).2.2
    Reach-IsShown _ (opened {p = p} r) = open_picker-IsShown p
    Reach-IsShown _ (closed {p = p} r) = Reach-IsShown p r
    Reach-IsShown _ (resized w h {p = p} r) = resize_picker-IsShown w h p (Reach-IsShown p r)
    Reach-IsShown _ (scrolled wheel_up {p = p} r) = press_arrow-IsShown _ p (Reach-IsShown p r)
    Reach-IsShown _ (scrolled wheel_down {p = p} r) = press_arrow-IsShown _ p (Reach-IsShown p r)
    Reach-IsShown _ (scrolled other_button {p = p} r) = Reach-IsShown p r
    Reach-IsShown _ (updated msg {p = p} r) = update-IsShown msg p (Reach-IsShown p r)

    -- Where rows are left, Enter closes the picker and selects the item behind the row at the cursor.
    pub enter_lem :
        (p : Picker T I R) (alt ctrl : Bool)
        → Reach p
        → 1 ≤ length p.filtered
        → (t : T) × (update ti me u
              (key_press (record { code = key_enter; alt = alt; ctrl = ctrl }))
              p
            ≡ (close_picker ti me u p, some t))
          × (selected_item ti me u p.overlay ≡ some (p.cfg.display t))
    unfolding update
    enter_lem p alt ctrl r h =
        let (_, shown, (small, _, _)) = Reach-IsShown p r in
        let size : length p.overlay.items ≡ length p.filtered =
          ap length shown ∙ length-map p.cfg.display p.filtered in
        let inside : p.overlay.cursor < length p.filtered = omega (arith, small, size, h) in
        let (t, e) = get_elem?-of_lt p.filtered p.overlay.cursor inside in
        let chosen : (ltb 0 (length p.filtered) && ltb p.overlay.cursor (length p.filtered))
            ≡ true =
          ground (arith, inside, h) in
        let items : (length p.overlay.items == 0) ≡ false = ground (arith, size, h) in
        (
          t,
          rw chosen (ap (λ x. (close_picker ti me u p, x)) e),
          rw items (
              ap (λ xs. get_elem? xs p.overlay.cursor) shown
              ∙ map-get p.cfg.display p.filtered p.overlay.cursor t e),
        )

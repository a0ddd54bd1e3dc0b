-- ===== src/Overlay.antt =====
-- internal/ui/overlay_panel.go: a panel with a list of items and text inputs. The text inputs, widths
-- of texts and borders are parameters; styles, commands and what the frame draws are left out. Sizes
-- are not negative.
pub mod Cursor
pub mod Inv
pub mod Focus
pub mod Rows
pub mod Tests
use aku.Base.{
  ℕ, zero, suc, ◌+◌, ◌-◌, ◌==◌, String, Bool, true, false, Option, none, some, List, [], ◌∷◌, ◌++◌,
  map, ltb, leb, min, max, length, get_elem?, take, drop, modify, if◌then◌else◌, ℤ, pos, pos_part,
  sub_ℕ,
}
use aku.WordMotion.{Unicode, next_word_boundary, prev_word_boundary}
use aku.WordMotion.Keys.{
  Key, Direction, forward, backward, key_up, key_down, word_motion_dir, word_delete_dir,
}

-- A Bubble Tea message.
pub data Msg (M : Type 0) : Type 0 where
  key_press : Key → Msg M
  other_message : M → Msg M

-- `textinput.Model`, of which a value is a list of runes.
pub record TextInput (I R M : Type 0) : Type 0 where
  pub new_input : String → I
  pub prompt : I → String
  pub value : I → List R
  pub set_value : List R → I → I
  pub position : I → ℕ
  pub put_cursor : ℤ → I → I
  pub set_width : ℕ → I → I
  pub focus : I → I
  pub blur : I → I
  pub update_input : Msg M → I → I

-- Widths of texts, in columns and bytes, and the columns of the border and padding.
pub record Measure : Type 0 where
  pub text_width : String → ℕ
  pub byte_length : String → ℕ
  pub chrome : ℕ

-- No focused input is the list.
pub record Overlay (I : Type 0) : Type 0 where
  pub is_active : Bool
  pub width : ℕ
  pub height : ℕ
  pub title : String
  pub content : String
  pub footer : String
  pub fixed_width : ℕ
  pub inputs : List I
  pub focus_idx : Option ℕ
  pub items : List String
  pub items_set : Bool
  pub cursor : ℕ
  pub offset : ℕ
  pub max_visible : ℕ
  pub no_items_msg : String
  pub post_list_input_idx : ℕ

-- An overlay that is new.
unfoldable pub new_overlay : {I : Type 0} → Overlay I
new_overlay = record {
  is_active = false;
  width = 0;
  height = 0;
  title = "";
  content = "";
  footer = "";
  fixed_width = 0;
  inputs = [];
  focus_idx = none;
  items = [];
  items_set = false;
  cursor = 0;
  offset = 0;
  max_visible = 0;
  no_items_msg = "(no items)";
  post_list_input_idx = 0;
}

module _ {I R M : Type 0} (ti : TextInput I R M) (me : Measure) (u : Unicode R) where
  unfoldable pub reset : Overlay I → Overlay I
  reset o = record o {
    is_active = false;
    inputs = [];
    focus_idx = none;
    content = "";
    items = [];
    items_set = false;
    cursor = 0;
    offset = 0;
    post_list_input_idx = 0;
  }

  abbrev pub effective_max_visible : Overlay I → ℕ
  effective_max_visible o = if ltb 0 o.max_visible then o.max_visible else max (o.height - 8) 1

  -- The window of `mv` rows from `offset` on, moved to the row `at`.
  abbrev pub scroll_to : ℕ → ℕ → ℕ → ℕ
  scroll_to mv offset at =
      let start = if ltb at offset then at else offset in
      if leb (start + mv) at then at - mv + 1 else start

  -- The cursor, which has just been set, is clamped.
  unfoldable pub clamp_cursor : ℤ → Overlay I → Overlay I
  clamp_cursor c o =
      let at = if leb (length o.items) (pos_part c) then length o.items - 1 else pos_part c in
      if length o.items == 0
      then record o { cursor = 0; offset = 0 }
      else record o { cursor = at; offset = scroll_to (effective_max_visible o) o.offset at }

  unfoldable pub set_items : List String → Overlay I → Overlay I
  set_items items o =
      clamp_cursor (pos 0) (record o { items = items; items_set = true; cursor = 0; offset = 0 })

  abbrev pub set_cursor : ℤ → Overlay I → Overlay I
  set_cursor at o = clamp_cursor at o

  -- Go panics out of range.
  abbrev pub selected_item : Overlay I → Option String
  selected_item o = if length o.items == 0 then some "" else get_elem? o.items o.cursor

  -- The overlay, and whether the key was handled.
  unfoldable pub handle_list_keys : Key → Overlay I → Overlay I × Bool
  handle_list_keys k o = elim k.code [
    | key_down ↦ (clamp_cursor (pos (o.cursor + 1)) o, true)
    | key_up ↦ (clamp_cursor (sub_ℕ o.cursor 1) o, true)
    | _ ↦ (o, false)
  ]

  abbrev pub widest : ℕ → List ℕ → ℕ
  widest w [] = w
  widest w (v ∷ vs) = widest (if ltb w v then v else w) vs

  -- The width with the border, which is fixed or fits what is shown.
  unfoldable pub compute_inner_width : Overlay I → ℕ
  compute_inner_width o =
      let shown =
        max (me.text_width o.content) (max (me.text_width o.footer) (me.text_width o.title)) in
      let with_items = widest shown (map (λ item. me.text_width item + 4) o.items) in
      let full =
        widest with_items (map (λ i. me.byte_length (ti.prompt i) + 20) o.inputs) + me.chrome in
      let upper = min (max o.width 26) 80 in
      let lower = if ltb full 26 then 26 else full in
      if ltb 0 o.fixed_width then o.fixed_width else if ltb upper lower then upper else lower

  abbrev pub sync_input : ℕ → I → I
  sync_input inner i =
      let sized = ti.set_width (max (inner - me.chrome - me.text_width (ti.prompt i) - 1) 1) i in
      ti.put_cursor (pos (ti.position sized)) sized

  unfoldable pub sync_input_widths : Overlay I → Overlay I
  sync_input_widths o = record o { inputs = map (sync_input (compute_inner_width o)) o.inputs }

  unfoldable pub set_size : ℕ → ℕ → Overlay I → Overlay I
  unfolding sync_input_widths
  set_size w h o = sync_input_widths (record o { width = w; height = h })

  unfoldable pub add_input : I → Overlay I → Overlay I
  unfolding sync_input_widths
  add_input i o = sync_input_widths (record o { inputs = o.inputs ++ i ∷ [] })

  -- Input `i` has the focus, of inputs from `j` on.
  abbrev pub focus_from : ℕ → ℕ → List I → List I
  focus_from i j [] = []
  focus_from i j (x ∷ xs) = (if j == i then ti.focus x else ti.blur x) ∷ focus_from i (j + 1) xs

  unfoldable pub focus_input : ℕ → Overlay I → Overlay I
  focus_input i o = record o { focus_idx = some i; inputs = focus_from i 0 o.inputs }

  unfoldable pub focus_list : Overlay I → Overlay I
  focus_list o = record o { focus_idx = none; inputs = map ti.blur o.inputs }

  -- To the list, if it has items, and else to an input.
  abbrev pub list_or_input : ℕ → Overlay I → Overlay I
  list_or_input i o = if ltb 0 (length o.items) then focus_list o else focus_input i o

  unfoldable pub focus_next_input : Overlay I → Overlay I
  focus_next_input o = if length o.inputs == 0 then o else elim o.focus_idx [
    | none ↦ focus_input 0 o
    | some i ↦ if leb (length o.inputs - 1) i then list_or_input 0 o else focus_input (i + 1) o
  ]

  unfoldable pub focus_prev_input : Overlay I → Overlay I
  focus_prev_input o = if length o.inputs == 0 then o else elim o.focus_idx [
    | none ↦ focus_input (length o.inputs - 1) o
    | some i ↦ if i == 0 then list_or_input (length o.inputs - 1) o else focus_input (i - 1) o
  ]

  abbrev pub move_word : Direction → I → I
  move_word forward i = ti.put_cursor (pos (next_word_boundary u (ti.value i) (ti.position i))) i
  move_word backward i = ti.put_cursor (prev_word_boundary u (ti.value i) (ti.position i)) i

  -- The cursor is in the value, so no boundary is negative.
  abbrev pub delete_word : Direction → I → I
  delete_word forward i =
      let runes = ti.value i in
      let at = ti.position i in
      ti.put_cursor (pos at)
        (ti.set_value (take at runes ++ drop (next_word_boundary u runes at) runes) i)
  delete_word backward i =
      let runes = ti.value i in
      let start = prev_word_boundary u runes (ti.position i) in
      ti.put_cursor start
        (ti.set_value (take (pos_part start) runes ++ drop (ti.position i) runes) i)

  -- The input after a key, if the key is one for words.
  unfoldable pub handle_word_key : Key → I → Option I
  handle_word_key k i = elim (word_motion_dir k) [
    | some d ↦ some (move_word d i)
    | none ↦ elim (word_delete_dir k) [ some d ↦ some (delete_word d i) | none ↦ none ]
  ]

  unfoldable pub updated : Msg M → I → I
  updated (key_press k) i = elim (handle_word_key k i) [
    | some changed ↦ changed
    | none ↦ ti.update_input (key_press k) i
  ]
  updated (other_message m) i = ti.update_input (other_message m) i

  unfoldable pub update_inputs : Msg M → Overlay I → Overlay I
  update_inputs msg o = elim o.focus_idx [
    | none ↦ o
    | some i ↦ record o { inputs = modify i (updated msg) o.inputs }
  ]

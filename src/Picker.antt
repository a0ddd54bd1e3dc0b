-- ===== src/Picker.antt =====
-- internal/ui/picker.go: an overlay that selects one of the items which a filter leaves. The display,
-- the filter and the command of a selection are parameters; a selection is returned as the item.
pub mod Shown
mod Tests
use aku.Base.{
  ℕ, zero, suc, ◌==◌, String, Bool, true, false, ◌&&◌, Option, none, some, List, [], ◌∷◌, map, ltb,
  length, get_elem?, str_eq, if◌then◌else◌,
}
use aku.WordMotion.{Unicode}
use aku.WordMotion.Keys.{Key, key_up, key_down, key_enter, key_escape}
use aku.Overlay.{
  Overlay, TextInput, Measure, Msg, key_press, other_message, new_overlay, reset, set_items,
  set_size, handle_list_keys, add_input, focus_input, update_inputs,
}

-- A query is a list of runes.
pub record PickerConfig (T R : Type 0) : Type 0 where
  pub title : String
  pub no_items_msg : String
  pub max_visible : ℕ
  pub display : T → String
  pub filter : List R → List T → List T

pub record Picker (T I R : Type 0) : Type 0 where
  pub overlay : Overlay I
  pub cfg : PickerConfig T R
  pub all : List T
  pub filtered : List T

pub data Button : Type 0 where
  wheel_up wheel_down other_button : Button

abbrev pub arrow : Button → Option Key
arrow wheel_up = some (record { code = key_up; alt = false; ctrl = false })
arrow wheel_down = some (record { code = key_down; alt = false; ctrl = false })
arrow other_button = none

-- The value of the first input.
module _ {I R M : Type 0} (ti : TextInput I R M) where
  abbrev pub query_of : List I → List R
  query_of [] = []
  query_of (i ∷ _) = ti.value i

module _ {T I R M : Type 0} (ti : TextInput I R M) (me : Measure) (u : Unicode R) where
  -- The title, message and number of rows of the configuration.
  abbrev pub configured : PickerConfig T R → Overlay I → Overlay I
  configured c o = record o {
    title = c.title;
    no_items_msg = if str_eq c.no_items_msg "" then o.no_items_msg else c.no_items_msg;
    max_visible = if ltb 0 c.max_visible then c.max_visible else o.max_visible;
  }

  unfoldable pub new_picker : PickerConfig T R → ℕ → ℕ → Picker T I R
  new_picker c w h =
      let sized = set_size ti me u w h (record (new_overlay) { title = c.title }) in
      record { overlay = configured c sized; cfg = c; all = []; filtered = [] }

  unfoldable pub apply_filter : Picker T I R → Picker T I R
  apply_filter p =
      let kept = p.cfg.filter (query_of ti p.overlay.inputs) p.all in
      record p { filtered = kept; overlay = set_items ti me u (map p.cfg.display kept) p.overlay }

  unfoldable pub set_all : List T → Picker T I R → Picker T I R
  unfolding apply_filter
  set_all items p = apply_filter (record p { all = items })

  unfoldable pub set_display : (T → String) → Picker T I R → Picker T I R
  unfolding apply_filter
  set_display display p =
      let c = p.cfg in apply_filter (record p { cfg = record c { display = display } })

  unfoldable pub open_picker : Picker T I R → Picker T I R
  unfolding apply_filter
  open_picker p =
      let opened = reset ti me u p.overlay in
      let ready = configured p.cfg (record opened { is_active = true }) in
      let typing = add_input ti me u (ti.focus (ti.new_input "Filter: ")) ready in
      apply_filter (record p { overlay = focus_input ti me u 0 typing })

  unfoldable pub close_picker : Picker T I R → Picker T I R
  close_picker p = let o = p.overlay in record p { overlay = record o { is_active = false } }

  unfoldable pub resize_picker : ℕ → ℕ → Picker T I R → Picker T I R
  resize_picker w h p = record p { overlay = set_size ti me u w h p.overlay }

  abbrev pub press_arrow : Key → Picker T I R → Picker T I R
  press_arrow k p = record p { overlay = (handle_list_keys ti me u k p.overlay).0 }

  unfoldable pub scroll_wheel : Button → Picker T I R → Picker T I R
  scroll_wheel b p = elim (arrow b) [ none ↦ p | some k ↦ press_arrow k p ]

  abbrev pub type_key : Key → Picker T I R → Picker T I R
  type_key k p = apply_filter (record p { overlay = update_inputs ti me u (key_press k) p.overlay })

  -- The picker, and what is selected.
  unfoldable pub update : Msg M → Picker T I R → Picker T I R × Option T
  unfolding close_picker apply_filter
  update (other_message m) p = (p, none)
  update (key_press k) p = elim k.code [
    | key_enter ↦
        if ltb 0 (length p.filtered) && ltb p.overlay.cursor (length p.filtered)
        then (close_picker p, get_elem? p.filtered p.overlay.cursor)
        else (close_picker p, none)
    | key_escape ↦ (close_picker p, none)
    | key_up ↦ (press_arrow k p, none)
    | key_down ↦ (press_arrow k p, none)
    | _ ↦ (type_key k p, none)
  ]

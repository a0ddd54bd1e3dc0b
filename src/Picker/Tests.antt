-- ===== src/Picker/Tests.antt =====
-- The theorems on a small picker.
use aku.Base.{ℕ, ◌≡◌, refl, String, false, some, List, [], ◌∷◌, arith}
use aku.WordMotion.Keys.{key_enter}
use aku.Overlay.{key_press, selected_item}
use aku.Overlay.Tests.{text_input, measure, unicode}
use aku.Picker.{Picker, PickerConfig, new_picker, set_all, close_picker, update}
use aku.Picker.Shown.{KeepsValue, IsShown, Reach, made, filled, Reach-IsShown, enter_lem}

-- The filter leaves all items.
abbrev config : PickerConfig String ℕ
config = record {
  title = "t";
  no_items_msg = "";
  max_visible = 0;
  display = λ s. s;
  filter = λ q xs. xs;
}

keeps : KeepsValue text_input
keeps = record { set_width-value = λ w i. refl; put_cursor-value = λ c i. refl }

abbrev picker : Picker String (List ℕ × ℕ) ℕ
picker =
    set_all text_input measure unicode ("a" ∷ "b" ∷ [])
      (new_picker text_input measure unicode config 80 24)

abbrev picker-Reach : Reach text_input measure unicode picker
picker-Reach = filled ("a" ∷ "b" ∷ []) (made config 80 24 (λ q. refl))

Reach-IsShown_example : IsShown text_input measure unicode picker
Reach-IsShown_example = Reach-IsShown text_input measure unicode keeps picker picker-Reach

enter_lem_example :
    (t : String) × (update text_input measure unicode
        (key_press (record { code = key_enter; alt = false; ctrl = false }))
        picker
      ≡ (close_picker text_input measure unicode picker, some t))
    × (selected_item text_input measure unicode picker.overlay ≡ some t)
unfolding set_all new_picker
enter_lem_example =
    enter_lem text_input measure unicode keeps picker false false picker-Reach (omega arith)

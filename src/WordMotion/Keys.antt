-- ===== src/WordMotion/Keys.antt =====
-- internal/ui/wordmotion.go: the keys that move or delete by words.
use aku.Base.{ℕ, Bool, ◌||◌, Option, none, some, if◌then◌else◌}

-- The key codes that the dialogs tell apart.
pub data Code : Type 0 where
  key_up key_down key_left key_right key_enter key_escape key_backspace key_delete : Code
  letter_b letter_d letter_f letter_w : Code
  other_code : ℕ → Code

-- A key press, with two of its modifiers.
pub record Key : Type 0 where
  pub code : Code
  pub alt : Bool
  pub ctrl : Bool

pub data Direction : Type 0 where
  forward backward : Direction

abbrev pub when : Bool → Direction → Option Direction
when b d = if b then some d else none

unfoldable pub word_motion_dir : Key → Option Direction
word_motion_dir k = elim k.code [
  | key_right ↦ when (k.alt || k.ctrl) forward
  | key_left ↦ when (k.alt || k.ctrl) backward
  | letter_f ↦ when k.alt forward
  | letter_b ↦ when k.alt backward
  | _ ↦ none
]

unfoldable pub word_delete_dir : Key → Option Direction
word_delete_dir k = elim k.code [
  | key_backspace ↦ when k.alt backward
  | key_delete ↦ when k.alt forward
  | letter_w ↦ when k.ctrl backward
  | letter_d ↦ when k.alt forward
  | _ ↦ none
]

-- ===== src/WordMotion.antt =====
-- internal/ui/wordmotion.go: the boundaries of sub-words, to which the cursor of a text input moves.
-- Go's `unicode` is a parameter.
pub mod Boundary
pub mod Keys
mod Tests
use aku.Base.{
  ℕ, zero, suc, ◌+◌, ◌-◌, ◌==◌, Bool, true, false, ◌&&◌, Option, none, some, List, ltb, leb, min,
  length, get_elem?, if◌then◌else◌, ℤ, pos, negsuc,
}

pub data CharClass : Type 0 where
  class_other class_letter class_digit : CharClass

-- `unicode.IsLetter` and `unicode.IsDigit`.
pub record Unicode (R : Type 0) : Type 0 where
  pub is_letter : R → Bool
  pub is_digit : R → Bool

abbrev pub same_class : CharClass → CharClass → Bool
same_class class_other class_other = true
same_class class_letter class_letter = true
same_class class_digit class_digit = true
same_class _ _ = false

module _ {R : Type 0} (u : Unicode R) where
  abbrev pub class_of : R → CharClass
  class_of r =
      if u.is_letter r then class_letter else if u.is_digit r then class_digit else class_other

  abbrev pub same_runes : Option R → Option R → Bool
  same_runes (some r) (some s) = same_class (class_of r) (class_of s)
  same_runes (some r) none = false
  same_runes none _ = false

  -- No boundary before position `i`: `classOf(runes[i-1]) == classOf(runes[i])`. Out of range, where
  -- Go panics, it is false.
  unfoldable pub same_at : List R → ℕ → Bool
  same_at runes i = same_runes (get_elem? runes (i - 1)) (get_elem? runes i)

  -- The loop to the right, on fuel.
  unfoldable pub next_loop : ℕ → List R → ℕ → ℕ
  next_loop zero runes at = at
  next_loop (suc fuel) runes at =
      let rest = next_loop fuel runes (at + 1) in
      if ltb at (length runes) && same_at runes at then rest else at

  -- A cursor is not negative.
  unfoldable pub next_word_boundary : List R → ℕ → ℕ
  next_word_boundary runes at =
      let n = length runes in
      let stop = next_loop (n - at) runes (at + 1) in if leb n at then n else stop

  unfoldable pub prev_loop : List R → ℕ → ℕ
  prev_loop runes zero = 0
  prev_loop runes (suc p) =
      let rest = prev_loop runes p in if same_at runes (suc p) then rest else suc p

  -- `pos--` and the loop; there is nothing to step back over in an empty value.
  abbrev pub step_back : List R → ℕ → ℤ
  step_back runes zero = negsuc 0
  step_back runes (suc p) = pos (prev_loop runes p)

  unfoldable pub prev_word_boundary : List R → ℕ → ℤ
  unfolding prev_loop
  prev_word_boundary runes at = if at == 0 then pos 0 else step_back runes (min at (length runes))

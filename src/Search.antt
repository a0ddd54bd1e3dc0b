-- ===== src/Search.antt =====
-- internal/ui/searchstate.go: the pattern of a search or filter, and the place among its matches.
-- The regular expressions are Go's, so `regexp.Compile` is an argument that fails or gives one.
-- `MatchCount` is the length of a list; it is set by the panes.
pub mod Cycle
pub mod Shown
mod Tests
use aku.Base.{
  ℕ, ◌+◌, ◌-◌, ◌%◌, String, Bool, true, false, Option, none, some, ◌==◌, str_eq, str_append,
  if◌then◌else◌,
}

pub data SearchMode : Type 0 where
  search filter : SearchMode

pub record SearchState (Re : Type 0) : Type 0 where
  pub pattern : String
  pub mode : SearchMode
  pub re : Option Re
  pub match_count : ℕ
  pub current_idx : ℕ

-- `(*regexp.Regexp, error)`.
pub data Compiled (Re Err : Type 0) : Type 0 where
  expression : Re → Compiled Re Err
  refused : Err → Compiled Re Err

module _ {Re : Type 0} where
  unfoldable pub clear : SearchState Re → SearchState Re
  clear s = record s { pattern = ""; re = none; match_count = 0; current_idx = 0 }

  unfoldable pub active : SearchState Re → Bool
  active s = elim s.re [ none ↦ false | some _ ↦ true ]

  unfoldable pub display_pattern : SearchState Re → String
  unfolding active
  display_pattern s = if active s then s.pattern else ""

  -- With the index that Go returns.
  unfoldable pub next_idx : SearchState Re → SearchState Re × ℕ
  next_idx s =
      let i = (s.current_idx + 1) % s.match_count in
      if s.match_count == 0 then (s, 0) else (record s { current_idx = i }, i)

  -- `CurrentIdx - 1 + MatchCount`, with the subtraction last.
  unfoldable pub prev_idx : SearchState Re → SearchState Re × ℕ
  prev_idx s =
      let i = (s.current_idx + s.match_count - 1) % s.match_count in
      if s.match_count == 0 then (s, 0) else (record s { current_idx = i }, i)

  module _ {Err : Type 0} (regexp : String → Compiled Re Err) where
    abbrev pub compiled :
        String → SearchMode → SearchState Re → Compiled Re Err → SearchState Re × Option Err
    compiled pattern mode s (refused e) = (s, some e)
    compiled pattern mode s (expression re) = (
      record { pattern = pattern; mode = mode; re = some re; match_count = 0; current_idx = 0 },
      none,
    )

    unfoldable pub compile : String → SearchMode → SearchState Re → SearchState Re × Option Err
    unfolding clear
    compile pattern mode s =
        if str_eq pattern ""
        then (clear s, none)
        else compiled pattern mode s (regexp (str_append "(?i)" pattern))

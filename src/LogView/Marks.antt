-- ===== src/LogView/Marks.antt =====
-- internal/ui/logview.go: the highlights of a search that `updateViewport` writes into the visible
-- lines.
use aku.Base.{
  ℕ, ◌+◌, ◌-◌, ◌==◌, String, Bool, ◌&&◌, Option, none, some, List, [], ◌∷◌, ltb, leb, length,
  get_elem?, get_or, modify, if◌then◌else◌, ℤ, pos, pos_part, negsuc, ltb_ℤ, eq_ℤ,
}
use aku.AnsiSplit.Highlight.{HighlightRange, inject_highlights}
use aku.RingBuffer.{raw_get}
use aku.LogView.State.{Text, LogView, MatchPosition, filtering, searching, buffer_index}

-- `sort.Search`: the positions, which are in order, from a line on.
abbrev pub from_line : ℕ → List MatchPosition → List MatchPosition
from_line start [] = []
from_line start (m ∷ ms) =
    let rest = from_line start ms in if leb start m.line then m ∷ ms else rest

-- Those before the end, by their row in the window.
abbrev pub up_to : ℕ → ℕ → List MatchPosition → List MatchPosition
up_to start end [] = []
up_to start end (m ∷ ms) =
    let rest = up_to start end ms in
    if leb end m.line then [] else record m { line = m.line - start } ∷ rest

abbrev pub window_positions : ℕ → ℕ → List MatchPosition → List MatchPosition
window_positions start end ms = up_to start end (from_line start ms)

-- The first of the window's positions at a row and a column.
abbrev pub position_of : ℕ → ℤ → ℕ → List MatchPosition → Option ℕ
position_of row col i [] = none
position_of row col i (m ∷ ms) =
    let rest = position_of row col (i + 1) ms in
    if m.line == row && eq_ℤ m.col_start col then some i else rest

-- Which of the window's positions is selected; Go panics where the index is out of range.
abbrev pub selected_position : ℕ → ℕ → ℤ → List MatchPosition → Option ℕ
selected_position start end index ms =
    elim (if ltb_ℤ index (pos 0) then none else get_elem? ms (pos_part index)) [
      | none ↦ none
      | some m ↦
          if leb start m.line && ltb m.line end
          then position_of (m.line - start) m.col_start 0 (window_positions start end ms)
          else none
    ]

-- The positions of one row: the index of the first, and their columns, which are not negative.
pub record Group : Type 0 where
  pub row : ℕ
  pub first : ℕ
  pub ranges : List HighlightRange

abbrev pub range_of : MatchPosition → HighlightRange
range_of m = record { start = pos_part m.col_start; end = pos_part m.col_end }

abbrev pub add_position : ℕ → MatchPosition → List Group → List Group
add_position i m [] = record { row = m.line; first = i; ranges = range_of m ∷ [] } ∷ []
add_position i m (g ∷ gs) =
    if g.row == m.line
    then record g { first = i; ranges = range_of m ∷ g.ranges } ∷ gs
    else record { row = m.line; first = i; ranges = range_of m ∷ [] } ∷ g ∷ gs

-- Neighbours in the same row are one group; indices from `i` on.
abbrev pub groups : ℕ → List MatchPosition → List Group
groups i [] = []
groups i (m ∷ ms) = add_position i m (groups (i + 1) ms)

-- `selectedInLine`.
abbrev pub selected_in : Option ℕ → Group → ℤ
selected_in none g = negsuc 0
selected_in (some i) g =
    if leb g.first i && ltb i (g.first + length g.ranges) then pos (i - g.first) else negsuc 0

module _ {Re : Type 0} (t : Text Re) where
  -- The line behind a row below the indicator is a marker; `start` is the first line of the window.
  abbrev pub is_marker_row : LogView Re → ℕ → ℕ → ℕ → Bool
  is_marker_row l above start row =
      let at = start + (row - above) in
      let idx = if filtering l then buffer_index l (get_or l.filtered_indices at 0) else pos at in
      leb above row && t.is_marker (raw_get l.buffer idx)

  abbrev pub inject : ℤ → List HighlightRange → String → String
  inject selected ranges line =
      t.encode (inject_highlights selected t.highlight_sgr t.selected_sgr (t.decode line) ranges)

  abbrev pub bake_groups : LogView Re → ℕ → ℕ → Option ℕ → List Group → List String → List String
  bake_groups l above start selected [] rows = rows
  bake_groups l above start selected (g ∷ gs) rows = bake_groups l above start selected gs (
      if is_marker_row l above start g.row
      then rows
      else modify g.row (inject (selected_in selected g) g.ranges) rows)

  -- The rows of a window from display line `scroll` on, with highlights.
  unfoldable pub bake : LogView Re → ℕ → ℕ → ℕ → List String → List String
  bake l above start scroll rows =
      let end = scroll + length rows in
      if searching l && ltb 0 (length l.match_positions)
      then bake_groups l above start (selected_position scroll end l.match_index l.match_positions)
          (groups 0 (window_positions scroll end l.match_positions)) rows
      else rows

-- ===== src/AnsiSplit/Highlight.antt =====
-- `injectHighlights` of internal/ui/ansisplit.go. What it writes is the list of the sequences that it
-- writes; `sgrBuf` is the list of its sequences.
use aku.Base.{
  ℕ, suc, ◌+◌, ◌==◌, Bool, true, false, not, ◌&&◌, List, [], ◌∷◌, ◌++◌, map, leb, if◌then◌else◌, ℤ,
  pos, eq_ℤ,
}
use aku.AnsiSplit.{Sequence, is_sgr, is_reset_sgr, reset}

pub record HighlightRange : Type 0 where
  pub start : ℕ
  pub end : ℕ

-- `matches[matchIdx:]` are the ranges that are left.
pub record Inject : Type 0 where
  pub sgr : List (List ℕ)
  pub ranges : List HighlightRange
  pub match_idx : ℕ
  pub in_match : Bool
  pub col : ℕ

-- A sequence without width.
abbrev pub escape : List ℕ → Sequence
escape bytes = record { bytes = bytes; width = 0 }

unfoldable pub kept : List (List ℕ) → List ℕ → List (List ℕ)
kept sgr seq = if is_sgr seq then if is_reset_sgr seq then [] else sgr ++ seq ∷ [] else sgr

-- What is written, and the state after it.
abbrev pub Written : Type 0
Written = List Sequence × Inject

abbrev pub then_write : List Sequence → Written → Written
then_write before (out, s) = (before ++ out, s)

module _ (selected_idx : ℤ) (hi_sgr sel_sgr : List ℕ) where
  abbrev pub colour : ℕ → List ℕ
  colour i = if eq_ℤ (pos i) selected_idx then sel_sgr else hi_sgr

  abbrev pub match_starts : List HighlightRange → ℕ → Bool
  match_starts [] col = false
  match_starts (m ∷ ms) col = leb m.start col

  abbrev pub match_ends : List HighlightRange → ℕ → Bool
  match_ends [] col = false
  match_ends (m ∷ ms) col = leb m.end col

  abbrev pub later : List HighlightRange → List HighlightRange
  later [] = []
  later (m ∷ ms) = ms

  -- The start of a match, if the column is at one.
  abbrev pub begin_match : Inject → Written
  begin_match s =
      if not s.in_match && match_starts s.ranges s.col
      then (escape reset ∷ escape (colour s.match_idx) ∷ [], record s { in_match = true })
      else ([], s)

  abbrev pub leave_match : Inject → Written
  leave_match s =
      if s.in_match && match_ends s.ranges s.col
      then then_write (escape reset ∷ map escape s.sgr) (
          begin_match
            (record s { in_match = false; match_idx = suc s.match_idx; ranges = later s.ranges }))
      else ([], s)

  -- A character, behind the start of a match.
  abbrev pub write_character : Sequence → Written → Written
  write_character t (out, s) =
      then_write (out ++ t ∷ []) (leave_match (record s { col = s.col + t.width }))

  unfoldable pub inject_step : Sequence → Inject → Written
  inject_step t s =
      if t.width == 0
      then (
        (if is_sgr t.bytes && s.in_match then [] else t ∷ []),
        record s { sgr = kept s.sgr t.bytes },
      )
      else write_character t (begin_match s)

  unfoldable pub inject_loop : List Sequence → Inject → List Sequence
  unfolding inject_step
  inject_loop [] s = if s.in_match then escape reset ∷ [] else []
  inject_loop (t ∷ ts) s = let (out, u) = inject_step t s in out ++ inject_loop ts u

  unfoldable pub inject_highlights : List Sequence → List HighlightRange → List Sequence
  inject_highlights line [] = line
  inject_highlights line (m ∷ ms) =
      inject_loop line
        (record { sgr = []; ranges = m ∷ ms; match_idx = 0; in_match = false; col = 0 })

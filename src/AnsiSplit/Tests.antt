-- ===== src/AnsiSplit/Tests.antt =====
-- The theorems on a line whose second and third characters are red.
use aku.Base.{ℕ, ◌≡◌, refl, List, [], ◌∷◌, ◌++◌, pos, arith, length, take, drop}
use aku.LogView.State.{wrap_height, continuation_width}
use aku.AnsiSplit.{
  Sequence, is_sgr, is_reset_sgr, track, closed, reset, split_loop, split_wrapped_visible,
}
use aku.AnsiSplit.Rows.{rows, first_row}
use aku.AnsiSplit.Windows.{split_wrapped_visible-window}
use aku.AnsiSplit.Heights.{total_width, length-rows-wrap_height}
use aku.AnsiSplit.Highlight.{HighlightRange, escape, inject_highlights}
use aku.AnsiSplit.Shown.{shown, highlighted}
use aku.AnsiSplit.Terminal.{inject_highlights_lem}

abbrev character : ℕ → Sequence
character c = record { bytes = c ∷ []; width = 1 }

abbrev red : List ℕ
red = 27 ∷ b'[' ∷ b'3' ∷ b'1' ∷ b'm' ∷ []

abbrev yellow : List ℕ
yellow = 27 ∷ b'[' ∷ b'4' ∷ b'3' ∷ b'm' ∷ []

abbrev inverse : List ℕ
inverse = 27 ∷ b'[' ∷ b'7' ∷ b'm' ∷ []

abbrev line : List Sequence
line =
    character b'a'
    ∷ escape red
    ∷ character b'b'
    ∷ character b'c'
    ∷ escape reset
    ∷ character b'd'
    ∷ character b'e'
    ∷ []

-- The second row starts red and ends with a reset.
window_test : split_wrapped_visible line 2 1 1 1 ≡ (red ++ b'c' ∷ reset, 1) ∷ []
unfolding split_wrapped_visible split_loop track is_sgr is_reset_sgr closed
window_test = refl

split_wrapped_visible-window_example :
    split_wrapped_visible line 3 1 1 2 ≡ take 2 (drop 1 (rows 1 line (first_row 3)))
split_wrapped_visible-window_example =
    split_wrapped_visible-window line 3 1 1 2 (omega arith) (omega arith)

length-rows-wrap_height_example :
    length (rows (continuation_width (pos 4)) line (first_row 4))
    ≡ wrap_height (pos (total_width line)) (pos 4)
length-rows-wrap_height_example =
    length-rows-wrap_height line 4 (omega arith) (omega arith) (omega arith)

abbrev two_ranges : List HighlightRange
two_ranges = record { start = 0; end = 2 } ∷ record { start = 2; end = 3 } ∷ []

inject_highlights_lem_example :
    shown [] (inject_highlights (pos 1) yellow inverse line two_ranges)
    ≡ highlighted (pos 1) yellow inverse 0 two_ranges 0 [] line
unfolding is_sgr is_reset_sgr
inject_highlights_lem_example =
    inject_highlights_lem (pos 1) yellow inverse (refl, refl) (refl, refl) line two_ranges
      (omega arith) (omega arith)

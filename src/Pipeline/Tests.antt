-- ===== src/Pipeline/Tests.antt =====
-- A pipeline that doubles bytes on a line with a red part.
use aku.Base.{ℕ, ◌≡◌, ◌≢◌, refl, false, List, [], ◌∷◌, ◌++◌}
use aku.AnsiSplit.{is_reset_sgr}
use aku.Pipeline.{
  Highlighter, in_segment, read, read_sgr, scan, write_segments, apply_to_unhighlighted, add,
  highlight,
}
use aku.Pipeline.Segments.{texts, highlighted, apply_to_unhighlighted_lem}

abbrev twice : Highlighter
twice [] = []
twice (b ∷ bs) = b ∷ b ∷ twice bs

abbrev red_b : List ℕ
red_b = 27 ∷ b'[' ∷ b'3' ∷ b'1' ∷ b'm' ∷ b'b' ∷ 27 ∷ b'[' ∷ b'm' ∷ []

abbrev line : List ℕ
line = b'a' ∷ red_b ++ b'c' ∷ []

highlight_test : highlight (add twice []) line ≡ b'a' ∷ b'a' ∷ red_b ++ b'c' ∷ b'c' ∷ []
unfolding highlight apply_to_unhighlighted scan read read_sgr is_reset_sgr write_segments
highlight_test = refl

line-ne : line ≢ []
line-ne e = cc e

apply_to_unhighlighted_lem_example :
    (apply_to_unhighlighted line twice ≡ highlighted twice (scan line (in_segment [] false)))
    × (texts (scan line (in_segment [] false)) ≡ line)
apply_to_unhighlighted_lem_example = apply_to_unhighlighted_lem line twice line-ne

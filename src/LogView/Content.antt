-- ===== src/LogView/Content.antt =====
-- What the panel keeps of its content: the rows of the wrapped lines, the matches of the search and
-- the lines of the filter, each computed from the buffer.
use aku.Base.{
  ℕ, ◌+◌, String, Bool, ◌&&◌, ◌||◌, Option, none, some, List, [], ◌∷◌, ◌++◌, map, ltb, length,
  tabulate, if◌then◌else◌, ℤ, pos, negsuc, leb_ℤ, ltb_ℤ,
}
use aku.RingBuffer.{DualRingBuffer, raw_get, stripped_get}
use aku.LogView.State.{
  Text, LogView, MatchPosition, filtering, indicator, buffer_index, wrap_height,
}
use aku.LogView.Window.{line_widths, update_viewport}

abbrev pub sum : List ℕ → ℕ
sum [] = 0
sum (n ∷ ns) = n + sum ns

abbrev pub raws : DualRingBuffer → List String
raws d = tabulate (λ i. raw_get d (pos i)) 0 d.count

module _ {Re : Type 0} where
  abbrev pub wrapped_rows : LogView Re → ℕ
  wrapped_rows l =
      sum (map (λ w. wrap_height w l.log_vp.width) (line_widths l)) + indicator l.buffer

  unfoldable pub recompute_total_wrapped_rows : LogView Re → LogView Re
  recompute_total_wrapped_rows l = record l { total_wrapped_rows = wrapped_rows l }

  -- Recomputed while lines are wrapped.
  abbrev pub recount : LogView Re → LogView Re
  recount l = if l.soft_wrap then recompute_total_wrapped_rows l else l

  -- `lv.matchIndex`: the first match, or -1.
  abbrev pub at_first_match : LogView Re → LogView Re
  at_first_match l = record l {
    match_index = if ltb 0 (length l.match_positions) then pos 0 else negsuc 0;
  }

  module _ (t : Text Re) where
    -- `computeLineMatchPositions`.
    abbrev pub line_matches : Re → ℕ → String → List MatchPosition
    line_matches re i s =
        map
          (λ (m : ℕ × ℕ). record {
            line = i;
            col_start = t.prefix_width s m.0;
            col_end = t.prefix_width s m.1;
          })
          (t.find_all re s)

    -- The matches of the lines in order, the first one at `i`; a line that is not there has none.
    abbrev pub collect : Re → ℕ → List (Option String) → List MatchPosition
    collect re i [] = []
    collect re i (none ∷ ls) = collect re (i + 1) ls
    collect re i (some s ∷ ls) = line_matches re i s ++ collect re (i + 1) ls

    abbrev pub stripped_at : DualRingBuffer → ℤ → Option String
    stripped_at d i =
        if leb_ℤ (pos 0) i && ltb_ℤ i (pos d.count) then some (stripped_get d i) else none

    abbrev pub shown_lines : LogView Re → List (Option String)
    shown_lines l =
        if filtering l
        then map (λ idx. stripped_at l.buffer (buffer_index l idx)) l.filtered_indices
        else tabulate (λ i. some (stripped_get l.buffer (pos i))) 0 l.buffer.count

    abbrev pub positions_of : LogView Re → Option Re → List MatchPosition
    positions_of l none = []
    positions_of l (some re) =
        map (λ (p : MatchPosition). record p { line = p.line + indicator l.buffer })
          (collect re 0 (shown_lines l))

    abbrev pub with_positions : List MatchPosition → LogView Re → LogView Re
    with_positions ps l = record l {
      match_positions = ps;
      search_state = record (l.search_state) { match_count = length ps };
    }

    unfoldable pub rebuild_match_positions : LogView Re → LogView Re
    rebuild_match_positions l = with_positions (positions_of l l.search_state.re) l

    unfoldable pub rebuild_viewport_content : LogView Re → LogView Re
    unfolding rebuild_match_positions recompute_total_wrapped_rows
    rebuild_viewport_content l =
        update_viewport t (recount (at_first_match (rebuild_match_positions l)))

    -- The lines that the filter keeps when it is applied: those that match, and markers.
    abbrev pub keeps : Re → String → Bool
    keeps re s = t.matches re s || t.is_marker s

    abbrev pub matching : Re → ℕ → List String → List ℕ
    matching re i [] = []
    matching re i (s ∷ ls) =
        let rest = matching re (i + 1) ls in if keeps re s then i ∷ rest else rest

    abbrev pub filter_indices : Option Re → ℕ → DualRingBuffer → List ℕ
    filter_indices none offset d = []
    filter_indices (some re) offset d = matching re offset (raws d)

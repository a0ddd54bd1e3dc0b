-- ===== src/LogView/Marked.antt =====
-- What the highlights of a search do to the visible lines.
use aku.Base.{
  if◌then◌else◌, Bool-cases, inl, inr, ℕ, zero, suc, ◌+◌, ◌-◌, ◌==◌, ◌≤◌, ◌≡◌, refl, sym, subst,
  String, Option, List, [], ◌∷◌, ltb, leb, length, modify, if-cases, ℤ, pos_part, ◌⊎◌, inl, inr,
  ==_iff, arith,
}
use aku.AnsiSplit.Highlight.{HighlightRange}
use aku.LogView.State.{Text, LogView, MatchPosition, searching}
use aku.LogView.Marks.{
  up_to, window_positions, Group, range_of, add_position, groups, selected_in, is_marker_row,
  inject, bake_groups, bake,
}

-- The range of a match in a row of the window from a line on.
abbrev pub IsMatch : ℕ → List MatchPosition → ℕ → HighlightRange → Type 0
IsMatch start [] row r = ⊥
IsMatch start (m ∷ ms) row r =
    ((m.line - start ≡ row) × (pos_part m.col_start ≡ r.start) × (pos_part m.col_end ≡ r.end))
    ⊎ IsMatch start ms row r

abbrev pub AreMatches : ℕ → List MatchPosition → ℕ → List HighlightRange → Type 0
AreMatches start ms row [] = Unit {0}
AreMatches start ms row (r ∷ rs) = IsMatch start ms row r × AreMatches start ms row rs

abbrev AreIn : ℕ → List MatchPosition → ℕ → List MatchPosition → Type 0
AreIn start ms end [] = Unit {0}
AreIn start ms end (p ∷ ps) = IsMatch start ms p.line (range_of p) × AreIn start ms end ps

AreIn-cons :
    (start end : ℕ) (m : MatchPosition) (ms ps : List MatchPosition)
    → AreIn start ms end ps
    → AreIn start (m ∷ ms) end ps
AreIn-cons start end m ms [] h = tt
AreIn-cons start end m ms (p ∷ ps) (h, hs) = (inr h, AreIn-cons start end m ms ps hs)

up_to-AreIn : (start end : ℕ) (ms : List MatchPosition) → AreIn start ms end (up_to start end ms)
up_to-AreIn start end [] = tt
up_to-AreIn start end (m ∷ ms) =
    if-cases (AreIn start (m ∷ ms) end) (leb end m.line) [] _ (λ _. tt)
      (λ _. (inl (refl, refl, refl), AreIn-cons start end m ms _ (up_to-AreIn start end ms)))

window_positions-AreIn :
    (start end : ℕ) (ms : List MatchPosition) → AreIn start ms end (window_positions start end ms)
window_positions-AreIn start end [] = tt
window_positions-AreIn start end (m ∷ ms) =
    if-cases (λ xs. AreIn start (m ∷ ms) end (up_to start end xs)) (leb start m.line) (m ∷ ms) _
      (λ _. up_to-AreIn start end (m ∷ ms))
      (λ _. AreIn-cons start end m ms _ (window_positions-AreIn start end ms))

abbrev AreGroups : ℕ → List MatchPosition → List Group → Type 0
AreGroups start ms [] = Unit {0}
AreGroups start ms (g ∷ gs) =
    AreMatches start ms g.row g.ranges × (1 ≤ length g.ranges) × AreGroups start ms gs

add_position-AreGroups :
    (start i : ℕ) (ms : List MatchPosition) (p : MatchPosition) (gs : List Group)
    → IsMatch start ms p.line (range_of p)
    → AreGroups start ms gs
    → AreGroups start ms (add_position i p gs)
add_position-AreGroups start i ms p [] h hs = ((h, tt), omega arith, tt)
add_position-AreGroups start i ms p (g ∷ gs) h (k, n, hs) =
    if-cases (AreGroups start ms) (g.row == p.line) _ _
      (λ same. (
        (
          subst (λ row. IsMatch start ms row (range_of p)) (sym ((==_iff g.row p.line).0 same)) h,
          k,
        ),
        omega arith,
        hs,
      ))
      (λ _. ((h, tt), omega arith, (k, n, hs)))

groups-AreGroups :
    (start end i : ℕ) (ms ps : List MatchPosition)
    → AreIn start ms end ps
    → AreGroups start ms (groups i ps)
groups-AreGroups start end i ms [] h = tt
groups-AreGroups start end i ms (p ∷ ps) (h, hs) =
    add_position-AreGroups start i ms p (groups (i + 1) ps) h
      (groups-AreGroups start end (i + 1) ms ps hs)

module _ {Re : Type 0} (t : Text Re) where
  -- A row is a line as it is, or with the two highlights of ranges that are matches in it.
  pub data IsMarked (start : ℕ) (ms : List MatchPosition) (row : ℕ) (line : String)
      : String → Type 0 where
    plain : IsMarked start ms row line line
    marked :
        (selected : ℤ) (r : HighlightRange) (rs : List HighlightRange) {shown : String}
        → AreMatches start ms row (r ∷ rs)
        → IsMarked start ms row line shown
        → IsMarked start ms row line (inject t selected (r ∷ rs) shown)

  abbrev pub AreMarked : ℕ → List MatchPosition → ℕ → List String → List String → Type 0
  AreMarked start ms row [] [] = Unit {0}
  AreMarked start ms row (x ∷ xs) (y ∷ ys) =
      IsMarked start ms row x y × AreMarked start ms (suc row) xs ys
  AreMarked start ms row _ _ = ⊥

  AreMarked-plain :
      (start : ℕ) (ms : List MatchPosition) (row : ℕ) (xs : List String)
      → AreMarked start ms row xs xs
  AreMarked-plain start ms row [] = tt
  AreMarked-plain start ms row (x ∷ xs) = (plain, AreMarked-plain start ms (suc row) xs)

  modify-AreMarked :
      (start : ℕ) (ms : List MatchPosition) (row i : ℕ) (selected : ℤ) (r : HighlightRange)
      (rs : List HighlightRange) (xs ys : List String)
      → AreMatches start ms (row + i) (r ∷ rs)
      → AreMarked start ms row xs ys
      → AreMarked start ms row xs (modify i (inject t selected (r ∷ rs)) ys)
  modify-AreMarked start ms row i selected r rs [] [] h k = tt
  modify-AreMarked start ms row i selected r rs (x ∷ xs) [] h k = elim k [ ]
  modify-AreMarked start ms row i selected r rs [] (y ∷ ys) h k = elim k [ ]
  modify-AreMarked start ms row zero selected r rs (x ∷ xs) (y ∷ ys) h (k, ks) =
      let at : row + 0 ≡ row = omega arith in
      (marked selected r rs (subst (λ n. AreMatches start ms n (r ∷ rs)) at h) k, ks)
  modify-AreMarked start ms row (suc i) selected r rs (x ∷ xs) (y ∷ ys) h (k, ks) =
      let at : row + suc i ≡ suc row + i = omega arith in
      (
        k,
        modify-AreMarked start ms (suc row) i selected r rs xs ys
            (subst (λ n. AreMatches start ms n (r ∷ rs)) at h) ks,
      )

  modify_ranges-AreMarked :
      (start : ℕ) (ms : List MatchPosition) (row : ℕ) (selected : ℤ) (rs : List HighlightRange)
      (xs ys : List String)
      → AreMatches start ms row rs
      → 1 ≤ length rs
      → AreMarked start ms 0 xs ys
      → AreMarked start ms 0 xs (modify row (inject t selected rs) ys)
  modify_ranges-AreMarked start ms row selected [] xs ys h n k = absurd (omega (arith, n))
  modify_ranges-AreMarked start ms row selected (r ∷ rs) xs ys h n k =
      let at : row ≡ 0 + row = omega arith in
      modify-AreMarked start ms 0 row selected r rs xs ys
        (subst (λ n. AreMatches start ms n (r ∷ rs)) at h) k

  bake_groups-AreMarked :
      (l : LogView Re) (above first start : ℕ) (ms : List MatchPosition) (selected : Option ℕ)
      (gs : List Group) (xs ys : List String)
      → AreGroups start ms gs
      → AreMarked start ms 0 xs ys
      → AreMarked start ms 0 xs (bake_groups t l above first selected gs ys)
  bake_groups-AreMarked l above first start ms selected [] xs ys h k = k
  bake_groups-AreMarked l above first start ms selected (g ∷ gs) xs ys (h, n, hs) k =
      bake_groups-AreMarked l above first start ms selected gs xs _ hs (
        if-cases (AreMarked start ms 0 xs) (is_marker_row t l above first g.row) ys _ (λ _. k)
          (λ _.
            modify_ranges-AreMarked start ms g.row (selected_in selected g) g.ranges xs ys h n k))

  -- The matches of the search, if one is active.
  abbrev pub active_matches : LogView Re → List MatchPosition
  active_matches l = if searching l then l.match_positions else []

  pub bake-AreMarked :
      (l : LogView Re) (above first scroll : ℕ) (rows : List String)
      → AreMarked scroll (active_matches l) 0 rows (bake t l above first scroll rows)
  unfolding bake
  bake-AreMarked l above first scroll rows = elim (Bool-cases (searching l)) [
    | inr idle ↦ rw idle (AreMarked-plain scroll [] 0 rows)
    | inl on ↦
        let end = scroll + length rows in
        let ms = l.match_positions in
        rw on (
          if-cases (AreMarked scroll ms 0 rows) (ltb 0 (length ms)) _ rows
            (λ _.
              bake_groups-AreMarked l above first scroll ms _ _ rows rows
                (groups-AreGroups scroll end 0 ms _ (window_positions-AreIn scroll end ms))
                (AreMarked-plain scroll ms 0 rows))
            (λ _. AreMarked-plain scroll ms 0 rows))
  ]

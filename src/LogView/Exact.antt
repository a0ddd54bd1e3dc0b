-- ===== src/LogView/Exact.antt =====
-- The highlights of each visible row, where the matches are in order.
use aku.Base.{
  ℕ, zero, suc, ◌+◌, ◌-◌, ◌==◌, ◌≤◌, ◌<◌, ◌≡◌, refl, sym, ap, ◌∙◌, subst, String, Bool, true, false,
  Option, none, some, List, [], ◌∷◌, ltb, leb, length, get_elem?, modify, if◌then◌else◌, if-cases,
  ℤ, inl, inr, Bool-cases, ==_iff, arith,
}
use aku.AnsiSplit.Highlight.{HighlightRange}
use aku.LogView.State.{Text, LogView, MatchPosition, searching}
use aku.LogView.Marked.{active_matches}
use aku.LogView.Marks.{
  up_to, window_positions, selected_position, Group, range_of, add_position, groups, selected_in,
  is_marker_row, inject, bake_groups, bake,
}

-- From a line on, in the order of lines.
abbrev pub InOrder : ℕ → List MatchPosition → Type 0
InOrder b [] = Unit {0}
InOrder b (m ∷ ms) = (b ≤ m.line) × InOrder m.line ms

-- The ranges of the matches in a line.
abbrev pub ranges_at : ℕ → List MatchPosition → List HighlightRange
ranges_at line [] = []
ranges_at line (m ∷ ms) =
    let rest = ranges_at line ms in if m.line == line then range_of m ∷ rest else rest

InOrder-le : (b c : ℕ) (ms : List MatchPosition) → c ≤ b → InOrder b ms → InOrder c ms
InOrder-le b c [] h k = tt
InOrder-le b c (m ∷ ms) h (k, ks) = (omega (arith, h, k), ks)

ranges_at-before :
    (line b : ℕ) (ms : List MatchPosition) → InOrder b ms → line < b → ranges_at line ms ≡ []
ranges_at-before line b [] h k = refl
ranges_at-before line b (m ∷ ms) (h, hs) k =
    let other : (m.line == line) ≡ false = ground (arith, h, k) in
    rw other (ranges_at-before line m.line ms hs (omega (arith, h, k)))

up_to-exact :
    (start end b row : ℕ) (ms : List MatchPosition)
    → start ≤ b
    → InOrder b ms
    → start + row < end
    → (ranges_at row (up_to start end ms) ≡ ranges_at (start + row) ms)
      × InOrder (b - start) (up_to start end ms)
up_to-exact start end b row [] l h k = (refl, tt)
up_to-exact start end b row (m ∷ ms) l (h, hs) k = elim (Bool-cases (leb end m.line)) [
  | inl past ↦
      let other : (m.line == start + row) ≡ false = ground (arith, k, past) in
      rw (past, other)
        (sym (ranges_at-before (start + row) m.line ms hs (ground (arith, k, past))), tt)
  | inr inside ↦
      let (r, o) = up_to-exact start end m.line row ms (omega (arith, l, h)) hs k in
      elim (Bool-cases (m.line == start + row)) [
        | inl hit ↦
            let same : (m.line - start == row) ≡ true = ground (arith, hit) in
            rw (inside, hit, same) (ap (λ rs. range_of m ∷ rs) r, (omega (arith, h), o))
        | inr miss ↦
            let other : (m.line - start == row) ≡ false = ground (arith, miss, l, h) in
            rw (inside, miss, other) (r, (omega (arith, h), o))
      ]
]

window_positions-exact :
    (start end b row : ℕ) (ms : List MatchPosition)
    → InOrder b ms
    → start + row < end
    → (ranges_at row (window_positions start end ms) ≡ ranges_at (start + row) ms)
      × InOrder 0 (window_positions start end ms)
window_positions-exact start end b row [] h k = (refl, tt)
window_positions-exact start end b row (m ∷ ms) (h, hs) k = elim (Bool-cases (leb start m.line)) [
  | inl from ↦
      let (r, o) =
        up_to-exact start end m.line row (m ∷ ms) (ground (arith, from)) (omega arith, hs) k in
      rw from (r, InOrder-le (m.line - start) 0 _ (omega arith) o)
  | inr before ↦
      let other : (m.line == start + row) ≡ false = ground (arith, before) in
      rw (before, other) (window_positions-exact start end m.line row ms hs k)
]

-- In ascending rows from a row on.
abbrev AreAbove : ℕ → List Group → Type 0
AreAbove b [] = Unit {0}
AreAbove b (g ∷ gs) = (b ≤ g.row) × AreAbove (suc g.row) gs

abbrev find_group : ℕ → List Group → Option Group
find_group row [] = none
find_group row (g ∷ gs) = let rest = find_group row gs in if g.row == row then some g else rest

abbrev ranges_of : Option Group → List HighlightRange
ranges_of none = []
ranges_of (some g) = g.ranges

find_group-before :
    (row b : ℕ) (gs : List Group) → AreAbove b gs → row < b → find_group row gs ≡ none
find_group-before row b [] h k = refl
find_group-before row b (g ∷ gs) (h, hs) k =
    let other : (g.row == row) ≡ false = ground (arith, h, k) in
    rw other (find_group-before row (suc g.row) gs hs (omega (arith, h, k)))

AreAbove-le : (b c : ℕ) (gs : List Group) → c ≤ b → AreAbove b gs → AreAbove c gs
AreAbove-le b c [] h k = tt
AreAbove-le b c (g ∷ gs) h (k, ks) = (omega (arith, h, k), ks)

add_position-exact :
    (i row : ℕ) (m : MatchPosition) (gs : List Group)
    → AreAbove m.line gs
    → (ranges_of (find_group row (add_position i m gs)) ≡ (
        if m.line == row
        then range_of m ∷ ranges_of (find_group row gs)
        else ranges_of (find_group row gs)))
      × AreAbove m.line (add_position i m gs)
add_position-exact i row m [] h = elim (Bool-cases (m.line == row)) [
  | inl hit ↦ rw hit (refl, (omega arith, tt))
  | inr miss ↦ rw miss (refl, (omega arith, tt))
]
add_position-exact i row m (g ∷ gs) (h, hs) = elim (Bool-cases (g.row == m.line)) [
  | inl same ↦ elim (Bool-cases (g.row == row)) [
    | inl hit ↦
        let too : (m.line == row) ≡ true = ground (arith, same, hit) in
        rw (same, hit, too) (refl, (h, hs))
    | inr miss ↦
        let too : (m.line == row) ≡ false = ground (arith, same, miss) in
        rw (same, miss, too) (refl, (h, hs))
  ]
  | inr apart ↦
      let above : suc m.line ≤ g.row = ground (arith, apart, h) in
      elim (Bool-cases (m.line == row)) [
        | inl hit ↦
            let other : (g.row == row) ≡ false = ground (arith, hit, above) in
            rw (apart, hit, other)
              (
                ap (λ o. range_of m ∷ ranges_of o)
                    (sym (find_group-before row (suc g.row) gs hs (ground (arith, hit, above)))),
                (omega arith, (above, hs)),
              )
        | inr miss ↦ rw (apart, miss) (refl, (omega arith, (above, hs)))
      ]
]

groups-exact :
    (i row b : ℕ) (ps : List MatchPosition)
    → InOrder b ps
    → (ranges_of (find_group row (groups i ps)) ≡ ranges_at row ps) × AreAbove b (groups i ps)
groups-exact i row b [] h = (refl, tt)
groups-exact i row b (p ∷ ps) (h, hs) =
    let (r, above) = groups-exact (i + 1) row p.line ps hs in
    let (q, all) = add_position-exact i row p (groups (i + 1) ps) above in
    (
      q ∙ ap (λ rs. if p.line == row then range_of p ∷ rs else rs) r,
      AreAbove-le p.line b (groups i (p ∷ ps)) h all,
    )

get_elem?-lt : (xs : List String) (i : ℕ) (x : String) → get_elem? xs i ≡ some x → i < length xs
get_elem?-lt [] i x h = absurd (ground (arith, h))
get_elem?-lt (y ∷ xs) zero x h = omega arith
get_elem?-lt (y ∷ xs) (suc i) x h = omega (arith, get_elem?-lt xs i x h)

ranges_at_nothing :
    (line : ℕ) (ms : List MatchPosition) → ltb 0 (length ms) ≡ false → ranges_at line ms ≡ []
ranges_at_nothing line [] h = refl
ranges_at_nothing line (m ∷ ms) h = absurd (ground (arith, h))

abbrev Full : List Group → Type 0
Full [] = Unit {0}
Full (g ∷ gs) = (1 ≤ length g.ranges) × Full gs

groups-Full : (i : ℕ) (ps : List MatchPosition) → Full (groups i ps)
groups-Full i [] = tt
groups-Full i (p ∷ ps) = go (groups (i + 1) ps) (groups-Full (i + 1) ps)
  where
    go : (gs : List Group) → Full gs → Full (add_position i p gs)
    go [] h = (omega arith, tt)
    go (g ∷ gs) (h, hs) =
        if-cases Full (g.row == p.line) _ _ (λ _. (omega arith, hs)) (λ _. (omega arith, (h, hs)))

-- The group of a row, which has a range.
abbrev IsAt : ℕ → Option Group → Type 0
IsAt row none = Unit {0}
IsAt row (some g) = (g.row ≡ row) × (1 ≤ length g.ranges)

find_group-IsAt : (row : ℕ) (gs : List Group) → Full gs → IsAt row (find_group row gs)
find_group-IsAt row [] h = tt
find_group-IsAt row (g ∷ gs) (h, hs) =
    if-cases (IsAt row) (g.row == row) (some g) (find_group row gs)
      (λ hit. ((==_iff g.row row).0 hit, h)) (λ _. find_group-IsAt row gs hs)

abbrev on : (String → String) → Option String → Option String
on f none = none
on f (some x) = some (f x)

on_id : (o : Option String) → o ≡ on (λ x. x) o
on_id none = refl
on_id (some x) = refl

get_elem?-modify :
    (i : ℕ) (f : String → String) (ys : List String)
    → get_elem? (modify i f ys) i ≡ on f (get_elem? ys i)
get_elem?-modify i f [] = refl
get_elem?-modify zero f (y ∷ ys) = refl
get_elem?-modify (suc i) f (y ∷ ys) = get_elem?-modify i f ys

get_elem?-modify_other :
    (i j : ℕ) (f : String → String) (ys : List String)
    → (j == i) ≡ false
    → get_elem? (modify j f ys) i ≡ get_elem? ys i
get_elem?-modify_other i j f [] h = refl
get_elem?-modify_other zero zero f (y ∷ ys) h = absurd (ground (arith, h))
get_elem?-modify_other (suc i) zero f (y ∷ ys) h = refl
get_elem?-modify_other zero (suc j) f (y ∷ ys) h = refl
get_elem?-modify_other (suc i) (suc j) f (y ∷ ys) h =
    get_elem?-modify_other i j f ys (ground (arith, h))

module _ {Re : Type 0} (t : Text Re) where
  abbrev row_with : LogView Re → ℕ → ℕ → Option ℕ → Option Group → String → String
  row_with l above first selected none x = x
  row_with l above first selected (some g) x =
      if is_marker_row t l above first g.row
      then x
      else inject t (selected_in selected g) g.ranges x

  row_marker :
      (l : LogView Re) (above first : ℕ) (selected : Option ℕ) (g : Group) (o : Option String)
      → is_marker_row t l above first g.row ≡ true
      → on (row_with l above first selected (some g)) o ≡ o
  row_marker l above first selected g none m = refl
  row_marker l above first selected g (some x) m = rw m refl

  row_plain :
      (l : LogView Re) (above first : ℕ) (selected : Option ℕ) (g : Group) (o : Option String)
      → is_marker_row t l above first g.row ≡ false
      → on (row_with l above first selected (some g)) o
        ≡ on (inject t (selected_in selected g) g.ranges) o
  row_plain l above first selected g none m = refl
  row_plain l above first selected g (some x) m = rw m refl

  bake_groups-exact :
      (l : LogView Re) (above first b : ℕ) (selected : Option ℕ) (gs : List Group)
      (ys : List String) (i : ℕ)
      → AreAbove b gs
      → get_elem? (bake_groups t l above first selected gs ys) i
        ≡ on (row_with l above first selected (find_group i gs)) (get_elem? ys i)
  bake_groups-exact l above first b selected [] ys i h = on_id (get_elem? ys i)
  bake_groups-exact l above first b selected (g ∷ gs) ys i (h, hs) =
      let put = inject t (selected_in selected g) g.ranges in
      let marker = is_marker_row t l above first g.row in
      let ih =
        bake_groups-exact l above first (suc g.row) selected gs
          (if marker then ys else modify g.row put ys) i hs in
      elim (Bool-cases (g.row == i)) [
        | inl hit ↦
            let none_left = find_group-before i (suc g.row) gs hs (ground (arith, hit)) in
            let at = (==_iff g.row i).0 hit in
            ih
            ∙ ap
                (λ o.
                  on (row_with l above first selected o)
                    (get_elem? (if marker then ys else modify g.row put ys) i))
                none_left
            ∙ rw hit (
                sym (on_id (get_elem? (if marker then ys else modify g.row put ys) i))
                ∙ elim (Bool-cases marker) [
                  | inl m ↦
                      ap (λ b. get_elem? (if b then ys else modify g.row put ys) i) m
                      ∙ sym (row_marker l above first selected g (get_elem? ys i) m)
                  | inr m ↦
                      ap (λ b. get_elem? (if b then ys else modify g.row put ys) i) m
                      ∙ ap (λ j. get_elem? (modify j put ys) i) at
                      ∙ get_elem?-modify i put ys
                      ∙ sym (row_plain l above first selected g (get_elem? ys i) m)
                ])
        | inr miss ↦
            ih
            ∙ rw miss (
                ap (on (row_with l above first selected (find_group i gs))) (
                  if-cases (λ zs. get_elem? zs i ≡ get_elem? ys i) marker ys (modify g.row put ys)
                    (λ _. refl) (λ _. get_elem?-modify_other i g.row put ys miss)))
      ]

  -- A row that is no marker has the ranges of its line highlighted, if it has any.
  abbrev pub Drawn : Bool → List HighlightRange → String → String → Type 0
  Drawn marker [] x y = y ≡ x
  Drawn true (r ∷ rs) x y = y ≡ x
  Drawn false (r ∷ rs) x y = (selected : ℤ) × (y ≡ inject t selected (r ∷ rs) x)

  -- Each row of the window as it is drawn.
  abbrev pub AreDrawn :
      LogView Re → ℕ → ℕ → ℕ → List MatchPosition → List String → List String → Type 0
  AreDrawn l above first scroll ms rows shown =
      (i : ℕ) (x : String)
      → get_elem? rows i ≡ some x
      → (y : String) × (get_elem? shown i ≡ some y)
        × Drawn (is_marker_row t l above first i) (ranges_at (scroll + i) ms) x y

  Drawn-row_with :
      (l : LogView Re) (above first i : ℕ) (selected : Option ℕ) (o : Option Group)
      (rs : List HighlightRange) (x : String)
      → IsAt i o
      → ranges_of o ≡ rs
      → Drawn (is_marker_row t l above first i) rs x (row_with l above first selected o x)
  Drawn-row_with l above first i selected none [] x h e = refl
  Drawn-row_with l above first i selected none (r ∷ rs) x h e = absurd (ground (arith, e))
  Drawn-row_with l above first i selected (some g) [] x (at, n) e =
      absurd (omega (arith, n, ap length e))
  Drawn-row_with l above first i selected (some g) (r ∷ rs) x (at, n) e =
      subst
        (λ j.
          Drawn (is_marker_row t l above first j) (r ∷ rs) x
            (row_with l above first selected (some g) x))
        at
        (elim (Bool-cases (is_marker_row t l above first g.row)) [
          | inl m ↦ rw m refl
          | inr m ↦ rw m (selected_in selected g, ap (λ q. inject t (selected_in selected g) q x) e)
        ])

  pub bake-AreDrawn :
      (l : LogView Re) (above first scroll : ℕ) (rows : List String)
      → InOrder 0 (active_matches t l)
      → AreDrawn l above first scroll (active_matches t l) rows (bake t l above first scroll rows)
  unfolding bake
  bake-AreDrawn l above first scroll rows h i x e = elim (Bool-cases (searching l)) [
    | inr idle ↦ rw idle (x, e, refl)
    | inl searched ↦
        let end = scroll + length rows in
        let ms = l.match_positions in
        let selected = selected_position scroll end l.match_index ms in
        let ps = window_positions scroll end ms in
        let sorted : InOrder 0 ms = rw searched at h in
        let inside : i < length rows = get_elem?-lt rows i x e in
        let (r, o) = window_positions-exact scroll end 0 i ms sorted (omega (arith, inside)) in
        let (q, all) = groups-exact 0 i 0 ps o in
        let y = row_with l above first selected (find_group i (groups 0 ps)) x in
        let got : get_elem? (bake_groups t l above first selected (groups 0 ps) rows) i ≡ some y =
          bake_groups-exact l above first 0 selected (groups 0 ps) rows i all
          ∙ ap (on (row_with l above first selected (find_group i (groups 0 ps)))) e in
        let drawn =
          Drawn-row_with l above first i selected (find_group i (groups 0 ps))
            (ranges_at (scroll + i) ms) x (find_group-IsAt i (groups 0 ps) (groups-Full 0 ps))
            (q ∙ r) in
        let marker = is_marker_row t l above first i in
        rw searched (
          if-cases
            (λ zs.
              (z : String) × (get_elem? zs i ≡ some z)
              × Drawn marker (ranges_at (scroll + i) ms) x z)
            (ltb 0 (length ms)) (bake_groups t l above first selected (groups 0 ps) rows) rows
            (λ _. (y, got, drawn))
            (λ bare. (
              x,
              e,
              subst (λ rs. Drawn marker rs x x) (sym (ranges_at_nothing (scroll + i) ms bare)) refl,
            )))
  ]

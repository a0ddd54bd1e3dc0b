-- ===== src/Overlay/Rows.antt =====
-- internal/ui/overlay_panel.go: the lines of the list.
use aku.Base.{
  ℕ, zero, suc, ◌+◌, ◌-◌, ◌==◌, ◌≤◌, ◌<◌, ◌≡◌, refl, sym, ap, ◌∙◌, String, Bool, true, false,
  Option, none, some, List, [], ◌∷◌, ◌++◌, ltb, min, length, get_elem?, get_elem?-of_lt, take, drop,
  replicate, length-append, length-take, length-drop, length-replicate, if◌then◌else◌, Bool-cases,
  inl, inr, arith,
}
use aku.WordMotion.{Unicode}
use aku.Overlay.{Overlay, TextInput, Measure, effective_max_visible}

pub data Line : Type 0 where
  cursor_line item_line empty_line : String → Line
  more_lines : ℕ → Line
  blank_line : Line

abbrev pub line_of : Bool → String → Line
line_of b x = if b then cursor_line x else item_line x

-- The items from index `i` on.
abbrev pub lines_from : ℕ → ℕ → List String → List Line
lines_from cursor i [] = []
lines_from cursor i (x ∷ xs) = line_of (i == cursor) x ∷ lines_from cursor (i + 1) xs

abbrev pub remaining : ℕ → List Line
remaining n = if ltb 0 n then more_lines n ∷ [] else []

abbrev pub padded : ℕ → List Line → List Line
padded mv ls = ls ++ replicate (mv - length ls) blank_line

abbrev pub item_lines : ℕ → ℕ → ℕ → List String → List Line
item_lines mv offset cursor items =
    lines_from cursor offset (take mv (drop offset items))
    ++ remaining (length items - min (offset + mv) (length items))

module _ {I R M : Type 0} (ti : TextInput I R M) (me : Measure) (u : Unicode R) where
  unfoldable pub list_lines : Overlay I → List Line
  list_lines o =
      let mv = effective_max_visible ti me u o in
      take (mv + 1) (
        padded mv (
          if length o.items == 0
          then empty_line o.no_items_msg ∷ []
          else item_lines mv o.offset o.cursor o.items))

length-lines_from : (c i : ℕ) (xs : List String) → length (lines_from c i xs) ≡ length xs
length-lines_from c i [] = refl
length-lines_from c i (x ∷ xs) = ap suc (length-lines_from c (i + 1) xs)

get_elem?-replicate : (n i : ℕ) → i < n → get_elem? (replicate n blank_line) i ≡ some blank_line
get_elem?-replicate zero i h = absurd (omega arith)
get_elem?-replicate (suc n) zero h = refl
get_elem?-replicate (suc n) (suc i) h = get_elem?-replicate n i (omega arith)

get_elem?-take {ℓ} :
    {A : Type ℓ} (n i : ℕ) (xs : List A) → i < n → get_elem? (take n xs) i ≡ get_elem? xs i
get_elem?-take zero i xs h = absurd (omega arith)
get_elem?-take (suc n) i [] h = refl
get_elem?-take (suc n) zero (x ∷ xs) h = refl
get_elem?-take (suc n) (suc i) (x ∷ xs) h = get_elem?-take n i xs (omega arith)

module _ {ℓ} {A : Type ℓ} where
  get_elem?-append_left :
      (xs ys : List A) (i : ℕ) → i < length xs → get_elem? (xs ++ ys) i ≡ get_elem? xs i
  get_elem?-append_left [] ys i h = absurd (omega arith)
  get_elem?-append_left (x ∷ xs) ys zero h = refl
  get_elem?-append_left (x ∷ xs) ys (suc i) h = get_elem?-append_left xs ys i (omega arith)

  get_elem?-append_right :
      (xs ys : List A) (i : ℕ) → get_elem? (xs ++ ys) (length xs + i) ≡ get_elem? ys i
  get_elem?-append_right [] ys i = ap (get_elem? ys) (omega arith)
  get_elem?-append_right (x ∷ xs) ys i =
      let e : suc (length xs) + i ≡ suc (length xs + i) = omega arith in
      ap (get_elem? (x ∷ xs ++ ys)) e ∙ get_elem?-append_right xs ys i

  get_elem?-drop : (k i : ℕ) (xs : List A) → get_elem? (drop k xs) i ≡ get_elem? xs (k + i)
  get_elem?-drop zero i xs = ap (get_elem? xs) (omega arith)
  get_elem?-drop (suc k) i [] = refl
  get_elem?-drop (suc k) i (x ∷ xs) =
      let e : suc (k + i) ≡ suc k + i = omega arith in
      get_elem?-drop k i xs ∙ ap (get_elem? (x ∷ xs)) e

  get_elem?-none : (xs : List A) (i : ℕ) → length xs ≤ i → get_elem? xs i ≡ none
  get_elem?-none [] i h = refl
  get_elem?-none (x ∷ xs) zero h = absurd (omega arith)
  get_elem?-none (x ∷ xs) (suc i) h = get_elem?-none xs i (omega arith)

abbrev line_or_none : ℕ → ℕ → Option String → Option Line
line_or_none cursor i none = none
line_or_none cursor i (some x) = some (line_of (i == cursor) x)

abbrev pub line_or_blank : ℕ → ℕ → Option String → Line
line_or_blank cursor i none = blank_line
line_or_blank cursor i (some x) = line_of (i == cursor) x

lines_from-get :
    (c at i : ℕ) (xs : List String)
    → get_elem? (lines_from c at xs) i ≡ line_or_none c (at + i) (get_elem? xs i)
lines_from-get c at i [] = refl
lines_from-get c at zero (x ∷ xs) = ap (λ n. some (line_of (n == c) x)) (omega arith)
lines_from-get c at (suc i) (x ∷ xs) =
    lines_from-get c (at + 1) i xs ∙ ap (λ n. line_or_none c n (get_elem? xs i)) (omega arith)

-- The line of each index of the window.
get_elem?-item_lines :
    (mv offset cursor i : ℕ) (items : List String)
    → i < mv
    → get_elem? (padded mv (item_lines mv offset cursor items)) i
      ≡ some (line_or_blank cursor (offset + i) (get_elem? items (offset + i)))
get_elem?-item_lines mv offset cursor i items h =
    let xs = take mv (drop offset items) in
    let ls = lines_from cursor offset xs in
    let rest = remaining (length items - min (offset + mv) (length items)) in
    let pad = replicate (mv - length (ls ++ rest)) blank_line in
    let size : length ls ≡ min mv (length items - offset) =
      length-lines_from cursor offset xs
      ∙ length-take mv (drop offset items)
      ∙ ap (min mv) (length-drop offset items) in
    elim (Bool-cases (ltb (offset + i) (length items))) [
      | inl inside ↦
          let short : i < length ls = ground (arith, size) in
          let (x, e) = get_elem?-of_lt items (offset + i) (ground arith) in
          get_elem?-append_left (ls ++ rest) pad i (omega (arith, short, length-append ls rest))
          ∙ get_elem?-append_left ls rest i short
          ∙ lines_from-get cursor offset i xs
          ∙ ap (line_or_none cursor (offset + i))
              (get_elem?-take mv i (drop offset items) h ∙ get_elem?-drop offset i items ∙ e)
          ∙ sym (ap (λ o. some (line_or_blank cursor (offset + i) o)) e)
      | inr outside ↦
          let none_left : length items - min (offset + mv) (length items) ≡ 0 = ground arith in
          let full : length (ls ++ rest) ≡ length ls =
            length-append ls rest
            ∙ ap (λ n. length ls + length (remaining n)) none_left
            ∙ omega arith in
          let behind : length ls ≤ i = ground (arith, size) in
          let split : i ≡ length (ls ++ rest) + (i - length ls) = omega (arith, full, behind) in
          ap (get_elem? ((ls ++ rest) ++ pad)) split
          ∙ get_elem?-append_right (ls ++ rest) pad (i - length ls)
          ∙ get_elem?-replicate (mv - length (ls ++ rest)) (i - length ls)
              (omega (arith, full, behind, h))
          ∙ sym (
              ap (λ o. some (line_or_blank cursor (offset + i) o))
                (get_elem?-none items (offset + i) (ground arith)))
    ]

-- The line behind the window.
item_lines-last :
    (mv offset cursor : ℕ) (items : List String)
    → get_elem? (padded mv (item_lines mv offset cursor items)) mv ≡ (
        if ltb (offset + mv) (length items)
        then some (more_lines (length items - (offset + mv)))
        else none)
item_lines-last mv offset cursor items =
    let n = length items in
    let xs = take mv (drop offset items) in
    let ls = lines_from cursor offset xs in
    let rest = remaining (n - min (offset + mv) n) in
    let pad = replicate (mv - length (ls ++ rest)) blank_line in
    let size : length ls ≡ min mv (n - offset) =
      length-lines_from cursor offset xs
      ∙ length-take mv (drop offset items)
      ∙ ap (min mv) (length-drop offset items) in
    elim (Bool-cases (ltb (offset + mv) n)) [
      | inl inside ↦
          let left : n - min (offset + mv) n ≡ n - (offset + mv) = ground arith in
          let some_left : ltb 0 (n - (offset + mv)) ≡ true = ground arith in
          let one : rest ≡ more_lines (n - (offset + mv)) ∷ [] = rw left (rw some_left refl) in
          let at_end : mv ≡ length ls + 0 = ground (arith, size) in
          rw inside (
            get_elem?-append_left (ls ++ rest) pad mv
              (omega (arith, at_end, length-append ls rest, ap length one))
            ∙ ap (get_elem? (ls ++ rest)) at_end
            ∙ get_elem?-append_right ls rest 0
            ∙ ap (λ r. get_elem? r 0) one)
      | inr outside ↦
          let none_left : n - min (offset + mv) n ≡ 0 = ground arith in
          let full : length (ls ++ rest) ≡ length ls =
            length-append ls rest
            ∙ ap (λ k. length ls + length (remaining k)) none_left
            ∙ omega arith in
          rw outside (
            get_elem?-none ((ls ++ rest) ++ pad) mv (
              omega (
                arith,
                full,
                size,
                length-append (ls ++ rest) pad,
                length-replicate (mv - length (ls ++ rest)) blank_line,
              )))
    ]

module _ {I R M : Type 0} (ti : TextInput I R M) (me : Measure) (u : Unicode R) where
  -- Where there are items, line `i` of the window, which has as many lines as may be visible, is item
  -- `offset + i`, marked if the cursor is there, or a blank line behind the last; a further line says
  -- how many items are behind the window, if any are.
  pub list_lines_lem :
      (o : Overlay I)
      → 1 ≤ length o.items
      → let mv = effective_max_visible ti me u o in
        ((i : ℕ)
          → i < mv
          → get_elem? (list_lines ti me u o) i
            ≡ some (line_or_blank o.cursor (o.offset + i) (get_elem? o.items (o.offset + i))))
        × (get_elem? (list_lines ti me u o) mv ≡ (
            if ltb (o.offset + mv) (length o.items)
            then some (more_lines (length o.items - (o.offset + mv)))
            else none))
  unfolding list_lines
  list_lines_lem o h =
      let mv = effective_max_visible ti me u o in
      let some_items : (length o.items == 0) ≡ false = ground arith in
      let ls = padded mv (item_lines mv o.offset o.cursor o.items) in
      rw some_items (
        λ i small.
            get_elem?-take (mv + 1) i ls (omega (arith, small))
            ∙ get_elem?-item_lines mv o.offset o.cursor i o.items small,
        get_elem?-take (mv + 1) mv ls (omega arith) ∙ item_lines-last mv o.offset o.cursor o.items,
      )

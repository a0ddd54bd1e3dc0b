-- ===== src/AnsiSplit/Kept.antt =====
-- The rows of the window, from a row that is kept on.
use aku.Base.{
  ℕ, zero, suc, ◌+◌, ◌-◌, ◌==◌, ◌≤◌, ◌<◌, ◌≡◌, refl, sym, ◌∙◌, Bool, true, false, List, [], ◌∷◌,
  ◌++◌, ltb, leb, take, drop, if◌then◌else◌, arith, Bool-cases, inl, inr, append_assoc, append-nil,
  if-cases,
}
use aku.AnsiSplit.{
  Sequence, Split, track, closed, overflows, flush, leave_row, enter_row, new_row, placed,
  split_step, split_loop,
}
use aku.AnsiSplit.Rows.{Row, finish, add, fill, rows}

pub take_none : (n : ℕ) → take {A = List ℕ × ℕ} n [] ≡ []
take_none zero = refl
take_none (suc n) = refl

pub window_none : (out : List (List ℕ × ℕ)) (n k : ℕ) → out ≡ out ++ take n (drop k [])
window_none out n zero = rw (take_none n) (sym (append-nil out))
window_none out n (suc k) = rw (take_none n) (sym (append-nil out))

module _ (cont start end : ℕ) where
  -- The state in a row that is kept, and in one before the window.
  abbrev pub on : ℕ → Row → List (List ℕ × ℕ) → Split
  on row r out = record {
    row = row;
    col = r.col;
    row_width = r.limit;
    sgr = r.sgr;
    seg = r.seg;
    seg_start = true;
    capturing = true;
    segments = out;
  }

  abbrev pub off : ℕ → Row → List ℕ → List (List ℕ × ℕ) → Split
  off row r seg out = record {
    row = row;
    col = r.col;
    row_width = r.limit;
    sgr = r.sgr;
    seg = seg;
    seg_start = false;
    capturing = false;
    segments = out;
  }

  abbrev pub fresh : Row → Row
  fresh r = record r { limit = cont; col = 0; seg = r.sgr }

  abbrev pub ended : Row → List ℕ × ℕ
  ended r = (closed r.sgr r.seg, r.col)

  -- The width of the row after this one.
  abbrev pub Narrows : ℕ → Row → Type 0
  Narrows row r = (if suc row == 1 then cont else r.limit) ≡ cont

  pub fresh-Narrows : (row : ℕ) (r : Row) → Narrows row (fresh r)
  fresh-Narrows row r =
      if-cases (λ (x : ℕ). x ≡ cont) (suc row == 1) cont cont (λ _. refl) (λ _. refl)

  abbrev pub after_step : List Sequence → Split × Bool → Split
  after_step ts (u, stops) =
      let rest = split_loop cont start end ts u in if stops then flush u else rest

  -- The end of a row that is kept.
  pub new_row-on :
      (row : ℕ) (r : Row) (out : List (List ℕ × ℕ))
      → Narrows row r
      → start ≤ row
      → suc row < end
      → new_row cont start end (on row r out)
        ≡ (on (suc row) (fresh r) (out ++ ended r ∷ []), false)
  unfolding leave_row enter_row
  new_row-on row r out n h k =
      let inside : leb end (suc row) ≡ false = ground arith in
      let from : leb start (suc row) ≡ true = ground arith in
      let to : ltb (suc row) end ≡ true = ground arith in rw inside (rw from (rw to (rw n refl)))

  pub new_row-past :
      (ts : List Sequence) (row : ℕ) (r : Row) (out : List (List ℕ × ℕ))
      → end ≤ suc row
      → (after_step ts (new_row cont start end (on row r out))).segments ≡ out ++ ended r ∷ []
  unfolding leave_row
  new_row-past ts row r out h = let past : leb end (suc row) ≡ true = ground arith in rw past refl

  pub new_row-off :
      (row : ℕ) (r : Row) (seg : List ℕ) (out : List (List ℕ × ℕ))
      → Narrows row r
      → suc row < start
      → start < end
      → new_row cont start end (off row r seg out) ≡ (off (suc row) (fresh r) seg out, false)
  unfolding leave_row enter_row
  new_row-off row r seg out n h k =
      let inside : leb end (suc row) ≡ false = ground arith in
      let from : leb start (suc row) ≡ false = ground arith in rw inside (rw from (rw n refl))

  pub new_row-at :
      (row : ℕ) (r : Row) (seg : List ℕ) (out : List (List ℕ × ℕ))
      → Narrows row r
      → suc row ≡ start
      → start < end
      → new_row cont start end (off row r seg out) ≡ (on (suc row) (fresh r) out, false)
  unfolding leave_row enter_row
  new_row-at row r seg out n h k =
      let inside : leb end (suc row) ≡ false = ground arith in
      let from : leb start (suc row) ≡ true = ground arith in
      let to : ltb (suc row) end ≡ true = ground arith in rw inside (rw from (rw to (rw n refl)))

  -- What the loop gives from a row that is kept, and from one before the window.
  abbrev pub Keeps : List Sequence → Type 0
  Keeps ts =
      (row : ℕ) (r : Row) (out : List (List ℕ × ℕ))
      → Narrows row r
      → start ≤ row
      → row < end
      → (split_loop cont start end ts (on row r out)).segments
        ≡ out ++ take (end - row) (rows cont ts r)

  abbrev pub Skips : List Sequence → Type 0
  Skips ts =
      (row : ℕ) (r : Row) (seg : List ℕ) (out : List (List ℕ × ℕ))
      → Narrows row r
      → row < start
      → start < end
      → (split_loop cont start end ts (off row r seg out)).segments
        ≡ out ++ take (end - start) (drop (start - row) (rows cont ts r))

  pub take_first :
      (row : ℕ) (x : List ℕ × ℕ) (xs : List (List ℕ × ℕ))
      → row < end
      → take (end - row) (x ∷ xs) ≡ x ∷ take (end - suc row) xs
  take_first row x xs h = let e : end - row ≡ suc (end - suc row) = omega arith in rw e refl

  -- A row that is full, after_step which the loop goes on or stops.
  pub full-on :
      (ts : List Sequence)
      → Keeps ts
      → (row : ℕ) (r : Row) (out : List (List ℕ × ℕ)) → Narrows row r
      → start ≤ row
      → row < end
      → (after_step ts (new_row cont start end (on row r out))).segments
        ≡ out ++ take (end - row) (ended r ∷ rows cont ts (fresh r))
  full-on ts ih row r out n h k =
      rw (take_first row (ended r) (rows cont ts (fresh r)) k)
        (elim (Bool-cases (ltb (suc row) end)) [
          | inl more ↦ rw (new_row-on row r out n h (ground arith)) (
              ih (suc row) (fresh r) (out ++ ended r ∷ []) (fresh-Narrows (suc row) r) (omega arith)
                (ground arith)
              ∙ append_assoc out (ended r ∷ []) (take (end - suc row) (rows cont ts (fresh r))))
          | inr last ↦
              let none_left : end - suc row ≡ 0 = ground arith in
              rw none_left (new_row-past ts row r out (ground arith))
        ])

  -- A sequence that is written to a row which is kept.
  pub placed-on :
      (t : Sequence) (ts : List Sequence)
      → Keeps ts
      → (row : ℕ) (r : Row) (out : List (List ℕ × ℕ)) → Narrows row r
      → start ≤ row
      → row < end
      → (after_step ts (placed cont start end t (on row r out, false))).segments
        ≡ out ++ take (end - row) (let (done, s) = add cont t ([], r) in done ++ rows cont ts s)
  placed-on t ts ih row r out n h k =
      let w = record r { col = r.col + t.width; seg = r.seg ++ t.bytes } in
      elim (Bool-cases (leb r.limit (r.col + t.width))) [
        | inl full ↦ rw full (full-on ts ih row w out n h k)
        | inr room ↦ rw room (ih row w out n h k)
      ]

  -- A row that is ended before a sequence.
  pub add-cons :
      (t : Sequence) (ts : List Sequence) (x : List ℕ × ℕ) (r : Row)
      → (let (done, s) = add cont t (x ∷ [], r) in done ++ rows cont ts s)
        ≡ x ∷ (let (done, s) = add cont t ([], r) in done ++ rows cont ts s)
  add-cons t ts x r = elim (Bool-cases (leb r.limit (r.col + t.width))) [
    | inl full ↦ rw full refl
    | inr room ↦ rw room refl
  ]

  pub moved-on :
      (t : Sequence) (ts : List Sequence)
      → Keeps ts
      → (row : ℕ) (r : Row) (out : List (List ℕ × ℕ)) → Narrows row r
      → start ≤ row
      → row < end
      → (after_step ts (placed cont start end t (new_row cont start end (on row r out)))).segments
        ≡ out
          ++ take
              (end - row)
              (let (done, s) = add cont t (finish cont r []) in done ++ rows cont ts s)
  unfolding leave_row
  moved-on t ts ih row r out n h k = rw (add-cons t ts (ended r) (fresh r)) (
      rw
        (take_first row (ended r)
          (let (done, s) = add cont t ([], fresh r) in done ++ rows cont ts s) k)
        (elim (Bool-cases (ltb (suc row) end)) [
          | inl more ↦ rw (new_row-on row r out n h (ground arith)) (
              placed-on t ts ih (suc row) (fresh r) (out ++ ended r ∷ [])
                (fresh-Narrows (suc row) r) (omega arith) (ground arith)
              ∙ append_assoc out (ended r ∷ []) (
                  take (end - suc row)
                    (let (done, s) = add cont t ([], fresh r) in done ++ rows cont ts s)))
          | inr last ↦
              let none_left : end - suc row ≡ 0 = ground arith in
              let past : leb end (suc row) ≡ true = ground arith in rw none_left (rw past refl)
        ]))

  pub split_loop-on : (ts : List Sequence) → Keeps ts
  unfolding split_loop split_step rows fill
  split_loop-on [] row r out n h k =
      let e : end - row ≡ suc (end - suc row) = omega arith in
      elim (Bool-cases (ltb 0 r.col)) [
        | inl some_left ↦ rw some_left (rw e (rw (take_none (end - suc row)) refl))
        | inr none_left ↦ rw none_left (window_none out (end - row) 0)
      ]
  split_loop-on (t ∷ ts) row r out n h k = elim (Bool-cases (t.width == 0)) [
    | inl bare ↦ rw bare (
        split_loop-on ts row (record r { sgr = track r.sgr t.bytes; seg = r.seg ++ t.bytes }) out n
          h k)
    | inr wide ↦ rw wide (elim (Bool-cases (overflows r.col r.limit t)) [
      | inl over ↦ rw over (moved-on t ts (split_loop-on ts) row r out n h k)
      | inr fits ↦ rw fits (placed-on t ts (split_loop-on ts) row r out n h k)
    ])
  ]

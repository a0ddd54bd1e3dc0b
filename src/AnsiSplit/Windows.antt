-- ===== src/AnsiSplit/Windows.antt =====
-- The rows that `splitWrappedVisible` keeps.
use aku.Base.{
  ℕ, zero, suc, ◌+◌, ◌-◌, ◌==◌, ◌<◌, ◌≡◌, refl, ap, ap₂, ◌∙◌, true, false, List, [], ◌∷◌, ◌++◌, ltb,
  leb, length, take, drop, arith, Bool-cases, inl, inr,
}
use aku.AnsiSplit.{
  Sequence, track, overflows, new_row, placed, split_step, split_loop, split_wrapped_visible,
}
use aku.AnsiSplit.Rows.{Row, finish, add, fill, rows, first_row}
use aku.AnsiSplit.Kept.{
  window_none, off, fresh, ended, Narrows, fresh-Narrows, after_step, new_row-off, new_row-at,
  Skips, placed-on, add-cons, split_loop-on,
}

module _ (cont start end : ℕ) where
  drop_first :
      (row : ℕ) (x : List ℕ × ℕ) (xs : List (List ℕ × ℕ))
      → row < start
      → drop (start - row) (x ∷ xs) ≡ drop (start - suc row) xs
  drop_first row x xs h = let e : start - row ≡ suc (start - suc row) = omega arith in rw e refl

  -- A row before the window that is full.
  full-off :
      (ts : List Sequence)
      → Skips cont start end ts
      → (row : ℕ) (r : Row) (seg : List ℕ) (out : List (List ℕ × ℕ)) (x : List ℕ × ℕ)
      → Narrows cont start end row r
      → row < start
      → start < end
      → (after_step cont start end ts
          (new_row cont start end (off cont start end row r seg out))).segments
        ≡ out ++ take (end - start) (drop (start - row) (x ∷ rows cont ts (fresh cont start end r)))
  full-off ts ih row r seg out x n h k =
      rw (drop_first row x (rows cont ts (fresh cont start end r)) h)
        (elim (Bool-cases (ltb (suc row) start)) [
          | inl more ↦ rw (new_row-off cont start end row r seg out n (ground arith) k) (
              ih (suc row) (fresh cont start end r) seg out
                (fresh-Narrows cont start end (suc row) r) (ground arith) k)
          | inr here ↦
              let at : suc row ≡ start = ground arith in
              let none_left : start - suc row ≡ 0 = omega arith in
              rw (new_row-at cont start end row r seg out n at k) (
                rw none_left (
                  split_loop-on cont start end ts (suc row) (fresh cont start end r) out
                    (fresh-Narrows cont start end (suc row) r) (omega arith) (omega arith)
                  ∙ ap (λ m. out ++ take (end - m) (rows cont ts (fresh cont start end r))) at))
        ])

  placed-off :
      (t : Sequence) (ts : List Sequence)
      → Skips cont start end ts
      → (row : ℕ) (r : Row) (seg : List ℕ) (out : List (List ℕ × ℕ)) → Narrows cont start end row r
      → row < start
      → start < end
      → (after_step cont start end ts
          (placed cont start end t (off cont start end row r seg out, false))).segments
        ≡ out
          ++ take
              (end - start)
              (drop (start - row) (let (done, s) = add cont t ([], r) in done ++ rows cont ts s))
  placed-off t ts ih row r seg out n h k =
      let w = record r { col = r.col + t.width; seg = r.seg ++ t.bytes } in
      elim (Bool-cases (leb r.limit (r.col + t.width))) [
        | inl full ↦ rw full (full-off ts ih row w seg out (ended cont start end w) n h k)
        | inr room ↦ rw room (ih row w seg out n h k)
      ]

  moved-off :
      (t : Sequence) (ts : List Sequence)
      → Skips cont start end ts
      → (row : ℕ) (r : Row) (seg : List ℕ) (out : List (List ℕ × ℕ)) → Narrows cont start end row r
      → row < start
      → start < end
      → (after_step cont start end ts (
          placed cont start end t
            (new_row cont start end (off cont start end row r seg out)))).segments
        ≡ out
          ++ take (end - start) (
              drop
                (start - row)
                (let (done, s) = add cont t (finish cont r []) in done ++ rows cont ts s))
  moved-off t ts ih row r seg out n h k =
      let later =
        (let (done, s) = add cont t ([], fresh cont start end r) in done ++ rows cont ts s) in
      rw (add-cons cont start end t ts (ended cont start end r) (fresh cont start end r)) (
        rw (drop_first row (ended cont start end r) later h)
          (elim (Bool-cases (ltb (suc row) start)) [
            | inl more ↦ rw (new_row-off cont start end row r seg out n (ground arith) k) (
                placed-off t ts ih (suc row) (fresh cont start end r) seg out
                  (fresh-Narrows cont start end (suc row) r) (ground arith) k)
            | inr here ↦
                let at : suc row ≡ start = ground arith in
                let none_left : start - suc row ≡ 0 = omega arith in
                rw (new_row-at cont start end row r seg out n at k) (
                  rw none_left (
                    placed-on cont start end t ts (split_loop-on cont start end ts) (suc row)
                      (fresh cont start end r) out (fresh-Narrows cont start end (suc row) r)
                      (omega arith) (omega arith)
                    ∙ ap (λ m. out ++ take (end - m) later) at))
          ]))

  split_loop-off : (ts : List Sequence) → Skips cont start end ts
  unfolding split_loop split_step rows fill
  split_loop-off [] row r seg out n h k = elim (Bool-cases (ltb 0 r.col)) [
    | inl some_left ↦ rw some_left (
        rw (drop_first row (ended cont start end r) [] h)
          (window_none out (end - start) (start - suc row)))
    | inr none_left ↦ rw none_left (window_none out (end - start) (start - row))
  ]
  split_loop-off (t ∷ ts) row r seg out n h k = elim (Bool-cases (t.width == 0)) [
    | inl bare ↦ rw bare (
        split_loop-off ts row (record r { sgr = track r.sgr t.bytes; seg = r.seg ++ t.bytes }) seg
          out n h k)
    | inr wide ↦ rw wide (elim (Bool-cases (overflows r.col r.limit t)) [
      | inl over ↦ rw over (moved-off t ts (split_loop-off ts) row r seg out n h k)
      | inr fits ↦ rw fits (placed-off t ts (split_loop-off ts) row r seg out n h k)
    ])
  ]

rows_empty : (c w : ℕ) → rows c [] (first_row w) ≡ []
unfolding rows
rows_empty c w = refl

-- The rows that are kept are those of the window: `num_rows` of all rows of the line, or as many as
-- there are, from row `start_row` on, the same bytes and widths; none where nothing fits a row.
pub split_wrapped_visible-window :
    (line : List Sequence) (vp_width cont_width start_row num_rows : ℕ)
    → 0 < vp_width
    → 0 < cont_width
    → split_wrapped_visible line vp_width cont_width start_row num_rows
      ≡ take num_rows (drop start_row (rows cont_width line (first_row vp_width)))
unfolding split_wrapped_visible
split_wrapped_visible-window line w c start zero h k = elim (Bool-cases (length line == 0)) [
  | inl e ↦ rw e refl
  | inr e ↦ rw e refl
]
split_wrapped_visible-window [] w c start (suc n) h k =
    rw (rows_empty c w) (window_none [] (suc n) start)
split_wrapped_visible-window (t ∷ ts) w c zero (suc n) h k =
    let wide : w == 0 ≡ false = ground arith in
    let cont : leb c 0 ≡ false = ground arith in
    let filled : length (t ∷ ts) == 0 ≡ false = ground arith in
    let asked : suc n == 0 ≡ false = ground arith in
    let whole : 0 + suc n ≡ suc n = omega arith in
    let count : suc n - 0 ≡ suc n = omega arith in
    let some_left : ltb 0 (suc n) ≡ true = ground arith in
    rw (filled, asked, wide, cont, whole, some_left)
      (split_loop-on c 0 (suc n) (t ∷ ts) 0 (first_row w) [] refl (omega arith) (omega arith)
        ∙ ap (λ x. take x (rows c (t ∷ ts) (first_row w))) count)
split_wrapped_visible-window (t ∷ ts) w c (suc m) (suc n) h k =
    let wide : w == 0 ≡ false = ground arith in
    let cont : leb c 0 ≡ false = ground arith in
    let filled : length (t ∷ ts) == 0 ≡ false = ground arith in
    let asked : suc n == 0 ≡ false = ground arith in
    let count : suc m + suc n - suc m ≡ suc n = omega arith in
    let before : suc m - 0 ≡ suc m = omega arith in
    let later : suc m == 0 ≡ false = ground arith in
    rw (later, filled, asked, wide, cont)
      ((split_loop-off c (suc m) (suc m + suc n) (t ∷ ts) 0 (first_row w) [] [] refl (omega arith)
          (omega arith)
        ∙ ap₂ (λ x y. take x (drop y (rows c (t ∷ ts) (first_row w)))) count before))

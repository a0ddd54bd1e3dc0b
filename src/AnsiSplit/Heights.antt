-- ===== src/AnsiSplit/Heights.antt =====
-- The number of rows that a line takes, as the log panel counts it.
use aku.Base.{
  ℕ, zero, suc, ◌+◌, ◌-◌, ◌/◌, ◌==◌, ◌≤◌, ◌<◌, ◌≡◌, refl, sym, ap, ◌∙◌, true, false, List, [], ◌∷◌,
  ◌++◌, ltb, leb, lt→ltb, length, if◌then◌else◌, arith, Bool-cases, inl, inr, ℤ, pos, leb_ℤ, ◌-ℤ◌,
  pos_part,
}
use native.Mathlib.Nat.{add-div_right, div-eq_of_lt}
use aku.LogView.State.{wrap_height, continuation_width, positive}
use aku.AnsiSplit.{Sequence, overflows, track, closed}
use aku.AnsiSplit.Rows.{Row, fill, rows, first_row}

-- `ansi.StringWidth`.
abbrev pub total_width : List Sequence → ℕ
total_width [] = 0
total_width (t ∷ ts) = t.width + total_width ts

abbrev pub Narrow : List Sequence → Type 0
Narrow [] = Unit {0}
Narrow (t ∷ ts) = (t.width ≤ 1) × Narrow ts

-- The rows of `n` columns that follow the first `col` of a row.
height : ℕ → ℕ → ℕ → ℕ → ℕ
height cont limit col n = if ltb 0 (col + n) then 1 + (col + n - limit + cont - 1) / cont else 0

-- A row that is full is one more.
height_full :
    (cont limit col n : ℕ)
    → 0 < cont
    → suc col ≡ limit
    → height cont limit col (suc n) ≡ suc (height cont cont 0 n)
unfolding height
height_full cont limit col zero c h =
    let some_left : ltb 0 (col + 1) ≡ true = ground arith in
    let e : col + 1 - limit + cont - 1 ≡ cont - 1 = omega arith in
    rw some_left (rw e (ap (λ (q : ℕ). 1 + q) (div-eq_of_lt (omega arith))))
height_full cont limit col (suc n) c h =
    let some_left : ltb 0 (col + suc (suc n)) ≡ true = ground arith in
    let more : ltb 0 (0 + suc n) ≡ true = ground arith in
    let e : col + suc (suc n) - limit + cont - 1 ≡ n + cont = omega arith in
    rw some_left (
      rw more (
        rw e (
          rw (add-div_right n c) (elim (Bool-cases (leb cont (suc n))) [
            | inl wide ↦
                let f : 0 + suc n - cont + cont - 1 ≡ n = ground arith in rw f (omega arith)
            | inr narrow ↦
                let f : 0 + suc n - cont + cont - 1 ≡ cont - 1 = ground arith in
                let g : n / cont ≡ 0 = div-eq_of_lt (ground arith) in
                let h : (cont - 1) / cont ≡ 0 = div-eq_of_lt (omega arith) in
                rw f (rw g (rw h refl))
          ]))))

height_moved :
    (cont limit col w n : ℕ) → height cont limit (col + w) n ≡ height cont limit col (w + n)
unfolding height
height_moved cont limit col w n = let e : col + w + n ≡ col + (w + n) = omega arith in rw e refl

height_none :
    (cont limit col : ℕ) (x : List ℕ × ℕ)
    → 0 < cont
    → col < limit
    → length (if ltb 0 col then x ∷ [] else []) ≡ height cont limit col 0
unfolding height
height_none cont limit col x c h =
    let e : col + 0 ≡ col = omega arith in
    let f : col - limit + cont - 1 ≡ cont - 1 = omega arith in
    let g : (cont - 1) / cont ≡ 0 = div-eq_of_lt (omega arith) in
    rw (e, f, g)
      (elim (Bool-cases (ltb 0 col)) [
        | inl some_left ↦ rw some_left refl
        | inr none_left ↦ rw none_left refl
      ])

-- A state whose row has room.
length-rows :
    (cont : ℕ) (ts : List Sequence) (r : Row)
    → 0 < cont
    → r.col < r.limit
    → Narrow ts
    → length (rows cont ts r) ≡ height cont r.limit r.col (total_width ts)
unfolding rows fill
length-rows cont [] r c h n = height_none cont r.limit r.col (closed r.sgr r.seg, r.col) c h
length-rows cont (t ∷ ts) r c h (n, ns) = elim (Bool-cases (t.width == 0)) [
  | inl bare ↦
      let passed = record r { sgr = track r.sgr t.bytes; seg = r.seg ++ t.bytes } in
      let e : total_width ts ≡ t.width + total_width ts = ground arith in
      rw bare (length-rows cont ts passed c h ns ∙ ap (height cont r.limit r.col) e)
  | inr wide ↦
      let one : t.width ≡ 1 = ground arith in
      let e : suc (total_width ts) ≡ t.width + total_width ts = ground arith in
      let fits : overflows r.col r.limit t ≡ false = ground arith in
      let written = record r { col = r.col + t.width; seg = r.seg ++ t.bytes } in
      let next = record written { limit = cont; col = 0; seg = r.sgr } in
      rw (wide, fits)
        (elim (Bool-cases (leb r.limit (r.col + t.width))) [
          | inl full ↦ rw full (
              ap suc (length-rows cont ts next c c ns)
              ∙ sym (height_full cont r.limit r.col (total_width ts) c (ground arith))
              ∙ ap (height cont r.limit r.col) e)
          | inr room ↦ rw room (
              length-rows cont ts written c (ground arith) ns
              ∙ height_moved cont r.limit r.col t.width (total_width ts))
        ])
]

continuation_width-pos : (w : ℤ) → 0 < continuation_width w
continuation_width-pos w = ground arith

height_lem :
    (cont w d : ℕ)
    → 0 < cont
    → 0 < w
    → 0 < d
    → height cont w 0 d ≡ (if leb d w then 1 else 1 + (d - w + cont - 1) / cont)
unfolding height
height_lem cont w d c h k =
    let some_left : ltb 0 (0 + d) ≡ true = ground arith in
    let from : 0 + d ≡ d = omega arith in
    rw (from, lt→ltb 0 d k)
      (elim (Bool-cases (leb d w)) [
        | inl fits ↦
            let e : d - w + cont - 1 ≡ cont - 1 = ground arith in
            let f : (cont - 1) / cont ≡ 0 = div-eq_of_lt (omega arith) in rw fits (rw (e, f) refl)
        | inr more ↦ rw more refl
      ])

pos_sub : (d w : ℕ) → pos_part (pos d -ℤ pos w) ≡ d - w
unfolding ◌-ℤ◌
pos_sub d w = ground arith

wrap_height-pos :
    (w d : ℕ)
    → 0 < w
    → wrap_height (pos d) (pos w) ≡ (
        let cont = continuation_width (pos w) in
        if leb d w then 1 else 1 + (d - w + cont - 1) / cont)
unfolding wrap_height
wrap_height-pos w d h =
    let first : positive (pos w) ≡ w = ground arith in
    let order : leb_ℤ (pos d) (pos w) ≡ leb d w = ground arith in
    rw (first, order, pos_sub d w) refl

-- A line of characters that take one column takes as many rows as the log panel counts for its
-- width, in a viewport of positive width, if it has any.
pub length-rows-wrap_height :
    (line : List Sequence) (vp_width : ℕ)
    → Narrow line
    → 0 < vp_width
    → 0 < total_width line
    → length (rows (continuation_width (pos vp_width)) line (first_row vp_width))
      ≡ wrap_height (pos (total_width line)) (pos vp_width)
length-rows-wrap_height line w n h k =
    length-rows (continuation_width (pos w)) line (first_row w) (continuation_width-pos (pos w)) h n
    ∙ height_lem (continuation_width (pos w)) w (total_width line) (continuation_width-pos (pos w))
        h k
    ∙ sym (wrap_height-pos w (total_width line) h)

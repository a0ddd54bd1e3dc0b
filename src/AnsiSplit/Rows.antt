-- ===== src/AnsiSplit/Rows.antt =====
-- The rows of a line: what `splitWrappedVisible` does when it keeps all of them.
use aku.Base.{ℕ, ◌+◌, ◌==◌, List, [], ◌∷◌, ◌++◌, ltb, leb, if◌then◌else◌}
use aku.AnsiSplit.{Sequence, track, closed, overflows}

-- The row that is being filled.
pub record Row : Type 0 where
  pub limit : ℕ
  pub col : ℕ
  pub sgr : List ℕ
  pub seg : List ℕ

-- Rows that are full, and the one that is being filled.
abbrev pub Filled : Type 0
Filled = List (List ℕ × ℕ) × Row

module _ (cont_width : ℕ) where
  abbrev pub finish : Row → List (List ℕ × ℕ) → Filled
  finish r done = (
    done ++ (closed r.sgr r.seg, r.col) ∷ [],
    record r { limit = cont_width; col = 0; seg = r.sgr },
  )

  abbrev pub add : Sequence → Filled → Filled
  add t (done, r) =
      let s = record r { col = r.col + t.width; seg = r.seg ++ t.bytes } in
      if leb s.limit s.col then finish s done else (done, s)

  -- A sequence goes to the row, or to the next where it would not fit.
  unfoldable pub fill : Sequence → Row → Filled
  fill t r =
      if t.width == 0
      then ([], record r { sgr = track r.sgr t.bytes; seg = r.seg ++ t.bytes })
      else add t (if overflows r.col r.limit t then finish r [] else ([], r))

  -- A last row without width is none.
  unfoldable pub rows : List Sequence → Row → List (List ℕ × ℕ)
  unfolding fill
  rows [] r = if ltb 0 r.col then (closed r.sgr r.seg, r.col) ∷ [] else []
  rows (t ∷ ts) r = let (done, s) = fill t r in done ++ rows ts s

abbrev pub first_row : ℕ → Row
first_row width = record { limit = width; col = 0; sgr = []; seg = [] }

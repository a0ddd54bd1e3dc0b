-- ===== src/AnsiSplit.antt =====
-- internal/ui/ansisplit.go: highlights in a line, and its rows under soft wrap. A line is the list of
-- the sequences into which `ansi.DecodeSequence` takes it apart, each with its display width; a text
-- is its bytes. `wrapLines`, which cuts with `ansi.Cut`, is left out.
pub mod Rows
pub mod Kept
pub mod Windows
pub mod Heights
pub mod Highlight
pub mod Shown
pub mod Terminal
mod Tests
use aku.Base.{
  ℕ, zero, suc, ◌+◌, ◌-◌, ◌==◌, Bool, true, false, not, ◌&&◌, ◌||◌, List, [], ◌∷◌, ◌++◌, ltb, leb,
  length, if◌then◌else◌,
}

pub record Sequence : Type 0 where
  pub bytes : List ℕ
  pub width : ℕ

abbrev pub same_bytes : List ℕ → List ℕ → Bool
same_bytes [] [] = true
same_bytes (b ∷ bs) (c ∷ cs) = b == c && same_bytes bs cs
same_bytes _ _ = false

abbrev pub last_byte : ℕ → List ℕ → ℕ
last_byte b [] = b
last_byte b (c ∷ cs) = last_byte c cs

-- The escape byte, `[`, any bytes and an `m`.
unfoldable pub is_sgr : List ℕ → Bool
is_sgr (a ∷ b ∷ c ∷ cs) = a == 27 && b == b'[' && last_byte c cs == b'm'
is_sgr _ = false

abbrev pub reset : List ℕ
reset = 27 ∷ b'[' ∷ b'm' ∷ []

abbrev pub reset_0 : List ℕ
reset_0 = 27 ∷ b'[' ∷ b'0' ∷ b'm' ∷ []

unfoldable pub is_reset_sgr : List ℕ → Bool
is_reset_sgr seq = same_bytes seq reset || same_bytes seq reset_0

-- `sgrBuf` after a sequence without width.
unfoldable pub track : List ℕ → List ℕ → List ℕ
track sgr seq = if is_sgr seq then if is_reset_sgr seq then [] else sgr ++ seq else sgr

-- The state of `splitWrappedVisible`; a segment is kept with its width, which the code appends to a
-- slice of its own.
pub record Split : Type 0 where
  pub row : ℕ
  pub col : ℕ
  pub row_width : ℕ
  pub sgr : List ℕ
  pub seg : List ℕ
  pub seg_start : Bool
  pub capturing : Bool
  pub segments : List (List ℕ × ℕ)

abbrev pub start_segment : Split → Split
start_segment s = record s { seg = s.sgr; seg_start = true }

-- The bytes of a segment that ends under the given SGR state.
unfoldable pub closed : List ℕ → List ℕ → List ℕ
closed sgr seg = if ltb 0 (length sgr) then seg ++ reset else seg

abbrev pub close_segment : Split → Split
close_segment s =
    if s.seg_start
    then record s { segments = s.segments ++ (closed s.sgr s.seg, s.col) ∷ []; seg_start = false }
    else s

abbrev pub write : List ℕ → Split → Split
write seq s = if s.capturing && s.seg_start then record s { seg = s.seg ++ seq } else s

-- A sequence without width.
abbrev pub pass : List ℕ → Split → Split
pass seq s = write seq (record s { sgr = track s.sgr seq })

-- A sequence with width.
abbrev pub put_character : Sequence → Split → Split
put_character t s = let u = write t.bytes s in record u { col = u.col + t.width }

abbrev pub overflows : ℕ → ℕ → Sequence → Bool
overflows col row_width t = ltb row_width (col + t.width) && ltb 0 col

-- The last segment.
abbrev pub flush : Split → Split
flush s = if s.capturing && s.seg_start && ltb 0 s.col then close_segment s else s

module _ (cont_width start_row end_row : ℕ) where
  abbrev pub in_window : ℕ → Bool
  in_window row = leb start_row row && ltb row end_row

  -- The end of a row, up to where the loop may stop.
  unfoldable pub leave_row : Split → Split
  leave_row s =
      let t = if s.capturing then close_segment s else s in
      record t {
        row = suc t.row;
        row_width = if suc t.row == 1 then cont_width else t.row_width;
        col = 0;
      }

  -- The start of the next row, if the loop goes on.
  unfoldable pub enter_row : Split → Split
  enter_row s =
      if in_window s.row
      then start_segment (record s { capturing = true })
      else record s { capturing = false }

  -- The state, and whether the loop stops.
  abbrev pub new_row : Split → Split × Bool
  new_row s = let t = leave_row s in if leb end_row t.row then (t, true) else (enter_row t, false)

  abbrev pub placed : Sequence → Split × Bool → Split × Bool
  placed t (s, true) = (s, true)
  placed t (s, false) =
      let u = put_character t s in if leb u.row_width u.col then new_row u else (u, false)

  unfoldable pub split_step : Sequence → Split → Split × Bool
  unfolding leave_row enter_row
  split_step t s =
      if t.width == 0
      then (pass t.bytes s, false)
      else placed t (if overflows s.col s.row_width t then new_row s else (s, false))

  unfoldable pub split_loop : List Sequence → Split → Split
  unfolding split_step
  split_loop [] s = flush s
  split_loop (t ∷ ts) s =
      let (u, stops) = split_step t s in
      let rest = split_loop ts u in if stops then flush u else rest

-- `splitWrappedVisible`; a negative number of rows or width is given as 0, and no start is negative.
unfoldable pub split_wrapped_visible : List Sequence → ℕ → ℕ → ℕ → ℕ → List (List ℕ × ℕ)
split_wrapped_visible line vp_width cont_width start_row num_rows =
    let cont = if leb cont_width 0 then 1 else cont_width in
    let first = start_row == 0 && ltb 0 num_rows in
    let start : Split = record {
      row = 0;
      col = 0;
      row_width = vp_width;
      sgr = [];
      seg = [];
      seg_start = first;
      capturing = first;
      segments = [];
    } in
    if length line == 0 || num_rows == 0 || vp_width == 0
    then []
    else (split_loop cont start_row (start_row + num_rows) line start).segments

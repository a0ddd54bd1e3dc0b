-- ===== src/Pipeline.antt =====
-- internal/highlight/segments.go and pipeline.go: highlighters that run over a log line in order. A
-- line is its bytes. The scan of the line, which the code does with an index, is a machine that takes
-- byte after byte; a segment is its text.
pub mod Segments
mod Tests
use aku.Base.{
  ℕ, ◌==◌, Bool, true, false, not, ◌&&◌, ◌||◌, List, [], ◌∷◌, ◌++◌, leb, length, if◌then◌else◌,
}
use aku.AnsiSplit.{same_bytes, is_reset_sgr}

abbrev pub Highlighter : Type 0
Highlighter = List ℕ → List ℕ

pub record Segment : Type 0 where
  pub text : List ℕ
  pub styled : Bool

-- Where the scan stands: in text, behind an escape, or in the parameters of a sequence.
pub data Place : Type 0 where
  in_text behind_escape in_parameters : Place

-- `current` is the segment up to the sequence that is being read, `sequence` what is read of it: in
-- text it is empty.
pub record Scan : Type 0 where
  pub place : Place
  pub current : List ℕ
  pub sequence : List ℕ
  pub in_styled : Bool

abbrev pub is_parameter : ℕ → Bool
is_parameter b = leb b'0' b && leb b b'9' || b == b';'

abbrev pub no_bytes : List ℕ → Bool
no_bytes [] = true
no_bytes (b ∷ bs) = false

-- A segment, unless it is empty.
abbrev pub segment : List ℕ → Bool → List Segment
segment text styled = if no_bytes text then [] else record { text = text; styled = styled } ∷ []

abbrev pub Scanned : Type 0
Scanned = List Segment × Scan

abbrev pub in_segment : List ℕ → Bool → Scan
in_segment text styled = record {
  place = in_text;
  current = text;
  sequence = [];
  in_styled = styled;
}

-- An SGR sequence is read.
unfoldable pub read_sgr : List ℕ → Scan → Scanned
read_sgr seq s =
    if s.in_styled
    then if is_reset_sgr seq
      then (record { text = s.current ++ seq; styled = true } ∷ [], in_segment [] false)
      else ([], in_segment (s.current ++ seq) true)
    else if is_reset_sgr seq
    then ([], in_segment (s.current ++ seq) false)
    else (segment s.current false, in_segment seq true)

-- The bytes read are no SGR sequence, and belong to the segment.
abbrev pub read_other : List ℕ → Scan → Scanned
read_other seq s = ([], in_segment (s.current ++ seq) s.in_styled)

unfoldable pub read : Place → ℕ → Scan → Scanned
unfolding read_sgr
read in_text b s =
    if b == 27
    then ([], record s { place = behind_escape; sequence = s.sequence ++ b ∷ [] })
    else read_other (s.sequence ++ b ∷ []) s
read behind_escape b s =
    if b == b'['
    then ([], record s { place = in_parameters; sequence = s.sequence ++ b ∷ [] })
    else read_other (s.sequence ++ b ∷ []) s
read in_parameters b s =
    if is_parameter b
    then ([], record s { sequence = s.sequence ++ b ∷ [] })
    else if b == b'm'
    then read_sgr (s.sequence ++ b ∷ []) s
    else read_other (s.sequence ++ b ∷ []) s

unfoldable pub scan : List ℕ → Scan → List Segment
unfolding read
scan [] s = segment (s.current ++ s.sequence) s.in_styled
scan (b ∷ bs) s = let (out, t) = read s.place b s in out ++ scan bs t

-- `strings.IndexByte(line, '\x1b') == -1`.
abbrev pub has_escape : List ℕ → Bool
has_escape [] = false
has_escape (b ∷ bs) = b == 27 || has_escape bs

-- What is before the segments, what is written, and whether anything is.
pub record Output : Type 0 where
  pub before : List ℕ
  pub written : List ℕ
  pub modified : Bool

abbrev pub write_text : List ℕ → Output → Output
write_text text o = record o {
  before = o.before ++ text;
  written = if o.modified then o.written ++ text else o.written;
}

-- A highlighted text, the first that is not the segment's own with all before it.
abbrev pub write_highlighted : List ℕ → List ℕ → Output → Output
write_highlighted text highlighted o =
    if same_bytes highlighted text then write_text text o else record {
      before = o.before ++ text;
      written = (if o.modified then o.written else o.before) ++ highlighted;
      modified = true;
    }

abbrev pub write_segment : Highlighter → Segment → Output → Output
write_segment h g o =
    if g.styled then write_text g.text o else write_highlighted g.text (h g.text) o

unfoldable pub write_segments : Highlighter → List Segment → Output → Output
write_segments h [] o = o
write_segments h (g ∷ gs) o = write_segments h gs (write_segment h g o)

unfoldable pub apply_to_unhighlighted : List ℕ → Highlighter → List ℕ
unfolding scan write_segments
apply_to_unhighlighted line h =
    let o =
      write_segments h (scan line (in_segment [] false))
        (record { before = []; written = []; modified = false }) in
    if has_escape line then if o.modified then o.written else line else h line

pub record Step : Type 0 where
  pub highlighter : Highlighter
  pub raw : Bool

-- A pipeline, and its builder.
abbrev pub Pipeline : Type 0
Pipeline = List Step

abbrev pub add : Highlighter → Pipeline → Pipeline
add h p = p ++ record { highlighter = h; raw = false } ∷ []

abbrev pub add_raw : Highlighter → Pipeline → Pipeline
add_raw h p = p ++ record { highlighter = h; raw = true } ∷ []

abbrev pub run_step : Step → List ℕ → List ℕ
run_step s line = if s.raw then s.highlighter line else apply_to_unhighlighted line s.highlighter

unfoldable pub highlight : Pipeline → List ℕ → List ℕ
unfolding apply_to_unhighlighted
highlight [] line = line
highlight (s ∷ ss) line = highlight ss (run_step s line)

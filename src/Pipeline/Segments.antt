-- ===== src/Pipeline/Segments.antt =====
-- The segments of a line, and what a highlighter makes of it.
use aku.Base.{
  ℕ, ◌==◌, ◌≡◌, ◌≢◌, refl, sym, ap, ap₂, ◌∙◌, Bool, true, false, List, [], ◌∷◌, ◌++◌, if◌then◌else◌,
  if-cases, arith, Bool-cases, inl, inr, append_assoc, append-nil,
}
use aku.AnsiSplit.{same_bytes, is_reset_sgr}
use aku.Pipeline.{
  Highlighter, Segment, Place, in_text, behind_escape, in_parameters, Scan, Scanned, is_parameter,
  write_text, segment, in_segment, read_sgr, read_other, read, scan, has_escape, Output,
  write_segment, write_segments, apply_to_unhighlighted,
}

-- The texts of the segments, and those with the plain ones highlighted.
abbrev pub texts : List Segment → List ℕ
texts [] = []
texts (g ∷ gs) = g.text ++ texts gs

abbrev pub highlighted : Highlighter → List Segment → List ℕ
highlighted h [] = []
highlighted h (g ∷ gs) = (if g.styled then g.text else h g.text) ++ highlighted h gs

segment-texts : (text : List ℕ) (styled : Bool) → texts (segment text styled) ≡ text
segment-texts [] styled = refl
segment-texts (b ∷ bs) styled = append-nil (b ∷ bs)

texts-append : (gs hs : List Segment) → texts (gs ++ hs) ≡ texts gs ++ texts hs
texts-append [] hs = refl
texts-append (g ∷ gs) hs =
    ap (λ t. g.text ++ t) (texts-append gs hs) ∙ sym (append_assoc g.text (texts gs) (texts hs))

-- What the scan holds.
abbrev held : Scan → List ℕ
held s = s.current ++ s.sequence

-- A byte that is read goes to a segment or stays.
abbrev Keeps : Scan → List ℕ → Scanned → Type 0
Keeps s bytes (out, t) = texts out ++ held t ≡ held s ++ bytes

read_sgr-Keeps :
    (seq : List ℕ) (s : Scan) (bytes : List ℕ)
    → seq ≡ s.sequence ++ bytes
    → Keeps s bytes (read_sgr seq s)
unfolding read_sgr
read_sgr-Keeps seq s bytes e =
    let whole : s.current ++ seq ≡ held s ++ bytes =
      ap (λ q. s.current ++ q) e ∙ sym (append_assoc s.current s.sequence bytes) in
    if-cases (Keeps s bytes) s.in_styled _ _
      (λ _.
        if-cases (Keeps s bytes) (is_reset_sgr seq) _ _
          (λ _. append-nil ((s.current ++ seq) ++ []) ∙ append-nil (s.current ++ seq) ∙ whole)
          (λ _. append-nil (s.current ++ seq) ∙ whole))
      (λ _.
        if-cases (Keeps s bytes) (is_reset_sgr seq) _ _ (λ _. append-nil (s.current ++ seq) ∙ whole)
          (λ _.
            ap (λ t. t ++ (seq ++ [])) (segment-texts s.current false)
            ∙ ap (λ t. s.current ++ t) (append-nil seq)
            ∙ whole))

read_other-Keeps : (s : Scan) (bytes : List ℕ) → Keeps s bytes (read_other (s.sequence ++ bytes) s)
read_other-Keeps s bytes =
    append-nil (s.current ++ (s.sequence ++ bytes)) ∙ sym (append_assoc s.current s.sequence bytes)

read-Keeps : (p : Place) (b : ℕ) (s : Scan) → Keeps s (b ∷ []) (read p b s)
unfolding read
read-Keeps in_text b s =
    if-cases (Keeps s (b ∷ [])) (b == 27) _ _
      (λ _. sym (append_assoc s.current s.sequence (b ∷ []))) (λ _. read_other-Keeps s (b ∷ []))
read-Keeps behind_escape b s =
    if-cases (Keeps s (b ∷ [])) (b == b'[') _ _
      (λ _. sym (append_assoc s.current s.sequence (b ∷ []))) (λ _. read_other-Keeps s (b ∷ []))
read-Keeps in_parameters b s =
    if-cases (Keeps s (b ∷ [])) (is_parameter b) _ _
      (λ _. sym (append_assoc s.current s.sequence (b ∷ [])))
      (λ _.
        if-cases (Keeps s (b ∷ [])) (b == b'm') _ _
          (λ _. read_sgr-Keeps (s.sequence ++ b ∷ []) s (b ∷ []) refl)
          (λ _. read_other-Keeps s (b ∷ [])))

-- The segments are the line, in order.
pub texts-scan : (bytes : List ℕ) (s : Scan) → texts (scan bytes s) ≡ held s ++ bytes
unfolding scan
texts-scan [] s = segment-texts (held s) s.in_styled ∙ sym (append-nil (held s))
texts-scan (b ∷ bs) s =
    let (out, t) = read s.place b s in
    texts-append out (scan bs t)
    ∙ ap (λ q. texts out ++ q) (texts-scan bs t)
    ∙ sym (append_assoc (texts out) (held t) bs)
    ∙ ap (λ q. q ++ bs) (read-Keeps s.place b s)
    ∙ append_assoc (held s) (b ∷ []) bs

same_bytes→eq : (xs ys : List ℕ) → same_bytes xs ys ≡ true → xs ≡ ys
same_bytes→eq [] [] h = refl
same_bytes→eq [] (y ∷ ys) h = absurd (ground arith)
same_bytes→eq (x ∷ xs) [] h = absurd (ground arith)
same_bytes→eq (x ∷ xs) (y ∷ ys) h =
    ap₂ (λ a bs. a ∷ bs) (ground arith) (same_bytes→eq xs ys (ground arith))

-- What is written, or would be, so far.
abbrev so_far : Output → List ℕ
so_far o = if o.modified then o.written else o.before

write_text-so_far : (text : List ℕ) (o : Output) → so_far (write_text text o) ≡ so_far o ++ text
write_text-so_far text o = elim (Bool-cases o.modified) [ inl m ↦ rw m refl | inr m ↦ rw m refl ]

write_segment-so_far :
    (h : Highlighter) (g : Segment) (o : Output)
    → so_far (write_segment h g o) ≡ so_far o ++ (if g.styled then g.text else h g.text)
write_segment-so_far h g o = elim (Bool-cases g.styled) [
  | inl styled ↦ rw styled (write_text-so_far g.text o)
  | inr plain ↦ rw plain (elim (Bool-cases (same_bytes (h g.text) g.text)) [
    | inl same ↦ rw same (
        write_text-so_far g.text o
        ∙ ap (λ t. so_far o ++ t) (sym (same_bytes→eq (h g.text) g.text same)))
    | inr other ↦ rw other refl
  ])
]

write_segments-so_far :
    (h : Highlighter) (gs : List Segment) (o : Output)
    → so_far (write_segments h gs o) ≡ so_far o ++ highlighted h gs
unfolding write_segments
write_segments-so_far h [] o = sym (append-nil (so_far o))
write_segments-so_far h (g ∷ gs) o =
    write_segments-so_far h gs (write_segment h g o)
    ∙ ap (λ t. t ++ highlighted h gs) (write_segment-so_far h g o)
    ∙ append_assoc (so_far o) (if g.styled then g.text else h g.text) (highlighted h gs)

write_segment-before :
    (h : Highlighter) (g : Segment) (o : Output) → (write_segment h g o).before ≡ o.before ++ g.text
write_segment-before h g o = elim (Bool-cases g.styled) [
  | inl styled ↦ rw styled refl
  | inr plain ↦ rw plain (
      if-cases (λ (x : Output). x.before ≡ o.before ++ g.text) (same_bytes (h g.text) g.text) _ _
        (λ _. refl) (λ _. refl))
]

write_segments-before :
    (h : Highlighter) (gs : List Segment) (o : Output)
    → (write_segments h gs o).before ≡ o.before ++ texts gs
unfolding write_segments
write_segments-before h [] o = sym (append-nil o.before)
write_segments-before h (g ∷ gs) o =
    write_segments-before h gs (write_segment h g o)
    ∙ ap (λ t. t ++ texts gs) (write_segment-before h g o)
    ∙ append_assoc o.before g.text (texts gs)

-- A line without escapes is one plain segment.
scan-plain :
    (bytes : List ℕ) (current : List ℕ)
    → has_escape bytes ≡ false
    → scan bytes (in_segment current false) ≡ segment (current ++ bytes) false
unfolding scan read
scan-plain [] current h = refl
scan-plain (b ∷ bs) current h =
    let text : b == 27 ≡ false = ground arith in
    rw text (
      scan-plain bs (current ++ b ∷ []) (ground arith)
      ∙ ap (λ t. segment t false) (append_assoc current (b ∷ []) bs))

highlighted-segment :
    (h : Highlighter) (line : List ℕ) → line ≢ [] → h line ≡ highlighted h (segment line false)
highlighted-segment h [] n = absurd (n refl)
highlighted-segment h (b ∷ bs) n = sym (append-nil (h (b ∷ bs)))

-- The line comes out with each plain segment replaced by what the highlighter makes of it, and each
-- styled one, from an SGR sequence to the next reset, as it is; the segments are the line. An empty
-- line is left to the highlighter.
pub apply_to_unhighlighted_lem :
    (line : List ℕ) (h : Highlighter)
    → line ≢ []
    → (apply_to_unhighlighted line h ≡ highlighted h (scan line (in_segment [] false)))
      × (texts (scan line (in_segment [] false)) ≡ line)
unfolding apply_to_unhighlighted
apply_to_unhighlighted_lem line h n =
    let start : Output = record { before = []; written = []; modified = false } in
    let gs = scan line (in_segment [] false) in
    let o = write_segments h gs start in
    let whole = texts-scan line (in_segment [] false) in
    (
      elim (Bool-cases (has_escape line)) [
        | inl escaped ↦ rw escaped (
            ap (λ l. if o.modified then o.written else l)
              (sym (write_segments-before h gs start ∙ whole))
            ∙ write_segments-so_far h gs start)
        | inr plain ↦
            rw plain
              (highlighted-segment h line n ∙ ap (highlighted h) (sym (scan-plain line [] plain)))
      ],
      whole,
    )

-- ===== src/AnsiSplit/Terminal.antt =====
-- What a terminal shows of a line with highlights.
use aku.Base.{
  ℕ, suc, ◌+◌, ◌==◌, ◌≤◌, ◌<◌, ◌≡◌, refl, sym, ap, ap₂, subst, ◌∙◌, Bool, true, false, ◌&&◌, List,
  [], ◌∷◌, ◌++◌, map, ltb, leb, leb→le, arith, Bool-cases, inl, inr, ℤ, pos, eq_ℤ, if-cases,
  append_assoc,
}
use native.Mathlib.Nat.{le_refl}
use aku.AnsiSplit.{Sequence, is_sgr, reset}
use aku.AnsiSplit.Highlight.{
  HighlightRange, Inject, Written, kept, escape, colour, inject_step, inject_loop,
  inject_highlights, begin_match, leave_match, write_character,
}
use aku.AnsiSplit.Shown.{
  Shown, shown, Ordered, OneColumn, IsColour, AllColours, kept-AllColours, kept-colour, kept_reset,
  shown_reset, Ordered-le, style_at, highlighted, style_before, highlighted_past, highlighted_none,
}

module _ (selected : ℤ) (hi sel : List ℕ) where
  abbrev plain : List (List ℕ) → List HighlightRange → ℕ → ℕ → Inject
  plain sgr ms i col = record { sgr = sgr; ranges = ms; match_idx = i; in_match = false; col = col }

  abbrev inside : List (List ℕ) → List HighlightRange → ℕ → ℕ → Inject
  inside sgr ms i col = record { sgr = sgr; ranges = ms; match_idx = i; in_match = true; col = col }

  -- What is shown of the rest of a line, outside a match and inside one.
  abbrev PlainRest : List Sequence → Type 0
  PlainRest ts =
      (sgr : List (List ℕ)) (ms : List HighlightRange) (i col : ℕ)
      → AllColours sgr
      → Ordered col ms
      → shown sgr (inject_loop selected hi sel ts (plain sgr ms i col))
        ≡ highlighted selected hi sel i ms col sgr ts

  abbrev InsideRest : List Sequence → Type 0
  InsideRest ts =
      (sgr : List (List ℕ)) (m : HighlightRange) (ms : List HighlightRange) (i col : ℕ)
      → AllColours sgr
      → m.start ≤ col
      → col < m.end
      → Ordered m.end ms
      → shown (colour selected hi sel i ∷ [])
          (inject_loop selected hi sel ts (inside sgr (m ∷ ms) i col))
        ≡ highlighted selected hi sel i (m ∷ ms) col sgr ts

  module _ (hi_colour : IsColour hi) (sel_colour : IsColour sel) where
    colour-IsColour : (i : ℕ) → IsColour (colour selected hi sel i)
    colour-IsColour i =
        if-cases IsColour (eq_ℤ (pos i) selected) sel hi (λ _. sel_colour) (λ _. hi_colour)

    -- A reset and a colour.
    shown_colour :
        (i : ℕ) (style : List (List ℕ)) (rest : List Sequence)
        → shown style (escape reset ∷ escape (colour selected hi sel i) ∷ rest)
          ≡ shown (colour selected hi sel i ∷ []) rest
    shown_colour i style rest =
        rw (kept_reset style)
          (rw (kept-colour [] (colour selected hi sel i) (colour-IsColour i)) refl)

    begins :
        (ts : List Sequence)
        → PlainRest ts
        → InsideRest ts
        → (sgr : List (List ℕ)) (ms : List HighlightRange) (i col : ℕ) → AllColours sgr
        → Ordered col ms
        → (let (out, s) = begin_match selected hi sel (plain sgr ms i col) in
            shown sgr (out ++ inject_loop selected hi sel ts s))
          ≡ highlighted selected hi sel i ms col sgr ts
    begins ts p q sgr [] i col c o = p sgr [] i col c o
    begins ts p q sgr (m ∷ ms) i col c (o, n, os) = elim (Bool-cases (leb m.start col)) [
      | inl here ↦ rw here (
          shown_colour i sgr (inject_loop selected hi sel ts (inside sgr (m ∷ ms) i col))
          ∙ q sgr m ms i col c (ground arith) (ground arith) os)
      | inr later ↦ rw later (p sgr (m ∷ ms) i col c (o, n, os))
    ]

    -- Behind a character of a match, which may end here and be followed by another.
    leaves :
        (ts : List Sequence)
        → PlainRest ts
        → InsideRest ts
        → (sgr : List (List ℕ)) (m : HighlightRange) (ms : List HighlightRange) (i col : ℕ)
        → AllColours sgr
        → m.start ≤ col
        → col ≤ m.end
        → Ordered m.end ms
        → (let (out, s) = leave_match selected hi sel (inside sgr (m ∷ ms) i col) in
            shown (colour selected hi sel i ∷ []) (out ++ inject_loop selected hi sel ts s))
          ≡ highlighted selected hi sel i (m ∷ ms) col sgr ts
    leaves ts p q sgr m ms i col c a b os = elim (Bool-cases (leb m.end col)) [
      | inl over ↦
          let next = begin_match selected hi sel (plain sgr ms (suc i) col) in
          let rest = inject_loop selected hi sel ts next.1 in
          rw over (
            ap (shown (kept (colour selected hi sel i ∷ []) reset))
              (append_assoc (map escape sgr) next.0 rest)
            ∙ shown_reset sgr (colour selected hi sel i ∷ []) (next.0 ++ rest) c
            ∙ begins ts p q sgr ms (suc i) col c (Ordered-le ms m.end col os b)
            ∙ sym (highlighted_past selected hi sel m ms i col sgr ts (leb→le m.end col over)))
      | inr more ↦ rw more (q sgr m ms i col c a (ground arith) os)
    ]

    -- A character that a match holds.
    in_range :
        (t : Sequence) (ts : List Sequence)
        → PlainRest ts
        → InsideRest ts
        → t.width ≡ 1
        → (sgr : List (List ℕ)) (m : HighlightRange) (ms : List HighlightRange) (i col : ℕ)
        → AllColours sgr
        → m.start ≤ col
        → col < m.end
        → Ordered m.end ms
        → (let (out, s) = leave_match selected hi sel (inside sgr (m ∷ ms) i (col + t.width)) in
            shown (colour selected hi sel i ∷ []) (t ∷ (out ++ inject_loop selected hi sel ts s)))
          ≡ highlighted selected hi sel i (m ∷ ms) col sgr (t ∷ ts)
    in_range t ts p q one sgr m ms i col c a b os =
        let wide : t.width == 0 ≡ false = ground arith in
        let from : leb m.start col ≡ true = ground arith in
        let to : ltb col m.end ≡ true = ground arith in
        let next : col + t.width ≡ suc col = omega arith in
        rw (wide, from, to, next)
          (ap (λ xs. (t.bytes, colour selected hi sel i ∷ []) ∷ xs)
            (leaves ts p q sgr m ms i (suc col) c (omega arith) (omega arith) os))

    begin_here :
        (sgr : List (List ℕ)) (m : HighlightRange) (ms : List HighlightRange) (i col : ℕ)
        → leb m.start col ≡ true
        → begin_match selected hi sel (plain sgr (m ∷ ms) i col)
          ≡ (escape reset ∷ escape (colour selected hi sel i) ∷ [], inside sgr (m ∷ ms) i col)
    begin_here sgr m ms i col h = rw h refl

    begin_later :
        (sgr : List (List ℕ)) (m : HighlightRange) (ms : List HighlightRange) (i col : ℕ)
        → leb m.start col ≡ false
        → begin_match selected hi sel (plain sgr (m ∷ ms) i col) ≡ ([], plain sgr (m ∷ ms) i col)
    begin_later sgr m ms i col h = rw h refl

    abbrev AfterCharacter : Sequence → List Sequence → List (List ℕ) → List Shown → Written → Type 0
    AfterCharacter t ts sgr goal w =
        let (out, s) = write_character selected hi sel t w in
        shown sgr (out ++ inject_loop selected hi sel ts s) ≡ goal

    -- A character outside a match, at which one may begin.
    out_of_range :
        (t : Sequence) (ts : List Sequence)
        → PlainRest ts
        → InsideRest ts
        → t.width ≡ 1
        → (sgr : List (List ℕ)) (ms : List HighlightRange) (i col : ℕ) → AllColours sgr
        → Ordered col ms
        → (let (out, s) =
              write_character selected hi sel t
                (begin_match selected hi sel (plain sgr ms i col)) in
            shown sgr (out ++ inject_loop selected hi sel ts s))
          ≡ highlighted selected hi sel i ms col sgr (t ∷ ts)
    out_of_range t ts p q one sgr [] i col c o =
        let wide : t.width == 0 ≡ false = ground arith in
        let next : col + t.width ≡ suc col = omega arith in
        rw (wide, next) (ap (λ xs. (t.bytes, sgr) ∷ xs) (p sgr [] i (suc col) c tt))
    out_of_range t ts p q one sgr (m ∷ ms) i col c (o, n, os) =
        elim (Bool-cases (leb m.start col)) [
          | inl here ↦
              let u = leave_match selected hi sel (inside sgr (m ∷ ms) i (col + t.width)) in
              subst
                (AfterCharacter t ts sgr (highlighted selected hi sel i (m ∷ ms) col sgr (t ∷ ts)))
                (sym (begin_here sgr m ms i col here))
                (shown_colour i sgr (t ∷ (u.0 ++ inject_loop selected hi sel ts u.1))
                  ∙ in_range t ts p q one sgr m ms i col c (ground arith) (ground arith) os)
          | inr later ↦
              let wide : t.width == 0 ≡ false = ground arith in
              let next : col + t.width ≡ suc col = omega arith in
              let before : style_at selected hi sel i (m ∷ ms) col sgr ≡ sgr =
                style_before selected hi sel (m ∷ ms) i col m.start sgr (le_refl m.start, n, os)
                  (ground arith) in
              subst
                (AfterCharacter t ts sgr (highlighted selected hi sel i (m ∷ ms) col sgr (t ∷ ts)))
                (sym (begin_later sgr m ms i col later))
                (rw (wide, next)
                  (ap₂ (λ s xs. (t.bytes, s) ∷ xs) (sym before)
                    (p sgr (m ∷ ms) i (suc col) c (ground arith, n, os))))
        ]

    and_false : (b : Bool) → b && false ≡ false
    and_false true = refl
    and_false false = refl

    kept_other :
        (style : List (List ℕ)) (seq : List ℕ) → is_sgr seq ≡ false → kept style seq ≡ style
    unfolding kept
    kept_other style seq h = rw h refl

    step_wide :
        (t : Sequence) (s : Inject)
        → t.width == 0 ≡ false
        → inject_step selected hi sel t s
          ≡ write_character selected hi sel t (begin_match selected hi sel s)
    unfolding inject_step
    step_wide t s h = rw h refl

    abbrev AfterStep : List Sequence → List (List ℕ) → List Shown → Written → Type 0
    AfterStep ts style goal w = shown style (w.0 ++ inject_loop selected hi sel ts w.1) ≡ goal

    rests : (ts : List Sequence) → OneColumn ts → PlainRest ts × InsideRest ts
    unfolding inject_loop inject_step
    rests [] n = (λ sgr ms i col c o. refl, λ sgr m ms i col c a b os. refl)
    rests (t ∷ ts) (n, ns) =
        let (p, q) = rests ts ns in
        elim (Bool-cases (t.width == 0)) [
          | inl bare ↦ (
            λ sgr ms i col c o.
                rw (bare, and_false (is_sgr t.bytes), bare)
                  (p (kept sgr t.bytes) ms i col (kept-AllColours sgr t.bytes c) o),
            λ sgr m ms i col c a b os. elim (Bool-cases (is_sgr t.bytes)) [
              | inl sgr_seq ↦
                  rw (bare, sgr_seq)
                    (q (kept sgr t.bytes) m ms i col (kept-AllColours sgr t.bytes c) a b os)
              | inr other ↦
                  rw (bare, other, bare, kept_other (colour selected hi sel i ∷ []) t.bytes other)
                    (q (kept sgr t.bytes) m ms i col (kept-AllColours sgr t.bytes c) a b os)
            ],
          )
          | inr wide ↦ (
            λ sgr ms i col c o.
                subst (AfterStep ts sgr (highlighted selected hi sel i ms col sgr (t ∷ ts)))
                  (sym (step_wide t (plain sgr ms i col) wide))
                  (out_of_range t ts p q (ground arith) sgr ms i col c o),
            λ sgr m ms i col c a b os.
                subst
                  (AfterStep ts (colour selected hi sel i ∷ [])
                    (highlighted selected hi sel i (m ∷ ms) col sgr (t ∷ ts)))
                  (sym (step_wide t (inside sgr (m ∷ ms) i col) wide))
                  (in_range t ts p q (ground arith) sgr m ms i col c a b os),
          )
        ]

    -- Of a line of characters that take one column, where the ranges are in order, not empty and
    -- apart, and the two colours are SGR sequences that do not reset, a terminal shows the same
    -- characters as without highlights: those in a range in its colour alone, the selected one in
    -- its own, and the others in the styles they had.
    pub inject_highlights_lem :
        (line : List Sequence) (ms : List HighlightRange)
        → OneColumn line
        → Ordered 0 ms
        → shown [] (inject_highlights selected hi sel line ms)
          ≡ highlighted selected hi sel 0 ms 0 [] line
    unfolding inject_highlights AllColours
    inject_highlights_lem line [] n o = highlighted_none selected hi sel 0 0 [] line
    inject_highlights_lem line (m ∷ ms) n o = (rests line n).0 [] (m ∷ ms) 0 0 tt o

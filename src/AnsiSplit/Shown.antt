-- ===== src/AnsiSplit/Shown.antt =====
-- What a terminal shows: characters and the sequences in force at them.
use aku.Base.{
  ℕ, suc, ◌==◌, ◌≤◌, ◌<◌, ◌≡◌, refl, sym, ap, ◌∙◌, true, false, ◌&&◌, List, [], ◌∷◌, ◌++◌, map, ltb,
  leb, if◌then◌else◌, arith, Bool-cases, inl, inr, ℤ, append_assoc, append-nil,
}
use native.Mathlib.Nat.{le_trans}
use aku.AnsiSplit.{Sequence, is_sgr, is_reset_sgr, reset}
use aku.AnsiSplit.Highlight.{HighlightRange, kept, escape, colour}

-- A character and the SGR sequences that are in force at it.
abbrev pub Shown : Type 0
Shown = List ℕ × List (List ℕ)

-- A reset ends all sequences before it.
abbrev pub shown : List (List ℕ) → List Sequence → List Shown
shown style [] = []
shown style (t ∷ ts) =
    let rest = shown style ts in
    let later = shown (kept style t.bytes) ts in
    if t.width == 0 then later else (t.bytes, style) ∷ rest

-- From a bound on, in order, not empty and without overlap.
abbrev pub Ordered : ℕ → List HighlightRange → Type 0
Ordered b [] = Unit {0}
Ordered b (m ∷ ms) = (b ≤ m.start) × (m.start < m.end) × Ordered m.end ms

-- Characters that take one column.
abbrev pub OneColumn : List Sequence → Type 0
OneColumn [] = Unit {0}
OneColumn (t ∷ ts) = (t.width ≤ 1) × OneColumn ts

abbrev pub IsColour : List ℕ → Type 0
IsColour seq = (is_sgr seq ≡ true) × (is_reset_sgr seq ≡ false)

unfoldable pub AllColours : List (List ℕ) → Type 0
AllColours [] = Unit {0}
AllColours (c ∷ cs) = IsColour c × AllColours cs

pub AllColours-append :
    (cs : List (List ℕ)) (c : List ℕ) → AllColours cs → IsColour c → AllColours (cs ++ c ∷ [])
unfolding AllColours
AllColours-append [] c h k = (k, tt)
AllColours-append (d ∷ cs) c (h, hs) k = (h, AllColours-append cs c hs k)

pub kept-AllColours : (cs : List (List ℕ)) (seq : List ℕ) → AllColours cs → AllColours (kept cs seq)
unfolding kept AllColours
kept-AllColours cs seq h = elim (Bool-cases (is_sgr seq)) [
  | inr other ↦ rw other h
  | inl sgr ↦ elim (Bool-cases (is_reset_sgr seq)) [
    | inl ends ↦ rw (sgr, ends) tt
    | inr goes_on ↦ rw (sgr, goes_on) (AllColours-append cs seq h (sgr, goes_on))
  ]
]

pub kept-colour : (style : List (List ℕ)) (c : List ℕ) → IsColour c → kept style c ≡ style ++ c ∷ []
unfolding kept
kept-colour style c (h, k) = rw (h, k) refl

pub kept_reset : (style : List (List ℕ)) → kept style reset ≡ []
unfolding kept is_sgr is_reset_sgr
kept_reset style = refl

pub shown_kept :
    (cs style : List (List ℕ)) (rest : List Sequence)
    → AllColours cs
    → shown style (map escape cs ++ rest) ≡ shown (style ++ cs) rest
unfolding AllColours
shown_kept [] style rest h = ap (λ s. shown s rest) (sym (append-nil style))
shown_kept (c ∷ cs) style rest (h, hs) = rw (kept-colour style c h) (
    shown_kept cs (style ++ c ∷ []) rest hs
    ∙ ap (λ s. shown s rest) (append_assoc style (c ∷ []) cs))

-- A reset, the colours of the line, and what follows.
pub shown_reset :
    (cs style : List (List ℕ)) (rest : List Sequence)
    → AllColours cs
    → shown style (escape reset ∷ (map escape cs ++ rest)) ≡ shown cs rest
shown_reset cs style rest h = rw (kept_reset style) (shown_kept cs [] rest h)

pub Ordered-le : (ms : List HighlightRange) (b col : ℕ) → Ordered b ms → col ≤ b → Ordered col ms
Ordered-le [] b col h k = tt
Ordered-le (m ∷ ms) b col (h, n, hs) k = (le_trans k h, n, hs)

module _ (selected : ℤ) (hi sel : List ℕ) where
  -- The style at a column: the colour of the range that holds it, or that of the line.
  abbrev pub style_at : ℕ → List HighlightRange → ℕ → List (List ℕ) → List (List ℕ)
  style_at i [] col style = style
  style_at i (m ∷ ms) col style =
      let rest = style_at (suc i) ms col style in
      if leb m.start col && ltb col m.end then colour selected hi sel i ∷ [] else rest

  -- The line's characters, those in a range in its colour.
  abbrev pub highlighted : ℕ → List HighlightRange → ℕ → List (List ℕ) → List Sequence → List Shown
  highlighted i ms col style [] = []
  highlighted i ms col style (t ∷ ts) =
      let rest = highlighted i ms (suc col) style ts in
      let later = highlighted i ms col (kept style t.bytes) ts in
      if t.width == 0 then later else (t.bytes, style_at i ms col style) ∷ rest

  pub style_before :
      (ms : List HighlightRange) (i col b : ℕ) (style : List (List ℕ))
      → Ordered b ms
      → col < b
      → style_at i ms col style ≡ style
  style_before [] i col b style h k = refl
  style_before (m ∷ ms) i col b style (h, n, hs) k =
      let outside : leb m.start col ≡ false = ground arith in
      rw outside (style_before ms (suc i) col m.end style hs (omega arith))

  pub highlighted_past :
      (m : HighlightRange) (ms : List HighlightRange) (i col : ℕ) (style : List (List ℕ))
      (ts : List Sequence)
      → m.end ≤ col
      → highlighted i (m ∷ ms) col style ts ≡ highlighted (suc i) ms col style ts
  highlighted_past m ms i col style [] h = refl
  highlighted_past m ms i col style (t ∷ ts) h =
      let outside : ltb col m.end ≡ false = ground arith in
      let inside : leb m.start col && ltb col m.end ≡ false = ground arith in
      elim (Bool-cases (t.width == 0)) [
        | inl bare ↦ rw bare (highlighted_past m ms i col (kept style t.bytes) ts h)
        | inr wide ↦
            rw (wide, inside)
              (ap (λ xs. (t.bytes, style_at (suc i) ms col style) ∷ xs)
                (highlighted_past m ms i (suc col) style ts (omega arith)))
      ]

  pub highlighted_none :
      (i col : ℕ) (style : List (List ℕ)) (ts : List Sequence)
      → shown style ts ≡ highlighted i [] col style ts
  highlighted_none i col style [] = refl
  highlighted_none i col style (t ∷ ts) = elim (Bool-cases (t.width == 0)) [
    | inl bare ↦ rw bare (highlighted_none i col (kept style t.bytes) ts)
    | inr wide ↦ rw wide (ap (λ xs. (t.bytes, style) ∷ xs) (highlighted_none i (suc col) style ts))
  ]

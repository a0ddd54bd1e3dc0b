-- ===== src/LogView/Wrap.antt =====
-- The rows of the wrapped lines after an append.
use aku.Base.{
  ℕ, zero, suc, ◌+◌, ◌-◌, ◌≤◌, ◌<◌, ◌≡◌, refl, ap, ap₂, sym, ◌∙◌, String, List, [], ◌∷◌, ◌++◌, map,
  arith, length, get_or, drop, last_n, length-append, tabulate, ℤ, pos, Bool-cases, inl, inr, sub_ℕ,
}
use aku.RingBuffer.{DualRingBuffer, append, width_get}
use aku.RingBuffer.Inv.{IsValid, append-IsValid}
use aku.RingBuffer.View.{length-cells}
use aku.RingBuffer.Slice.{at_or}
use aku.RingBuffer.Refine.{Lines, lines, append_refines}
use aku.RingBuffer.Update.{readers_lem}
use aku.LogView.State.{Text, wrap_height}
use aku.LogView.Content.{keeps, matching, raws, sum}
use aku.LogView.Filter.{tabulate-drop, raws-shown}

-- The widths of the lines, and their rows in a viewport.
abbrev pub widths_of : DualRingBuffer → List ℤ
widths_of d = tabulate (λ i. width_get d (pos i)) 0 d.count

abbrev pub rows_of : ℤ → List ℤ → ℕ
rows_of vp ws = sum (map (λ w. wrap_height w vp) ws)

length-widths : (d : DualRingBuffer) → length (lines d).widths ≡ d.count
length-widths d = length-cells d.widths d.capacity (pos 0) (d.head + d.capacity - d.count) d.count

width-shown :
    (i : ℤ) {d : DualRingBuffer} → IsValid d → width_get d i ≡ at_or (lines d).widths i (pos 0)
width-shown i v = (readers_lem i (pos 0) v).3

widths-shown : {d : DualRingBuffer} → IsValid d → widths_of d ≡ (lines d).widths
widths-shown {d} v =
    tabulate-drop (pos 0) _ (lines d).widths 0 d.count (λ i. width-shown (pos i) v)
      (omega (arith, length-widths d))

rows_of-append : (vp : ℤ) (xs ys : List ℤ) → rows_of vp (xs ++ ys) ≡ rows_of vp xs + rows_of vp ys
rows_of-append vp [] ys = omega arith
rows_of-append vp (x ∷ xs) ys = omega (arith, rows_of-append vp xs ys)

get_or-append {ℓ} :
    {A : Type ℓ} (xs ys : List A) (i : ℕ) (z : A)
    → i < length xs
    → get_or (xs ++ ys) i z ≡ get_or xs i z
get_or-append [] ys i z h = absurd (omega arith)
get_or-append (x ∷ xs) ys zero z h = refl
get_or-append (x ∷ xs) ys (suc i) z h = get_or-append xs ys i z (omega arith)

module _ (r c s : String) (w : ℤ) {d : DualRingBuffer} (v : IsValid d) where
  widths-append :
      d.count < d.capacity → (lines (append d r c s w)).widths ≡ (lines d).widths ++ w ∷ []
  widths-append more =
      ap Lines.widths (append_refines r c s w v)
      ∙ ap (λ k. drop k ((lines d).widths ++ w ∷ [])) {y = 0}
          (omega (arith, length-append (lines d).widths (w ∷ []), length-widths d))

  -- Where there is room, the new line's rows are added.
  pub rows-append :
      (vp : ℤ)
      → d.count < d.capacity
      → rows_of vp (widths_of (append d r c s w)) ≡ rows_of vp (widths_of d) + wrap_height w vp
  rows-append vp more =
      ap (rows_of vp) (widths-shown (append-IsValid r c s w v) ∙ widths-append more)
      ∙ rows_of-append vp (lines d).widths (w ∷ [])
      ∙ ap₂ (λ a b. a + b) (ap (rows_of vp) (sym (widths-shown v))) (omega arith)

  -- Where the oldest line goes, its rows go too.
  pub rows-evict :
      (vp : ℤ)
      → d.count ≡ d.capacity
      → rows_of vp (widths_of (append d r c s w)) + wrap_height (width_get d (pos 0)) vp
        ≡ rows_of vp (widths_of d) + wrap_height w vp
  rows-evict vp full =
      ap₂ (λ a b. rows_of vp a + wrap_height b vp)
        (widths-shown (append-IsValid r c s w v) ∙ ap Lines.widths (append_refines r c s w v))
        (width-shown (pos 0) v)
      ∙ evict (lines d).widths (sym full ∙ sym (length-widths d))
      ∙ ap (λ a. rows_of vp a + wrap_height w vp) (sym (widths-shown v))
    where
      evict :
          (xs : List ℤ)
          → d.capacity ≡ length xs
          → rows_of vp (last_n d.capacity (xs ++ w ∷ [])) + wrap_height (get_or xs 0 (pos 0)) vp
            ≡ rows_of vp xs + wrap_height w vp
      evict [] e = absurd (omega (arith, v.room))
      evict (x ∷ xs) e =
          ap (λ k. rows_of vp (drop k (x ∷ (xs ++ w ∷ []))) + wrap_height x vp) {y = 1}
            (omega (arith, length-append xs (w ∷ [])))
          ∙ omega (arith, rows_of-append vp xs (w ∷ []))

  -- A line that is there keeps its width.
  pub width-append :
      (i : ℕ)
      → d.count < d.capacity
      → i < d.count
      → width_get (append d r c s w) (pos i) ≡ width_get d (pos i)
  width-append i more h =
      width-shown (pos i) (append-IsValid r c s w v)
      ∙ ap (λ ws. get_or ws i (pos 0)) (widths-append more)
      ∙ get_or-append (lines d).widths (w ∷ []) i (pos 0) (omega (arith, length-widths d))
      ∙ sym (width-shown (pos i) v)

module _ {Re : Type 0} (t : Text Re) (re : Re) where
  -- Functions that agree on the indices there are agree on those that pass.
  map-matching {ℓ} :
      {A : Type ℓ} (f g : ℕ → A) (off : ℕ) (xs : List String)
      → ((i : ℕ) → off ≤ i → i < off + length xs → f i ≡ g i)
      → map f (matching t re off xs) ≡ map g (matching t re off xs)
  map-matching f g off [] h = refl
  map-matching f g off (x ∷ xs) h =
      let rest = map-matching f g (off + 1) xs (λ i a b. h i (omega arith) (omega arith)) in
      elim (Bool-cases (keeps t re x)) [
        | inl kept ↦ rw kept (ap₂ (λ y ys. y ∷ ys) (h off (omega arith) (omega arith)) rest)
        | inr left ↦ rw left rest
      ]

  -- Where there is room, the lines that pass keep their widths.
  pub kept_widths :
      (off : ℕ) (r c s : String) (w : ℤ) {d : DualRingBuffer}
      → IsValid d
      → d.count < d.capacity
      → map (λ i. width_get (append d r c s w) (sub_ℕ i off)) (matching t re off (raws d))
        ≡ map (λ i. width_get d (sub_ℕ i off)) (matching t re off (raws d))
  kept_widths off r c s w {d} v more = map-matching _ _ off (raws d) (λ i lo hi.
      let e : sub_ℕ i off ≡ pos (i - off) = ground arith in
      rw e (width-append r c s w v (i - off) more (omega (arith, length-raws))))
    where
      length-raws : length (raws d) ≡ d.count
      length-raws =
          ap length (raws-shown v)
          ∙ length-cells d.raw d.capacity "" (d.head + d.capacity - d.count) d.count

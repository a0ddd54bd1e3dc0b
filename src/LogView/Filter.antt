-- ===== src/LogView/Filter.antt =====
-- The filter's indices after an append, against the lines of the buffer that pass the filter.
use aku.Base.{
  ℕ, zero, suc, ◌+◌, ◌-◌, ◌≤◌, ◌<◌, ◌≡◌, refl, ap, ap₂, sym, ◌∙◌, String, true, false, List, [],
  ◌∷◌, ◌++◌, arith, length, get_or, drop, drop_all, drop-cons, last_n, length-append, tabulate,
  if◌then◌else◌, ℤ, pos, Bool-cases, inl, inr, ltb,
}
use aku.RingBuffer.{DualRingBuffer, append}
use aku.RingBuffer.Inv.{IsValid, append-IsValid}
use aku.RingBuffer.View.{length-cells}
use aku.RingBuffer.Refine.{Lines, lines, append_refines}
use aku.RingBuffer.Update.{readers_lem}
use aku.LogView.State.{Text}
use aku.LogView.Content.{keeps, matching, raws}
use aku.LogView.Append.{trim}

module _ {ℓ} {A : Type ℓ} (z : A) where
  -- Reading every index in turn gives the list.
  pub tabulate-drop :
      (f : ℕ → A) (xs : List A) (k n : ℕ)
      → ((i : ℕ) → f i ≡ get_or xs i z)
      → k + n ≡ length xs
      → tabulate f k n ≡ drop k xs
  tabulate-drop f xs k zero h e = sym (drop_all k xs (omega arith))
  tabulate-drop f xs k (suc n) h e =
      ap₂ (λ x r. x ∷ r) (h k) (tabulate-drop f xs (suc k) n h (omega arith))
      ∙ sym (drop-cons k xs z (omega arith))

pub raws-shown : {d : DualRingBuffer} → IsValid d → raws d ≡ (lines d).raw
raws-shown {d} v =
    tabulate-drop "" _ (lines d).raw 0 d.count (λ i. (readers_lem (pos i) (pos 0) v).0)
      (omega (arith, length-cells d.raw d.capacity "" (d.head + d.capacity - d.count) d.count))

module _ {Re : Type 0} (t : Text Re) (re : Re) where
  -- An index, if its line passes.
  abbrev pub index_if : String → ℕ → List ℕ
  index_if s i = if keeps t re s then i ∷ [] else []

  pub matching-append :
      (off : ℕ) (xs : List String) (y : String)
      → matching t re off (xs ++ y ∷ []) ≡ matching t re off xs ++ index_if y (off + length xs)
  matching-append off [] y = ap (index_if y) {x = off} (omega arith)
  matching-append off (x ∷ xs) y = elim (Bool-cases (keeps t re x)) [
    | inl kept ↦ rw kept (ap (λ r. off ∷ r) (matching-append (off + 1) xs y ∙ moved))
    | inr left ↦ rw left (matching-append (off + 1) xs y ∙ moved)
  ]
    where
      moved :
          matching t re (off + 1) xs ++ index_if y (off + 1 + length xs)
          ≡ matching t re (off + 1) xs ++ index_if y (off + suc (length xs))
      moved =
          ap (λ k. matching t re (off + 1) xs ++ index_if y k) {x = off + 1 + length xs}
            (omega arith)

  trim-matching :
      (lo off : ℕ) (xs : List String)
      → lo ≤ off
      → trim lo (matching t re off xs) ≡ matching t re off xs
  unfolding trim
  trim-matching lo off [] h = refl
  trim-matching lo off (x ∷ xs) h = elim (Bool-cases (keeps t re x)) [
    | inl kept ↦ rw kept (let e : ltb off lo ≡ false = ground arith in rw e refl)
    | inr left ↦ rw left (trim-matching lo (off + 1) xs (omega arith))
  ]

  trim-cons :
      (off : ℕ) (x : String) (xs : List String)
      → trim (off + 1) (matching t re off (x ∷ xs)) ≡ matching t re (off + 1) xs
  unfolding trim
  trim-cons off x xs = elim (Bool-cases (keeps t re x)) [
    | inl kept ↦ rw kept (
        let e : ltb off (off + 1) ≡ true = ground arith in
        rw e (trim-matching (off + 1) (off + 1) xs (omega arith)))
    | inr left ↦ rw left (trim-matching (off + 1) (off + 1) xs (omega arith))
  ]

  -- After an append that evicts nothing, the indices gain that of the new line, if it passes.
  pub indices-append :
      (off : ℕ) (r c s : String) (w : ℤ) {d : DualRingBuffer}
      → IsValid d
      → d.count < d.capacity
      → matching t re off (raws (append d r c s w))
        ≡ matching t re off (raws d) ++ index_if r (off + d.count)
  indices-append off r c s w {d} v more =
      ap (matching t re off) (
        raws-shown (append-IsValid r c s w v)
        ∙ ap Lines.raw (append_refines r c s w v)
        ∙ ap (λ k. drop k ((lines d).raw ++ r ∷ [])) {y = 0}
            (omega (arith, length-append (lines d).raw (r ∷ []), seen)))
      ∙ matching-append off (lines d).raw r
      ∙ ap₂ (λ xs k. matching t re off xs ++ index_if r (off + k)) (sym (raws-shown v)) seen
    where
      seen : length (lines d).raw ≡ d.count
      seen = length-cells d.raw d.capacity "" (d.head + d.capacity - d.count) d.count

  -- After one that evicts the oldest line, that line's index goes too.
  pub indices-evict :
      (off : ℕ) (r c s : String) (w : ℤ) {d : DualRingBuffer}
      → IsValid d
      → d.count ≡ d.capacity
      → matching t re (off + 1) (raws (append d r c s w))
        ≡ trim (off + 1) (matching t re off (raws d)) ++ index_if r (off + d.count)
  indices-evict off r c s w {d} v full =
      ap (matching t re (off + 1))
        (raws-shown (append-IsValid r c s w v) ∙ ap Lines.raw (append_refines r c s w v))
      ∙ evict (lines d).raw (sym full ∙ sym seen)
      ∙ ap₂ (λ xs k. trim (off + 1) (matching t re off xs) ++ index_if r (off + k))
          (sym (raws-shown v)) seen
    where
      seen : length (lines d).raw ≡ d.count
      seen = length-cells d.raw d.capacity "" (d.head + d.capacity - d.count) d.count

      evict :
          (xs : List String)
          → d.capacity ≡ length xs
          → matching t re (off + 1) (last_n d.capacity (xs ++ r ∷ []))
            ≡ trim (off + 1) (matching t re off xs) ++ index_if r (off + length xs)
      evict [] e = absurd (omega (arith, v.room))
      evict (x ∷ xs) e =
          ap (λ k. matching t re (off + 1) (drop k (x ∷ (xs ++ r ∷ [])))) {y = 1}
            (omega (arith, length-append xs (r ∷ [])))
          ∙ matching-append (off + 1) xs r
          ∙ ap₂ (λ is k. is ++ index_if r k) (sym (trim-cons off x xs)) (omega arith)

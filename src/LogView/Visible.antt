-- ===== src/LogView/Visible.antt =====
-- The lines that show without soft wrap, against the list of all that can be scrolled through.
use aku.Base.{
  ℕ, ◌-◌, ◌≤◌, ◌≡◌, refl, String, Bool, true, false, ◌&&◌, List, ◌∷◌, map, min, arith, length, take,
  drop, ltb, ltb_ℤ, eq_ℤ, if◌then◌else◌, ℤ, pos, negsuc, pos_part, Bool-cases, inl, inr, ◌-ℤ◌, ◌+ℤ◌,
}
use aku.RingBuffer.{colored_get}
use aku.RingBuffer.Refine.{lines}
use aku.Search.{Compiled}
use aku.LogView.State.{
  Text, LogView, filtering, viewport_height, buffer_index, clamp_to, max_offset,
}
use aku.LogView.Window.{window_start, indicator_shows}
use aku.LogView.Exact.{InOrder, AreDrawn}
use aku.LogView.Marked.{AreMarked, active_matches}
use aku.LogView.Reach.{Reach}

-- The window that is cut out under the row that counts, for an offset `s` and a height `n`.
abbrev indicated : ℕ → ℤ → Bool
indicated gone s = ltb 0 gone && eq_ℤ s (pos 0)

abbrev cut_start : ℕ → ℤ → ℕ
cut_start gone s = pos_part (s -ℤ pos (if ltb 0 gone then 1 else 0))

abbrev cut_end : ℕ → ℤ → ℕ → ℤ → ℤ
cut_end gone s count h =
    let reach = pos (cut_start gone s) +ℤ (h -ℤ pos (if indicated gone s then 1 else 0)) in
    if ltb_ℤ (pos count) reach then pos count else reach

-- What is cut out, for lines `xs`.
abbrev cut : ℕ → ℤ → ℕ → ℤ → List String → List String
cut gone s count h xs =
    take (pos_part (cut_end gone s count h) - min (cut_start gone s) count)
      (drop (min (cut_start gone s) count) xs)

module _ {Re : Type 0} where
  -- The lines that the filter leaves, as they are shown.
  abbrev pub passing : LogView Re → List String
  passing l =
      if filtering l
      then map (λ idx. colored_get l.buffer (buffer_index l idx)) l.filtered_indices
      else (lines l.buffer).colored

  -- Those, under the row that counts the lines which are gone.
  abbrev pub scrollable : Text Re → LogView Re → List String
  scrollable t l =
      if ltb 0 l.buffer.dropped then t.dropped_text l.buffer.dropped ∷ passing l else passing l

pub clamp_to_lem :
    (most : ℕ) (x : ℤ)
    → (clamp_to most x ≡ pos (pos_part (clamp_to most x))) × (pos_part (clamp_to most x) ≤ most)
clamp_to_lem most x = elim (Bool-cases (ltb_ℤ (pos most) x)) [
  | inl over ↦ rw over (refl, omega arith)
  | inr within ↦ rw within (elim (Bool-cases (ltb_ℤ x (pos 0))) [
    | inl under ↦ rw under (refl, omega arith)
    | inr at ↦ rw at (positive_lem x at, ground arith)
  ])
]
  where
    positive_lem : (x : ℤ) → ltb_ℤ x (pos 0) ≡ false → x ≡ pos (pos_part x)
    positive_lem (pos n) h = refl
    positive_lem (negsuc n) h = absurd (ground arith)

pub most_lem : (n : ℕ) (h : ℤ) → ltb_ℤ (pos 0) h ≡ true → max_offset n h ≡ n - pos_part h
unfolding ◌-ℤ◌
most_lem n (negsuc k) r = absurd (ground arith)
most_lem n (pos k) r = ground arith

module _ {Re : Type 0} (t : Text Re) {Err : Type 0} (regexp : String → Compiled Re Err) where
  -- What a panel shows after an update.
  abbrev Shows : LogView Re → LogView Re → Type 0
  Shows l after =
      let s = pos_part after.scroll_offset in
      let rows = take (pos_part (viewport_height l)) (drop s (scrollable t l)) in
      AreMarked t s (active_matches t l) 0 rows after.log_vp.lines
      × (InOrder 0 (active_matches t l)
          → AreDrawn t after (if indicator_shows after then 1 else 0) (window_start after) s
              (active_matches t l) rows after.log_vp.lines)
      × (s ≤ length (scrollable t l) - pos_part (viewport_height l))
      × (after.scroll_offset ≡ pos s)

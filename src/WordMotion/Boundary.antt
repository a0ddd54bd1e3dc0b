-- ===== src/WordMotion/Boundary.antt =====
-- Where the two motions stop.
use native.Mathlib.Decide.{dec_lt}
use aku.Base.{
  ℕ, zero, suc, ◌+◌, ◌-◌, ◌≤◌, ◌<◌, ◌≡◌, refl, ap, ◌∙◌, Bool, true, false, ◌&&◌, List, arith, ltb,
  leb, min, length, pos, ◌⊎◌, inl, inr, if-cases, ◌==◌, if◌then◌else◌, some, get_elem?,
  get_elem?-of_lt,
}
use aku.WordMotion.{
  CharClass, class_letter, class_digit, class_other, same_class, Unicode, same_at, next_loop,
  next_word_boundary, prev_loop, step_back, prev_word_boundary,
}

-- Two positions that stop a motion over each other's runes are one.
meets :
    (a r : ℕ) {x y : Bool}
    → (a ≡ 0) ⊎ (x ≡ false)
    → (r ≡ 0) ⊎ (y ≡ false)
    → (r < a → x ≡ true)
    → (a < r → y ≡ true)
    → r ≡ a
meets a r b c f g = elim (dec_lt r a) [
  | yes below ↦ absurd (ground (arith, f below))
  | no not_below ↦ elim (dec_lt a r) [
    | yes above ↦ absurd (ground (arith, g above))
    | no same ↦ omega arith
  ]
]

-- The classes of two runes that are a letter or not, and a digit or not.
abbrev class_by : Bool → Bool → CharClass
class_by letter digit = if letter then class_letter else if digit then class_digit else class_other

classes :
    (l d m e : Bool)
    → (same_class (class_by l d) (class_by m e) ≡ true → (l ≡ m) × ((l ≡ true) ⊎ (d ≡ e)))
      × (same_class (class_by l d) (class_by m e) ≡ false → ¬ ((l ≡ m) × ((l ≡ true) ⊎ (d ≡ e))))
classes true d true e = (λ h. (refl, inl refl), λ h. absurd (ground (arith, h)))
classes true d false true =
    (λ h. absurd (ground (arith, h)), λ h (p, q). absurd (ground (arith, p)))
classes true d false false =
    (λ h. absurd (ground (arith, h)), λ h (p, q). absurd (ground (arith, p)))
classes false true true e =
    (λ h. absurd (ground (arith, h)), λ h (p, q). absurd (ground (arith, p)))
classes false false true e =
    (λ h. absurd (ground (arith, h)), λ h (p, q). absurd (ground (arith, p)))
classes false true false true = (λ h. (refl, inr refl), λ h. absurd (ground (arith, h)))
classes false false false false = (λ h. (refl, inr refl), λ h. absurd (ground (arith, h)))
classes false true false false = (
  λ h. absurd (ground (arith, h)),
  λ h (p, q). elim q [ inl x ↦ absurd (ground (arith, x)) | inr x ↦ absurd (ground (arith, x)) ],
)
classes false false false true = (
  λ h. absurd (ground (arith, h)),
  λ h (p, q). elim q [ inl x ↦ absurd (ground (arith, x)) | inr x ↦ absurd (ground (arith, x)) ],
)

module _ {R : Type 0} (u : Unicode R) (runes : List R) where
  -- The position is the first at or behind `from` that is the end or a boundary.
  abbrev pub Stop : ℕ → ℕ → Type 0
  Stop from r =
      (from ≤ r)
      × (r ≤ length runes)
      × ((i : ℕ) → from ≤ i → i < r → same_at u runes i ≡ true)
      × ((r ≡ length runes) ⊎ (same_at u runes r ≡ false))

  next_loop-Stop :
      (fuel from : ℕ)
      → from ≤ length runes
      → length runes ≤ from + fuel
      → Stop from (next_loop u fuel runes from)
  unfolding next_loop
  next_loop-Stop zero from h k =
      (omega arith, h, λ i lo hi. absurd (omega arith), inl (omega arith))
  next_loop-Stop (suc fuel) from h k =
      if-cases (Stop from) (ltb from (length runes) && same_at u runes from) _ from
        (λ on.
          let rest = next_loop-Stop fuel (from + 1) (ground arith) (omega arith) in
          (
            omega (arith, rest.0),
            rest.1,
            λ i lo hi. elim (dec_lt from i) [
              | yes later ↦ rest.2 i (omega arith) hi
              | no first ↦ let e : i ≡ from = omega arith in ap (same_at u runes) e ∙ ground arith
            ],
            rest.3,
          ))
        (λ off. (
          omega arith,
          h,
          λ i lo hi. absurd (omega arith),
          elim (dec_lt from (length runes)) [
            | yes inside ↦ inr (ground arith)
            | no end ↦ inl (omega arith)
          ],
        ))

  -- The motion stops at the first position for the code's test.
  pub next_word_boundary-Stop :
      (at : ℕ) → at < length runes → Stop (at + 1) (next_word_boundary u runes at)
  unfolding next_word_boundary
  next_word_boundary-Stop at h =
      let e : leb (length runes) at ≡ false = ground arith in
      rw e (next_loop-Stop (length runes - at) (at + 1) (omega arith) (omega arith))

  -- Both are letters, both digits, or neither is either.
  abbrev pub Alike : R → R → Type 0
  Alike a b =
      (u.is_letter a ≡ u.is_letter b) × ((u.is_letter a ≡ true) ⊎ (u.is_digit a ≡ u.is_digit b))

  -- The runes on both sides of a position.
  abbrev pub Sides : ℕ → R → R → Type 0
  Sides i a b = (get_elem? runes (i - 1) ≡ some a) × (get_elem? runes i ≡ some b)

  abbrev pub Joined : ℕ → Type 0
  Joined i = (a : R) × (b : R) × Sides i a b × Alike a b

  abbrev pub Parted : ℕ → Type 0
  Parted i = (a : R) × (b : R) × Sides i a b × ¬ (Alike a b)

  same_at_lem :
      (i : ℕ)
      → i < length runes
      → (same_at u runes i ≡ true → Joined i) × (same_at u runes i ≡ false → Parted i)
  unfolding same_at
  same_at_lem i h =
      let (a, e) = get_elem?-of_lt runes (i - 1) (omega arith) in
      let (b, f) = get_elem?-of_lt runes i h in
      let (alike, apart) = classes (u.is_letter a) (u.is_digit a) (u.is_letter b) (u.is_digit b) in
      (λ s. (a, b, (e, f), alike (rw (e, f) at s)), λ s. (a, b, (e, f), apart (rw (e, f) at s)))

  -- From a cursor before the end, the motion to the right stops behind it: at the end, or between two
  -- runes of different classes, and it passes only between runes of one class.
  pub next_word_boundary_lem :
      (at : ℕ)
      → at < length runes
      → let r = next_word_boundary u runes at in
        (at < r)
        × (r ≤ length runes)
        × ((i : ℕ) → at < i → i < r → Joined i)
        × ((r ≡ length runes) ⊎ Parted r)
  next_word_boundary_lem at h =
      let (lo, hi, passed, stop) = next_word_boundary-Stop at h in
      (
        omega (arith, lo),
        hi,
        λ i from to. (same_at_lem i (omega (arith, to, hi))).0 (passed i (omega (arith, from)) to),
        elim (dec_lt (next_word_boundary u runes at) (length runes)) [
          | no end ↦ inl (omega (arith, end, hi))
          | yes inside ↦ elim stop [
            | inl e ↦ inl e
            | inr apart ↦ inr ((same_at_lem (next_word_boundary u runes at) inside).1 apart)
          ]
        ],
      )

  -- The position is the last at or before `from` that is the start or a boundary.
  abbrev pub StopBack : ℕ → ℕ → Type 0
  StopBack from r =
      (r ≤ from)
      × ((i : ℕ) → r < i → i ≤ from → same_at u runes i ≡ true)
      × ((r ≡ 0) ⊎ (same_at u runes r ≡ false))

  prev_loop-StopBack : (from : ℕ) → StopBack from (prev_loop u runes from)
  unfolding prev_loop
  prev_loop-StopBack zero = (omega arith, λ i lo hi. absurd (omega arith), inl refl)
  prev_loop-StopBack (suc p) =
      if-cases (StopBack (suc p)) (same_at u runes (suc p)) _ (suc p)
        (λ on.
          let rest = prev_loop-StopBack p in
          (
            omega (arith, rest.0),
            λ i lo hi. elim (dec_lt p i) [
              | yes last ↦ let e : i ≡ suc p = omega arith in ap (same_at u runes) e ∙ on
              | no before ↦ rest.1 i lo (omega arith)
            ],
            rest.2,
          ))
        (λ off. (omega arith, λ i lo hi. absurd (omega arith), inr off))

  -- From a cursor behind the start of a value that is not empty, the motion to the left stops before
  -- it, at the last boundary or the start.
  pub prev_word_boundary-StopBack :
      (at : ℕ)
      → 0 < at
      → 0 < length runes
      → (r : ℕ) × (prev_word_boundary u runes at ≡ pos r) × StopBack (min at (length runes) - 1) r
  unfolding prev_word_boundary
  prev_word_boundary-StopBack at h k =
      let e : at == 0 ≡ false = ground arith in
      let f : min at (length runes) ≡ suc (min at (length runes) - 1) = omega arith in
      let p = min at (length runes) - 1 in
      (prev_loop u runes p, rw e (ap (step_back u runes) f), prev_loop-StopBack p)

  -- From a boundary or the start, before the end, the motion to the left undoes that to the right.
  pub prev-next :
      (at : ℕ)
      → at < length runes
      → (at ≡ 0) ⊎ (same_at u runes at ≡ false)
      → prev_word_boundary u runes (next_word_boundary u runes at) ≡ pos at
  prev-next at h b =
      let s = next_word_boundary-Stop at h in
      let p =
        prev_word_boundary-StopBack (next_word_boundary u runes at) (omega (arith, s.0))
          (omega arith) in
      p.1
      ∙ ap pos (
          meets at p.0 b p.2.2 (λ lo. p.2.1 at lo (omega (arith, s.0, s.1)))
            (λ lo. s.2 p.0 (omega arith) (omega (arith, p.2.0, s.0))))

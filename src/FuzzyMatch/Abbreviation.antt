-- ===== src/FuzzyMatch/Abbreviation.antt =====
-- `matchAbbreviation` against subsequences.
use aku.Base.{
  ◌≡◌, ◌↔◌, refl, sym, Bool, true, false, Option, none, some, List, [], ◌∷◌, arith, Bool-cases, inl,
  inr, KeyEq, Option-cases, subst,
}
use mathlib.Core.Option.{some-injective}
use aku.FuzzyMatch.{after, match_abbreviation}

-- The first list's elements stand in the second, in their order.
pub data Subsequence {R : Type 0} : List R → List R → Type 0 where
  no_more : (rs : List R) → Subsequence [] rs
  both : (r : R) {qs rs : List R} → Subsequence qs rs → Subsequence (r ∷ qs) (r ∷ rs)
  skipped : (r : R) {qs rs : List R} → Subsequence qs rs → Subsequence qs (r ∷ rs)

module _ {R : Type 0} ⦃e : KeyEq R⦄ where
  without_first : {q : R} {qs rs : List R} → Subsequence (q ∷ qs) rs → Subsequence qs rs
  without_first (both r s) = skipped r s
  without_first (skipped r s) = skipped r (without_first s)

  found_after :
      (q : R) (rs : List R) {qs rest : List R}
      → after q rs ≡ some rest
      → Subsequence qs rest
      → Subsequence (q ∷ qs) rs
  unfolding after
  found_after q [] {qs} {rest} h s = cc
  found_after q (r ∷ rs) {qs} {rest} h s = elim (Bool-cases (e.same r q)) [
    | inl here ↦
        let same : r ≡ q = (e.same_iff r q).0 here in
        let tail : rs ≡ rest = some-injective rs rest (rw here at h) in
        subst (λ x. Subsequence (x ∷ qs) (r ∷ rs)) same
          (both r (subst (Subsequence qs) (sym tail) s))
    | inr there ↦ skipped r (found_after q rs (rw there at h) s)
  ]

  after_found :
      {q : R} {qs rs : List R}
      → Subsequence (q ∷ qs) rs
      → (rest : List R) × (after q rs ≡ some rest) × Subsequence qs rest
  unfolding after
  after_found (both r {qs} {rs} s) =
      let h : e.same r r ≡ true = (e.same_iff r r).1 refl in (rs, rw h refl, s)
  after_found {q} (skipped r {rs = rs} s) = elim (Bool-cases (e.same r q)) [
    | inl here ↦ (rs, rw here refl, without_first s)
    | inr there ↦ let f = after_found s in (f.0, rw there f.1, f.2)
  ]

  abbrev rest_matches : List R → Option (List R) → Bool
  rest_matches qs o = elim o [ none ↦ false | some rest ↦ match_abbreviation qs rest ]

  sound : (qs rs : List R) → match_abbreviation qs rs ≡ true → Subsequence qs rs
  unfolding match_abbreviation
  sound [] rs h = no_more rs
  sound (q ∷ qs) rs h = elim (Option-cases (after q rs)) [
    | inl missing ↦ absurd (ground (arith, subst (λ o. rest_matches qs o ≡ true) missing h))
    | inr (rest, found) ↦
        found_after q rs found (sound qs rest (subst (λ o. rest_matches qs o ≡ true) found h))
  ]

  complete : (qs rs : List R) → Subsequence qs rs → match_abbreviation qs rs ≡ true
  unfolding match_abbreviation
  complete [] rs s = refl
  complete (q ∷ qs) rs s =
      let f = after_found s in subst (λ o. rest_matches qs o ≡ true) (sym f.1) (complete qs f.0 f.2)

  -- An abbreviation matches exactly where its runes stand in the candidate in their order.
  pub match_abbreviation_iff :
      (qs rs : List R) → (match_abbreviation qs rs ≡ true) ↔ Subsequence qs rs
  match_abbreviation_iff qs rs = (sound qs rs, complete qs rs)

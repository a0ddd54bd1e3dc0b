-- ===== src/FuzzyMatch/Scores.antt =====
-- The matches refer to entries that are there.
use aku.Base.{
  ℕ, suc, ◌-◌, ◌≤◌, ◌<◌, ◌≡◌, refl, sym, ap, ◌∙◌, String, Bool, true, false, ◌||◌, some, List, [],
  ◌∷◌, arith, KeyEq, ltb, str_eq, if◌then◌else◌, if-cases, Each, get_elem?, Each-map,
}
use aku.FuzzyMatch.{
  Strings, PluginEntry, FuzzyMatch, score_entry, matches_from, match_of, comes_before,
  fuzzy_match_plugins,
}

-- The match is that of an entry at its index, with a score.
abbrev pub IsOf : List PluginEntry → FuzzyMatch → Type 0
IsOf ps m = (p : PluginEntry) × (get_elem? ps m.index ≡ some p) × (m.name ≡ p.name) × (0 < m.score)

scored : (n : ℕ) (b : Bool) → (ltb 0 n || b) ≡ true → 0 < (if b then 1 else n)
scored n true h = omega arith
scored n false h = ground arith

module _ {R : Type 0} ⦃e : KeyEq R⦄ (t : Strings R) where
  abbrev IsFrom : ℕ → List PluginEntry → FuzzyMatch → Type 0
  IsFrom i ps m =
      (p : PluginEntry) × (i ≤ m.index)
      × (get_elem? ps (m.index - i) ≡ some p)
      × (m.name ≡ p.name)
      × (0 < m.score)

  later_entry :
      (i : ℕ) (p : PluginEntry) (ps : List PluginEntry) (m : FuzzyMatch)
      → IsFrom (suc i) ps m
      → IsFrom i (p ∷ ps) m
  later_entry i p ps m f =
      let at : m.index - i ≡ suc (m.index - suc i) = omega (arith, f.1) in
      (f.0, omega (arith, f.1), ap (get_elem? (p ∷ ps)) at ∙ f.2, f.3, f.4)

  matches_from-IsFrom :
      (query : String) (k i : ℕ) (ps : List PluginEntry)
      → Each (λ _. IsFrom i ps) k (matches_from t query i ps)
  unfolding matches_from
  matches_from-IsFrom query k i [] = tt
  matches_from-IsFrom query k i (p ∷ ps) =
      let rest = (λ (j : ℕ).
        Each-map _ (λ _. IsFrom i (p ∷ ps)) j _ (λ _ m. later_entry i p ps m)
          (matches_from-IsFrom query j (suc i) ps)) in
      if-cases (Each (λ _. IsFrom i (p ∷ ps)) k) (ltb 0 (score_entry t query p) || str_eq query "")
        (match_of t query i p ∷ matches_from t query (suc i) ps) _
        (λ on. (
          (
            p,
            omega arith,
            let z : i - i ≡ 0 = omega arith in ap (get_elem? (p ∷ ps)) z,
            refl,
            scored (score_entry t query p) (str_eq query "") on,
          ),
          rest (suc k),
        ))
        (λ _. rest k)

  -- Every match has a score and is that of the entry at its index, where sorting keeps what all
  -- matches have: no index is out of range.
  pub fuzzy_match_plugins-IsOf :
      (sort_stable : (FuzzyMatch → FuzzyMatch → Bool) → List FuzzyMatch → List FuzzyMatch)
      → ((less : FuzzyMatch → FuzzyMatch → Bool) (P : FuzzyMatch → Type 0) (ms : List FuzzyMatch)
          → Each (λ _. P) 0 ms
          → Each (λ _. P) 0 (sort_stable less ms))
      → (query : String) (entries : List PluginEntry)
      → Each (λ _. IsOf entries) 0 (fuzzy_match_plugins t sort_stable query entries)
  unfolding fuzzy_match_plugins
  fuzzy_match_plugins-IsOf sort_stable sorts query entries =
      sorts (comes_before t) (IsOf entries) _ (
        Each-map _ (λ _. IsOf entries) 0 _
          (λ _ m f.
            let at : m.index - 0 ≡ m.index = omega arith in
            (f.0, sym (ap (get_elem? entries) at) ∙ f.2, f.3, f.4))
          (matches_from-IsFrom (t.to_lower (t.trim_space query)) 0 0 entries))

-- ===== src/FuzzyMatch.antt =====
-- internal/ui/fuzzymatch.go: the entries that match a query, best first. Go's `strings` and
-- `slices.SortStableFunc` are parameters.
pub mod Abbreviation
pub mod Scores
mod Tests
use aku.Base.{
  ℕ, zero, suc, ◌+◌, ◌*◌, ◌/◌, ◌==◌, String, Bool, true, false, ◌&&◌, ◌||◌, not, Option, none, some,
  List, [], ◌∷◌, map, ltb, if◌then◌else◌, str_eq, str_append, get_elem?, KeyEq,
}

-- `schema.GroupVersionResource`, without the resource, and `PluginEntry`.
pub record PluginEntry : Type 0 where
  pub name : String
  pub short_name : String
  pub group : String
  pub version : String
  pub qualified : Bool

pub record FuzzyMatch : Type 0 where
  pub name : String
  pub display : String
  pub score : ℕ
  pub index : ℕ

-- `ToLower`, `TrimSpace`, `HasPrefix`, `Contains`, `len` and `[]rune`.
pub record Strings (R : Type 0) : Type 0 where
  pub to_lower : String → String
  pub trim_space : String → String
  pub has_prefix : String → String → Bool
  pub contains : String → String → Bool
  pub len : String → ℕ
  pub runes : String → List R

module _ {R : Type 0} ⦃e : KeyEq R⦄ where
  -- What follows the first `q`.
  unfoldable pub after : R → List R → Option (List R)
  after q [] = none
  after q (r ∷ rs) = if e.same r q then some rs else after q rs

  unfoldable pub match_abbreviation : List R → List R → Bool
  unfolding after
  match_abbreviation [] rs = true
  match_abbreviation (q ∷ qs) rs = elim (after q rs) [
    | none ↦ false
    | some rest ↦ match_abbreviation qs rest
  ]

module _ {R : Type 0} ⦃e : KeyEq R⦄ (t : Strings R) where
  unfoldable pub score_candidate : String → String → ℕ
  unfolding match_abbreviation
  score_candidate candidate query =
      let c = t.to_lower candidate in
      let q = t.to_lower query in
      if str_eq c q
      then 1000
      else if t.has_prefix c q
      then 800 + 100 * t.len q / t.len c
      else if t.contains c q
      then 400
      else if match_abbreviation (t.runes q) (t.runes c)
      then 200
      else 0

  -- One round of the loop over the name and the short name.
  abbrev pub better : String → String → ℕ → ℕ
  better query candidate best =
      let s = score_candidate candidate query in
      if str_eq candidate "" then best else if ltb best s then s else best

  -- One round of the loop over the group and the version, at half the score.
  abbrev pub better_half : String → String → ℕ → ℕ
  better_half query candidate best =
      let s = score_candidate candidate query in
      if str_eq candidate "" || str_eq candidate "/"
      then best
      else if ltb 0 s && ltb best (s / 2)
      then s / 2
      else best

  unfoldable pub score_entry : String → PluginEntry → ℕ
  unfolding score_candidate
  score_entry query p =
      let best = better query (t.to_lower p.short_name) (better query (t.to_lower p.name) 0) in
      let group_version = str_append p.group (str_append "/" p.version) in
      if str_eq query ""
      then 1
      else better_half query (t.to_lower group_version)
          (better_half query (t.to_lower p.group) best)

  abbrev pub display_of : PluginEntry → String
  display_of p =
      let named =
        (if not (str_eq p.short_name "") && not (str_eq p.short_name p.name)
          then str_append p.name (str_append " (" (str_append p.short_name ")"))
          else p.name) in
      if p.qualified
      then str_append named
          (str_append " [" (str_append p.group (str_append "/" (str_append p.version "]"))))
      else named

  abbrev pub match_of : String → ℕ → PluginEntry → FuzzyMatch
  match_of query i p = record {
    name = p.name;
    display = display_of p;
    score = if str_eq query "" then 1 else score_entry query p;
    index = i;
  }

  -- The loop over the entries, the first one being at `i`.
  unfoldable pub matches_from : String → ℕ → List PluginEntry → List FuzzyMatch
  unfolding score_entry
  matches_from query i [] = []
  matches_from query i (p ∷ ps) =
      let rest = matches_from query (suc i) ps in
      if ltb 0 (score_entry query p) || str_eq query "" then match_of query i p ∷ rest else rest

  -- By score, the highest first, then by the length of the name.
  abbrev pub comes_before : FuzzyMatch → FuzzyMatch → Bool
  comes_before a b =
      if a.score == b.score then ltb (t.len a.name) (t.len b.name) else ltb b.score a.score

  module _
      (sort_stable : (FuzzyMatch → FuzzyMatch → Bool) → List FuzzyMatch → List FuzzyMatch) where
    unfoldable pub fuzzy_match_plugins : String → List PluginEntry → List FuzzyMatch
    unfolding matches_from
    fuzzy_match_plugins query entries =
        sort_stable comes_before (matches_from (t.to_lower (t.trim_space query)) 0 entries)

    -- `entries[m.Index]`, none where Go panics.
    unfoldable pub filter_plugins : String → List PluginEntry → List (Option PluginEntry)
    unfolding fuzzy_match_plugins
    filter_plugins query entries =
        map (λ (m : FuzzyMatch). get_elem? entries m.index) (fuzzy_match_plugins query entries)

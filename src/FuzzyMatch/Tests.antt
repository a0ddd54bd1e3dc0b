-- ===== src/FuzzyMatch/Tests.antt =====
-- The theorems on resource names.
use aku.Base.{
  ℕ, ◌≡◌, ◌↔◌, refl, true, false, ◌&&◌, if◌then◌else◌, List, [], ◌∷◌, KeyEq, str_eq, ◌==◌, ==_iff,
}
use aku.FuzzyMatch.{Strings, PluginEntry, match_abbreviation, after}
use aku.FuzzyMatch.Abbreviation.{Subsequence, match_abbreviation_iff}

instance abbrev rune_key : KeyEq ℕ
rune_key = record { same = λ a b. a == b; same_iff = ==_iff }

-- `hpa`, and `horizontalpodautoscalers` cut short.
abbrev hpa : List ℕ
hpa = 8 ∷ 16 ∷ 1 ∷ []

abbrev horizontal_pod_a : List ℕ
horizontal_pod_a = 8 ∷ 15 ∷ 18 ∷ 12 ∷ 16 ∷ 15 ∷ 4 ∷ 1 ∷ []

match_abbreviation_iff_example :
    (match_abbreviation hpa horizontal_pod_a ≡ true) ↔ Subsequence hpa horizontal_pod_a
match_abbreviation_iff_example = match_abbreviation_iff hpa horizontal_pod_a

abbreviation_test : match_abbreviation hpa horizontal_pod_a ≡ true
unfolding match_abbreviation after
abbreviation_test = refl

-- Strings in lower case; one that stands for the runes of `hpa` has them.
abbrev strings : Strings ℕ
strings = record {
  to_lower = λ s. s;
  trim_space = λ s. s;
  has_prefix = λ s p. str_eq s "pods" && str_eq p "po";
  contains = λ s p. str_eq s p;
  len = λ s. if str_eq s "po" then 2 else 4;
  runes = λ s. if str_eq s "hpa" then hpa else horizontal_pod_a;
}

abbrev pods : PluginEntry
pods = record { name = "pods"; short_name = "po"; group = ""; version = "v1"; qualified = false }

abbrev nodes : PluginEntry
nodes = record { name = "nodes"; short_name = "no"; group = ""; version = "v1"; qualified = false }

-- ===== src/Collision/Tests.antt =====
-- The theorems on three kinds of events.
use aku.Base.{◌≡◌, refl, String, Bool, false, List, [], ◌∷◌, str_eq}
use aku.FuzzyMatch.{PluginEntry}
use aku.Collision.{is_built_in_group, mark_collisions}
use aku.Collision.Counts.{count_bare}

abbrev is_events : String → Bool
is_events g = str_eq g "events.k8s.io"

abbrev events : String → PluginEntry
events g = record {
  name = "events";
  short_name = "ev";
  group = g;
  version = "v1";
  qualified = false;
}

abbrev three : List PluginEntry
three = events "" ∷ events "events.k8s.io" ∷ events "example.com" ∷ []

-- Both entries that are built in show the name alone.
two_bare : count_bare "events" (mark_collisions is_events three) ≡ 2
unfolding mark_collisions is_built_in_group
two_bare = refl

-- ===== src/PluginRegistry/Tests.antt =====
-- The theorems on two plugins of one name.
use aku.Base.{◌≡◌, ◌≢◌, ◌⊎◌, refl, true, some, [], string_key, lookup, insert}
use aku.K8s.Store.Names.{gvr_key, same_gvr}
use aku.PluginRegistry.{
  ResourcePlugin, Plugins, no_plugins, register, register_if_absent, by_name, has_name_collision,
}
use aku.PluginRegistry.Found.{
  Reach, started, registered, offered, Tells, Reach-Tells, by_name_lem, named, Has,
}

abbrev core_events : ResourcePlugin
core_events = record {
  name = "events";
  short_name = "ev";
  gvr = record { group = ""; version = "v1"; resource = "events" };
}

abbrev new_events : ResourcePlugin
new_events = record {
  name = "events";
  short_name = "ev";
  gvr = record { group = "events.k8s.io"; version = "v1"; resource = "events" };
}

abbrev both : Plugins
both = (register_if_absent new_events (register core_events no_plugins)).0

abbrev both-Reach : Reach both
both-Reach = offered new_events (registered core_events started)

collision_test : has_name_collision "events" both ≡ true
unfolding has_name_collision register register_if_absent insert lookup same_gvr
collision_test = refl

Reach-Tells_example : Tells both
Reach-Tells_example = Reach-Tells both-Reach

found_by_name :
    ((p : ResourcePlugin)
      → by_name "ev" both ≡ some p
      → Has p both.ordered
        × ((p.name ≡ "ev") ⊎ ((p.short_name ≡ "ev") × (named "ev" both.ordered ≡ []))))
    × (named "ev" both.ordered ≢ []
        → (p : ResourcePlugin) × (by_name "ev" both ≡ some p) × (p.name ≡ "ev"))
found_by_name = by_name_lem "ev" both-Reach

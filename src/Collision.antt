-- ===== src/Collision.antt =====
-- internal/app/collision.go: which entries of the resource picker show their group and version. The
-- code collects the indices of each name in a map and goes through its groups in any order; as an
-- entry is in one group, the model goes through the entries and looks up the group of each.
pub mod Counts
mod Tests
use aku.Base.{
  ℕ, String, Bool, true, false, ◌&&◌, ◌||◌, Option, none, some, List, [], ◌∷◌, ◌++◌, map, length,
  ltb, str_eq, if◌then◌else◌,
}
use aku.FuzzyMatch.{PluginEntry}
use aku.K8s.Store.Names.{Gvr}
use aku.PluginRegistry.{ResourcePlugin, Plugins}

-- `wellKnownGroups`.
abbrev pub is_well_known : String → Bool
is_well_known g = str_eq g "apps" || str_eq g "batch" || str_eq g "autoscaling" || str_eq g "policy"

-- The entries of a name, `byName[name]`.
abbrev pub with_name : String → List PluginEntry → List PluginEntry
with_name n [] = []
with_name n (e ∷ es) = let rest = with_name n es in if str_eq e.name n then e ∷ rest else rest

-- What is done with a group.
pub data Verdict : Type 0 where
  leave qualify_others keep_first qualify_all : Verdict

abbrev pub qualify : PluginEntry → PluginEntry
qualify e = record e { qualified = true }

abbrev pub is_none : List PluginEntry → Bool
is_none [] = true
is_none (e ∷ es) = false

abbrev pub push : Option PluginEntry → List PluginEntry → List PluginEntry
push none es = es
push (some e) es = e ∷ es

-- `strings.HasSuffix(group, ".k8s.io")` is a parameter.
module _ (is_k8s_io : String → Bool) where
  unfoldable pub is_built_in_group : String → Bool
  is_built_in_group g = str_eq g "" || is_k8s_io g || is_well_known g

  abbrev pub has_built_in : List PluginEntry → Bool
  has_built_in [] = false
  has_built_in (e ∷ es) = is_built_in_group e.group || has_built_in es

  abbrev pub has_non_built_in : List PluginEntry → Bool
  has_non_built_in [] = false
  has_non_built_in (e ∷ es) =
      (if is_built_in_group e.group then false else true) || has_non_built_in es

  unfoldable pub verdict : List PluginEntry → Verdict
  verdict es =
      if ltb (length es) 2
      then leave
      else if has_built_in es && has_non_built_in es
      then qualify_others
      else if has_built_in es
      then keep_first
      else qualify_all

  -- An entry, which may be the first of its group; one that is removed is none.
  unfoldable pub mark_entry : Verdict → Bool → PluginEntry → Option PluginEntry
  mark_entry leave first e = some e
  mark_entry qualify_others first e = some (if is_built_in_group e.group then e else qualify e)
  mark_entry keep_first true e = some e
  mark_entry keep_first false e = none
  mark_entry qualify_all first e = some (qualify e)

  -- The entries after those that were seen.
  unfoldable pub mark_from :
      List PluginEntry → List PluginEntry → List PluginEntry → List PluginEntry
  unfolding mark_entry verdict
  mark_from all seen [] = []
  mark_from all seen (e ∷ es) =
      push (mark_entry (verdict (with_name e.name all)) (is_none (with_name e.name seen)) e)
        (mark_from all (e ∷ seen) es)

  unfoldable pub mark_collisions : List PluginEntry → List PluginEntry
  unfolding mark_from
  mark_collisions es = mark_from es [] es

  abbrev pub entry_of : ResourcePlugin → PluginEntry
  entry_of p = record {
    name = p.name;
    short_name = p.short_name;
    group = p.gvr.group;
    version = p.gvr.version;
    qualified = false;
  }

  unfoldable pub build_picker_entries : Plugins → List PluginEntry
  unfolding mark_collisions
  build_picker_entries r = mark_collisions (map entry_of r.ordered)

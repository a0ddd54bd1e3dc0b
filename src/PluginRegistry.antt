-- ===== src/PluginRegistry.antt =====
-- internal/plugin/registry.go: the registered resource plugins. A plugin is its name, short name and
-- GVR; `strings.LastIndex` and `strings.Cut` are parameters.
pub mod Found
mod Tests
use aku.Base.{
  String, Bool, true, false, not, Option, none, some, List, [], ◌∷◌, ◌++◌, length, ltb, str_eq,
  if◌then◌else◌, string_key, Assoc, lookup, insert, has,
}
use aku.K8s.Store.Names.{Gvr, gvr_key}

pub record ResourcePlugin : Type 0 where
  pub name : String
  pub short_name : String
  pub gvr : Gvr

pub record Plugins : Type 0 where
  pub by_name : Assoc String ResourcePlugin
  pub by_name_all : Assoc String (List ResourcePlugin)
  pub by_short_name : Assoc String ResourcePlugin
  pub by_gvr : Assoc Gvr ResourcePlugin
  pub ordered : List ResourcePlugin

-- `Reset`, and the registry of a process that starts.
abbrev pub no_plugins : Plugins
no_plugins = record {
  by_name = [];
  by_name_all = [];
  by_short_name = [];
  by_gvr = [];
  ordered = [];
}

abbrev pub list_or_none : Option (List ResourcePlugin) → List ResourcePlugin
list_or_none none = []
list_or_none (some ps) = ps

-- A missing key reads as a nil slice.
unfoldable pub all_by_name : String → Plugins → List ResourcePlugin
all_by_name name r = list_or_none (lookup name r.by_name_all)

-- `if sn := p.ShortName(); sn != ""`.
abbrev pub with_short_name :
    ResourcePlugin → Assoc String ResourcePlugin → Assoc String ResourcePlugin
with_short_name p m = if str_eq p.short_name "" then m else insert p.short_name p m

-- The maps that both ways of registering write.
abbrev pub enlisted : ResourcePlugin → Plugins → Plugins
enlisted p r = record r {
  by_name_all = insert p.name (all_by_name p.name r ++ p ∷ []) r.by_name_all;
  by_gvr = insert p.gvr p r.by_gvr;
  ordered = r.ordered ++ p ∷ [];
}

-- The plugin becomes the one of its name.
abbrev pub primary : ResourcePlugin → Plugins → Plugins
primary p r = record r {
  by_name = insert p.name p r.by_name;
  by_short_name = with_short_name p r.by_short_name;
}

unfoldable pub register : ResourcePlugin → Plugins → Plugins
unfolding all_by_name
register p r = primary p (enlisted p r)

unfoldable pub register_if_absent : ResourcePlugin → Plugins → Plugins × Bool
unfolding all_by_name
register_if_absent p r =
    if has p.gvr r.by_gvr
    then (r, false)
    else if has p.name r.by_name
    then (enlisted p r, false)
    else (primary p (enlisted p r), true)

abbrev pub or_else : Option ResourcePlugin → Option ResourcePlugin → Option ResourcePlugin
or_else none o = o
or_else (some p) o = some p

unfoldable pub by_name : String → Plugins → Option ResourcePlugin
by_name name r = or_else (lookup name r.by_name) (lookup name r.by_short_name)

unfoldable pub by_gvr : Gvr → Plugins → Option ResourcePlugin
by_gvr gvr r = lookup gvr r.by_gvr

-- A nil resolver is none.
unfoldable pub by_kind :
    Option (String → String → Option Gvr) → String → String → Plugins → Option ResourcePlugin
unfolding by_gvr
by_kind none api_version kind r = none
by_kind (some resolve) api_version kind r = elim (resolve api_version kind) [
  | none ↦ none
  | some gvr ↦ by_gvr gvr r
]

unfoldable pub has_name_collision : String → Plugins → Bool
unfolding all_by_name
has_name_collision name r = ltb 1 (length (all_by_name name r))

-- What is before the last `/` and behind it, and before the first `.` and behind it.
module _ (at_last_slash at_first_dot : String → Option (String × String)) where
  abbrev pub by_parts : String → String → Option (String × String) → Plugins → Option ResourcePlugin
  by_parts qualified version none r = by_name qualified r
  by_parts qualified version (some (name, group)) r =
      by_gvr (record { group = group; version = version; resource = name }) r

  unfoldable pub by_qualified_name : String → Plugins → Option ResourcePlugin
  unfolding by_name by_gvr
  by_qualified_name qualified r = elim (at_last_slash qualified) [
    | none ↦ by_name qualified r
    | some (left, version) ↦ by_parts qualified version (at_first_dot left) r
  ]

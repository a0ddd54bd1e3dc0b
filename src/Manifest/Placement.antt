-- ===== src/Manifest/Placement.antt =====
-- internal/manifest/synth.go: the namespaces of a manifest.
use aku.Base.{
  String, Bool, ◌&&◌, ◌||◌, some, List, [], ◌∷◌, ◌++◌, map, str_eq, if◌then◌else◌, string_key,
  Assoc, insert, has,
}
use aku.Manifest.Objects.{Object, Env, no_status, is_cluster_scoped, bare_object}

module _ {Spec : Type 0} (env : Env Spec) where
  abbrev pub fabricate_namespace : String → Object Spec
  fabricate_namespace name = record (bare_object env "Namespace" "v1" "" name) {
    status = some (record (no_status) { phase = "Active" });
  }

  abbrev pub is_namespace : Object Spec → Bool
  is_namespace o = str_eq o.kind "Namespace" && str_eq o.api_version "v1"

  -- The names of the namespaces among the input, a Go map to true.
  abbrev pub existing_names : List (Object Spec) → Assoc {0, 0} String Unit
  existing_names [] = []
  existing_names (o ∷ os) =
      let rest = existing_names os in if is_namespace o then insert o.name tt rest else rest

  abbrev pub with_namespace : String → Object Spec → Object Spec
  with_namespace default_ns o =
      if is_cluster_scoped o.kind
      then o
      else record o { namespace = if str_eq o.namespace "" then default_ns else o.namespace }

  -- The namespaces of the objects that have one.
  abbrev pub used_names : List (Object Spec) → Assoc {0, 0} String Unit
  used_names [] = []
  used_names (o ∷ os) =
      let rest = used_names os in
      if is_cluster_scoped o.kind || str_eq o.namespace "" then rest else insert o.namespace tt rest

  -- The namespaces that are used and not among the input; Go's order of the map is any.
  abbrev pub missing_namespaces :
      Assoc {0, 0} String Unit → Assoc {0, 0} String Unit → List (Object Spec)
  missing_namespaces existing [] = []
  missing_namespaces existing ((ns, _) ∷ used) =
      let rest = missing_namespaces existing used in
      if has ns existing then rest else fabricate_namespace ns ∷ rest

  unfoldable pub assign_namespaces : List (Object Spec) → String → List (Object Spec)
  assign_namespaces os default_ns =
      let stamped = map (with_namespace default_ns) os in
      stamped ++ missing_namespaces (existing_names os) (used_names stamped)

-- ===== src/Manifest/Tests.antt =====
-- Small manifests of internal/manifest/synth.go.
use aku.Base.{
  ◌≡◌, refl, ◌≢◌, some, zero, suc, lookup, insert, arith, List, [], ◌∷◌, ◌++◌, String, inl,
  str_append, eq_iff, pos, map,
}
use aku.Manifest.Objects.{Object, Env, bare_object}
use aku.Manifest.Placement.{assign_namespaces}
use aku.Manifest.Workloads.{synthesize_workloads, all_children, stamp, children, synth_deployment}
use aku.Manifest.Slices.{synthesize_endpoint_slices, pods_by_ns, labels_match}
use aku.Manifest.{synthesize}
use aku.Manifest.Owners.{All, IsOwned, synthesize_workloads-IsOwned}
use aku.Manifest.Namespaces.{HasNamespace, assign_namespaces_lem}
use aku.Manifest.Endpoints.{slices, synthesize_endpoint_slices_lem}

-- A spec is a text, and so is the number behind a name.
abbrev env : Env String
env = record {
  stable_uid =
      λ kind ns name. str_append kind (str_append "/" (str_append ns (str_append "/" name)));
  pod_ip = λ ns name. str_append "10." name;
  short_hash = λ uid. "h";
  now = "now";
  numbered = λ name i. elim i [ zero ↦ str_append name "-0" | suc _ ↦ str_append name "-1" ];
  containers_of = λ spec. [];
}

abbrev deployment : Object String
deployment = record (bare_object env "Deployment" "apps/v1" "" "web") {
  uid = "";
  replicas = some (pos 2);
  template = record { spec = some "s"; labels = ("app", "web") ∷ [] };
}

abbrev service : Object String
service = record (bare_object env "Service" "v1" "shop" "front") {
  selector = some (("app", "web") ∷ []);
}

abbrev objects : List (Object String)
objects = deployment ∷ service ∷ []

kinds :
    map (λ o. o.kind) (synthesize env objects "shop")
    ≡ "Deployment" ∷ "Service" ∷ "Namespace" ∷ "ReplicaSet" ∷ "Pod" ∷ "Pod" ∷ "EndpointSlice" ∷ []
unfolding synthesize assign_namespaces synthesize_workloads synthesize_endpoint_slices stamp
    children synth_deployment pods_by_ns labels_match insert lookup
kinds = refl

addresses :
    map (λ o. map (λ e. e.name) o.endpoints) (synthesize env objects "shop")
    ≡ [] ∷ [] ∷ [] ∷ [] ∷ [] ∷ [] ∷ ("web-h-h" ∷ "web-h-h" ∷ []) ∷ []
unfolding synthesize assign_namespaces synthesize_workloads synthesize_endpoint_slices stamp
    children synth_deployment pods_by_ns labels_match insert lookup
addresses = refl

named : ◌≢◌ {A = String} "shop" ""
named e = absurd (ground (arith, (eq_iff "shop" "").1 e))

assign_namespaces_lem_example :
    ◌≢◌ {A = String} "shop" "" × HasNamespace env "shop" (assign_namespaces env objects "shop")
unfolding assign_namespaces
assign_namespaces_lem_example =
    assign_namespaces_lem env "shop" objects (record deployment { namespace = "shop" }) named
      (inl refl) refl

synthesize_workloads-IsOwned_example :
    All (IsOwned (synthesize_workloads env objects)) (all_children env objects)
synthesize_workloads-IsOwned_example = synthesize_workloads-IsOwned env objects

synthesize_endpoint_slices_lem_example :
    synthesize_endpoint_slices env objects ≡ objects ++ slices env objects objects
synthesize_endpoint_slices_lem_example = synthesize_endpoint_slices_lem env objects

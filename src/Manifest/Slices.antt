-- ===== src/Manifest/Slices.antt =====
-- internal/manifest/synth.go: the endpoint slices of services, without their ports.
use aku.Base.{
  String, Bool, true, not, ◌&&◌, ◌||◌, Option, none, some, List, [], ◌∷◌, ◌++◌, str_eq, str_append,
  if◌then◌else◌, string_key, Assoc, lookup, insert,
}
use aku.Manifest.Objects.{Labels, Endpoint, Object, Env, status_or, bare_object}

module _ {Spec : Type 0} (env : Env Spec) where
  abbrev pub is_pod : Object Spec → Bool
  is_pod o = str_eq o.kind "Pod" && str_eq o.api_version "v1"

  -- `podInfo`, with the labels.
  abbrev pub pod_info : Object Spec → Endpoint × Labels
  pod_info o = (
    record {
      ip = (status_or o.status).pod_ip;
      name = o.name;
      namespace = o.namespace;
      uid = o.uid;
    },
    o.labels,
  )

  abbrev pub infos_or : Option (List (Endpoint × Labels)) → List (Endpoint × Labels)
  infos_or none = []
  infos_or (some ps) = ps

  abbrev pub add_pod :
      Object Spec
      → Assoc String (List (Endpoint × Labels))
      → Assoc String (List (Endpoint × Labels))
  add_pod o m =
      if is_pod o
      then insert o.namespace (infos_or (lookup o.namespace m) ++ pod_info o ∷ []) m
      else m

  unfoldable pub pods_by_ns :
      Assoc String (List (Endpoint × Labels))
      → List (Object Spec)
      → Assoc String (List (Endpoint × Labels))
  pods_by_ns m [] = m
  pods_by_ns m (o ∷ os) = pods_by_ns (add_pod o m) os

  -- A missing label reads as the empty text.
  abbrev pub label_of : String → Labels → String
  label_of k labels = elim (lookup k labels) [ none ↦ "" | some v ↦ v ]

  unfoldable pub labels_match : Labels → Labels → Bool
  labels_match labels [] = true
  labels_match labels ((k, v) ∷ selector) =
      str_eq (label_of k labels) v && labels_match labels selector

  abbrev pub endpoints_of : Labels → List (Endpoint × Labels) → List Endpoint
  endpoints_of selector [] = []
  endpoints_of selector ((e, labels) ∷ ps) =
      let rest = endpoints_of selector ps in
      if str_eq e.ip "" || not (labels_match labels selector) then rest else e ∷ rest

  -- Without its ports.
  abbrev pub fabricate_endpoint_slice : Object Spec → List Endpoint → Object Spec
  fabricate_endpoint_slice svc endpoints =
      record (bare_object env "EndpointSlice" "discovery.k8s.io/v1" svc.namespace
        (str_append svc.name "-manifest")) {
          labels = ("kubernetes.io/service-name", svc.name) ∷ [];
          endpoints = endpoints;
        }

  -- A service without a selector, or with an empty one, has none.
  abbrev pub slice_of : Assoc String (List (Endpoint × Labels)) → Object Spec → List (Object Spec)
  slice_of pods svc =
      elim (if str_eq svc.kind "Service" && str_eq svc.api_version "v1"
        then svc.selector
        else none) [
          | none ↦ []
          | some [] ↦ []
          | some (s ∷ ss) ↦
              fabricate_endpoint_slice svc
                (endpoints_of (s ∷ ss) (infos_or (lookup svc.namespace pods)))
              ∷ []
        ]

  abbrev pub slices_of :
      Assoc String (List (Endpoint × Labels)) → List (Object Spec) → List (Object Spec)
  slices_of pods [] = []
  slices_of pods (o ∷ os) = slice_of pods o ++ slices_of pods os

  unfoldable pub synthesize_endpoint_slices : List (Object Spec) → List (Object Spec)
  synthesize_endpoint_slices os = os ++ slices_of (pods_by_ns [] os) os

-- ===== src/Manifest/Endpoints.antt =====
-- The pods behind a service.
use aku.Base.{
  ◌≡◌, refl, sym, ap, ap₂, ◌∙◌, String, Bool, true, str_append, ◌&&◌, Option, none, some, List, [],
  ◌∷◌, ◌++◌, str_eq, eq_iff, if◌then◌else◌, Bool-cases, inl, inr, string_key, Assoc, lookup,
  lookup-insert, append-nil, append_assoc,
}
use aku.Manifest.Objects.{bare_object, status_or, Object, Env, Endpoint, Labels}
use aku.Manifest.Slices.{
  is_pod, pod_info, infos_or, add_pod, pods_by_ns, endpoints_of, labels_match,
  fabricate_endpoint_slice, slice_of, slices_of, synthesize_endpoint_slices,
}

module _ {Spec : Type 0} (env : Env Spec) where
  -- The pods of a namespace, in their order.
  abbrev pub pods_in : String → List (Object Spec) → List (Endpoint × Labels)
  pods_in ns [] = []
  pods_in ns (o ∷ os) =
      let rest = pods_in ns os in
      if str_eq o.kind "Pod" && str_eq o.api_version "v1" && str_eq o.namespace ns
      then (
        record {
          ip = (status_or o.status).pod_ip;
          name = o.name;
          namespace = o.namespace;
          uid = o.uid;
        },
        o.labels,
      )
        ∷ rest
      else rest

  add_pod-lookup :
      (ns : String) (o : Object Spec) (m : Assoc String (List (Endpoint × Labels)))
      → infos_or env (lookup ns (add_pod env o m))
        ≡ infos_or env (lookup ns m)
          ++ (if is_pod env o && str_eq o.namespace ns then pod_info env o ∷ [] else [])
  add_pod-lookup ns o m = elim (Bool-cases (is_pod env o)) [
    | inr other ↦ rw other (sym (append-nil (infos_or env (lookup ns m))))
    | inl pod ↦
        rw
          (
            pod,
            lookup-insert o.namespace ns
                (infos_or env (lookup o.namespace m) ++ pod_info env o ∷ []) m,
          )
          (elim (Bool-cases (str_eq o.namespace ns)) [
            | inl hit ↦ rw hit (
                ap (λ n. infos_or env (lookup n m) ++ pod_info env o ∷ [])
                  ((eq_iff o.namespace ns).0 hit))
            | inr other ↦ rw other (sym (append-nil (infos_or env (lookup ns m))))
          ])
  ]

  pods_in-cons :
      (ns : String) (o : Object Spec) (os : List (Object Spec))
      → (if is_pod env o && str_eq o.namespace ns then pod_info env o ∷ [] else []) ++ pods_in ns os
        ≡ pods_in ns (o ∷ os)
  pods_in-cons ns o os = elim (Bool-cases (is_pod env o && str_eq o.namespace ns)) [
    | inl hit ↦ rw hit refl
    | inr other ↦ rw other refl
  ]

  pods_by_ns-lookup :
      (ns : String) (m : Assoc String (List (Endpoint × Labels))) (os : List (Object Spec))
      → infos_or env (lookup ns (pods_by_ns env m os)) ≡ infos_or env (lookup ns m) ++ pods_in ns os
  unfolding pods_by_ns
  pods_by_ns-lookup ns m [] = sym (append-nil (infos_or env (lookup ns m)))
  pods_by_ns-lookup ns m (o ∷ os) =
      let one = (if is_pod env o && str_eq o.namespace ns then pod_info env o ∷ [] else []) in
      pods_by_ns-lookup ns (add_pod env o m) os
      ∙ ap (λ ps. ps ++ pods_in ns os) (add_pod-lookup ns o m)
      ∙ append_assoc (infos_or env (lookup ns m)) one (pods_in ns os)
      ∙ ap (λ ps. infos_or env (lookup ns m) ++ ps) (pods_in-cons ns o os)

  -- Each label of the selector has its value; a label that is missing is taken for an empty one.
  abbrev pub has_labels : Labels → Labels → Bool
  has_labels labels [] = true
  has_labels labels ((k, v) ∷ selector) =
      elim (lookup k labels) [ none ↦ str_eq "" v | some w ↦ str_eq w v ]
      && has_labels labels selector

  -- The pods with an address that have the labels of a selector.
  abbrev pub backing : Labels → List (Endpoint × Labels) → List Endpoint
  backing selector [] = []
  backing selector ((e, labels) ∷ ps) =
      let rest = backing selector ps in
      if str_eq e.ip "" then rest else if has_labels labels selector then e ∷ rest else rest

  labels_match_lem :
      (labels selector : Labels) → labels_match env labels selector ≡ has_labels labels selector
  unfolding labels_match
  labels_match_lem labels [] = refl
  labels_match_lem labels ((k, v) ∷ selector) =
      ap₂ (λ x y. x && y) (go (lookup k labels)) (labels_match_lem labels selector)
    where
      go :
          (o : Option String)
          → str_eq (elim o as (λ _. String) [ none ↦ "" | some w ↦ w ]) v
            ≡ (elim o as (λ _. Bool) [ none ↦ str_eq "" v | some w ↦ str_eq w v ])
      go none = refl
      go (some w) = refl

  endpoints_of-backing :
      (selector : Labels) (ps : List (Endpoint × Labels))
      → endpoints_of env selector ps ≡ backing selector ps
  endpoints_of-backing selector [] = refl
  endpoints_of-backing selector ((e, labels) ∷ ps) = elim (Bool-cases (str_eq e.ip "")) [
    | inl bare ↦ rw bare (endpoints_of-backing selector ps)
    | inr placed ↦ elim (Bool-cases (has_labels labels selector)) [
      | inl hit ↦
          rw (placed, labels_match_lem labels selector ∙ hit, hit)
            (ap (λ r. e ∷ r) (endpoints_of-backing selector ps))
      | inr miss ↦
          rw (placed, labels_match_lem labels selector ∙ miss, miss)
            (endpoints_of-backing selector ps)
    ]
  ]

  -- The slice of a service, without its ports.
  abbrev pub endpoint_slice : Object Spec → List Endpoint → Object Spec
  endpoint_slice svc endpoints =
      record (bare_object env "EndpointSlice" "discovery.k8s.io/v1" svc.namespace
        (str_append svc.name "-manifest")) {
          labels = ("kubernetes.io/service-name", svc.name) ∷ [];
          endpoints = endpoints;
        }

  -- The slice of a service with a selector that is not empty: the endpoints are the pods of its
  -- namespace that have an address and all labels of the selector.
  abbrev pub slice_with :
      List (Endpoint × Labels) → Object Spec → Option Labels → List (Object Spec)
  slice_with pods svc none = []
  slice_with pods svc (some []) = []
  slice_with pods svc (some (s ∷ ss)) = endpoint_slice svc (backing (s ∷ ss) pods) ∷ []

  abbrev pub selector_of : Object Spec → Option Labels
  selector_of o = if str_eq o.kind "Service" && str_eq o.api_version "v1" then o.selector else none

  abbrev pub slices : List (Object Spec) → List (Object Spec) → List (Object Spec)
  slices all [] = []
  slices all (o ∷ os) = slice_with (pods_in o.namespace all) o (selector_of o) ++ slices all os

  slice_of_lem :
      (m : Assoc String (List (Endpoint × Labels))) (o : Object Spec)
      → slice_of env m o ≡ slice_with (infos_or env (lookup o.namespace m)) o (selector_of o)
  slice_of_lem m o = go (selector_of o)
    where
      pods : List (Endpoint × Labels)
      pods = infos_or env (lookup o.namespace m)

      go :
          (selector : Option Labels)
          → (elim selector as (λ _. List (Object Spec)) [
            | none ↦ []
            | some [] ↦ []
            | some (s ∷ ss) ↦ fabricate_endpoint_slice env o (endpoints_of env (s ∷ ss) pods) ∷ []
          ])
            ≡ slice_with pods o selector
      go none = refl
      go (some []) = refl
      go (some (s ∷ ss)) = ap (λ es. endpoint_slice o es ∷ []) (endpoints_of-backing (s ∷ ss) pods)

  slices_of_lem :
      (all os : List (Object Spec)) → slices_of env (pods_by_ns env [] all) os ≡ slices all os
  unfolding lookup
  slices_of_lem all [] = refl
  slices_of_lem all (o ∷ os) =
      ap₂ (λ xs ys. xs ++ ys)
        (slice_of_lem (pods_by_ns env [] all) o
          ∙ ap (λ ps. slice_with ps o (selector_of o)) (pods_by_ns-lookup o.namespace [] all))
        (slices_of_lem all os)

  -- The objects stay, and behind them is one slice for each service with a selector that is not
  -- empty: its endpoints are the pods of the service's namespace, in order, that have an address and
  -- match the selector: each of its labels has its value, where a label that a pod lacks is taken for
  -- an empty one.
  pub synthesize_endpoint_slices_lem :
      (os : List (Object Spec)) → synthesize_endpoint_slices env os ≡ os ++ slices os os
  unfolding synthesize_endpoint_slices
  synthesize_endpoint_slices_lem os = ap (λ xs. os ++ xs) (slices_of_lem os os)

-- ===== src/Manifest/Objects.antt =====
-- internal/manifest/synth.go: an object of a manifest, which is what the code reads and writes of an
-- `unstructured.Unstructured`, and what the code calls, as parameters: hashes, the clock, formatted
-- numbers and the containers of a pod spec.
use aku.Base.{
  ℕ, String, Bool, ◌||◌, Option, none, some, List, [], str_eq, str_append, string_key, Assoc, ℤ,
}

abbrev pub Labels : Type 0
Labels = Assoc String String

pub record OwnerReference : Type 0 where
  pub api_version : String
  pub kind : String
  pub name : String
  pub uid : String

-- A pod template: `spec.template.spec` and its labels.
pub record Template (Spec : Type 0) : Type 0 where
  pub spec : Option Spec
  pub labels : Labels

pub record Status : Type 0 where
  pub phase : String
  pub pod_ip : String
  pub start_time : String
  pub containers : List (String × String)
  pub counts : List (String × ℤ)

-- The address, name, namespace and uid of a pod behind a service.
pub record Endpoint : Type 0 where
  pub ip : String
  pub name : String
  pub namespace : String
  pub uid : String

-- No status is none; an empty one, which an input may have, is `some`.
pub record Object (Spec : Type 0) : Type 0 where
  pub kind : String
  pub api_version : String
  pub namespace : String
  pub name : String
  pub uid : String
  pub owner : Option OwnerReference
  pub source : String
  pub labels : Labels
  pub replicas : Option ℤ
  pub template : Template Spec
  pub job_template : Option (Template Spec)
  pub spec : Option Spec
  pub selector : Option Labels
  pub status : Option Status
  pub endpoints : List Endpoint

pub record Env (Spec : Type 0) : Type 0 where
  pub stable_uid : String → String → String → String
  pub pod_ip : String → String → String
  pub short_hash : String → String
  pub now : String
  pub numbered : String → ℕ → String
  pub containers_of : Option Spec → List (String × String)

abbrev pub no_status : Status
no_status = record { phase = ""; pod_ip = ""; start_time = ""; containers = []; counts = [] }

abbrev pub status_or : Option Status → Status
status_or none = no_status
status_or (some s) = s

-- `%s-%s`.
abbrev pub dashed : String → String → String
dashed a b = str_append a (str_append "-" b)

abbrev pub is_cluster_scoped : String → Bool
is_cluster_scoped k =
    str_eq k "Namespace"
    || str_eq k "Node"
    || str_eq k "PersistentVolume"
    || str_eq k "ClusterRole"
    || str_eq k "ClusterRoleBinding"
    || str_eq k "CustomResourceDefinition"
    || str_eq k "StorageClass"
    || str_eq k "PriorityClass"
    || str_eq k "ValidatingWebhookConfiguration"
    || str_eq k "MutatingWebhookConfiguration"
    || str_eq k "APIService"
    || str_eq k "IngressClass"
    || str_eq k "RuntimeClass"
    || str_eq k "VolumeAttachment"
    || str_eq k "CSIDriver"
    || str_eq k "CSINode"
    || str_eq k "PodSecurityPolicy"
    || str_eq k "ClusterIssuer"

module _ {Spec : Type 0} (env : Env Spec) where
  -- An object with a kind, a name and a namespace.
  abbrev pub bare_object : String → String → String → String → Object Spec
  bare_object kind api_version namespace name = record {
    kind = kind;
    api_version = api_version;
    namespace = namespace;
    name = name;
    uid = env.stable_uid kind namespace name;
    owner = none;
    source = "synthesized";
    labels = [];
    replicas = none;
    template = record { spec = none; labels = [] };
    job_template = none;
    spec = none;
    selector = none;
    status = none;
    endpoints = [];
  }

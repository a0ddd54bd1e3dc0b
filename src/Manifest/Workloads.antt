-- ===== src/Manifest/Workloads.antt =====
-- internal/manifest/synth.go: the children of the workload controllers.
use aku.Base.{
  ℕ, zero, suc, String, ◌||◌, none, some, List, [], ◌∷◌, ◌++◌, map, str_eq, if◌then◌else◌,
  string_key, ℤ, pos, pos_part,
}
use aku.Manifest.Objects.{Template, Object, Env, no_status, status_or, dashed, bare_object}

module _ {Spec : Type 0} (env : Env Spec) where
  abbrev pub mark_pod_healthy : Object Spec → Object Spec
  mark_pod_healthy o =
      let s = status_or o.status in
      if str_eq s.phase ""
      then record o {
        status = some (record s {
          phase = "Running";
          pod_ip = env.pod_ip o.namespace o.name;
          start_time = env.now;
          containers = env.containers_of o.spec;
        });
      }
      else o

  abbrev pub replica_count : Object Spec → ℤ
  replica_count o = elim o.replicas [ none ↦ pos 1 | some n ↦ n ]

  -- Counts in a status, unless the object has one.
  abbrev pub mark_healthy : List (String × ℤ) → Object Spec → Object Spec
  mark_healthy counts o = elim o.status [
    | none ↦ record o { status = some (record (no_status) { counts = counts }) }
    | some s ↦ o
  ]

  abbrev pub mark_deployment_healthy : Object Spec → Object Spec
  mark_deployment_healthy o =
      let n = replica_count o in
      mark_healthy
        (("replicas", n)
          ∷ ("readyReplicas", n)
          ∷ ("availableReplicas", n)
          ∷ ("updatedReplicas", n)
          ∷ [])
        o

  abbrev pub mark_stateful_set_healthy : Object Spec → Object Spec
  mark_stateful_set_healthy o =
      let n = replica_count o in
      mark_healthy
        (("replicas", n)
          ∷ ("readyReplicas", n)
          ∷ ("currentReplicas", n)
          ∷ ("updatedReplicas", n)
          ∷ [])
        o

  abbrev pub mark_daemon_set_healthy : Object Spec → Object Spec
  mark_daemon_set_healthy o =
      mark_healthy
        (("desiredNumberScheduled", pos 1)
          ∷ ("currentNumberScheduled", pos 1)
          ∷ ("numberReady", pos 1)
          ∷ ("numberAvailable", pos 1)
          ∷ ("updatedNumberScheduled", pos 1)
          ∷ [])
        o

  abbrev pub ensure_uid : Object Spec → Object Spec
  ensure_uid o = record o {
    uid = if str_eq o.uid "" then env.stable_uid o.kind o.namespace o.name else o.uid;
  }

  -- A child of the owner, of which a kind and an API version are named.
  abbrev pub new_child : String → String → String → String → String → Object Spec → Object Spec
  new_child kind api_version name owner_kind owner_api_version owner =
      record (bare_object env kind api_version owner.namespace name) {
        owner = some (record {
          api_version = owner_api_version;
          kind = owner_kind;
          name = owner.name;
          uid = owner.uid;
        });
      }

  abbrev pub make_pod : String → String → String → Object Spec → Template Spec → Object Spec
  make_pod name owner_kind owner_api_version owner t =
      mark_pod_healthy (record (new_child "Pod" "v1" name owner_kind owner_api_version owner) {
        spec = t.spec;
        labels = t.labels;
      })

  -- The pods `i` to `replicas - 1`, so many as are left.
  abbrev pub replica_set_pods : Object Spec → Template Spec → ℕ → ℕ → List (Object Spec)
  replica_set_pods rs t i zero = []
  replica_set_pods rs t i (suc n) =
      make_pod
        (dashed rs.name
          (env.short_hash (env.stable_uid "Pod" rs.namespace (env.numbered rs.name i))))
        "ReplicaSet" "apps/v1" rs t
      ∷ replica_set_pods rs t (suc i) n

  abbrev pub stateful_set_pods : Object Spec → ℕ → ℕ → List (Object Spec)
  stateful_set_pods o i zero = []
  stateful_set_pods o i (suc n) =
      make_pod (env.numbered o.name i) "StatefulSet" o.api_version o o.template
      ∷ stateful_set_pods o (suc i) n

  abbrev pub replica_set_of : Object Spec → Object Spec
  replica_set_of dep =
      record (new_child "ReplicaSet" "apps/v1" (dashed dep.name (env.short_hash dep.uid))
        "Deployment" dep.api_version dep) { replicas = some (replica_count dep) }

  -- The children of a controller that is stamped: it has a uid and a status.
  unfoldable pub synth_deployment : Object Spec → List (Object Spec)
  synth_deployment dep =
      let rs = replica_set_of dep in
      rs ∷ replica_set_pods rs dep.template 0 (pos_part (replica_count dep))

  unfoldable pub synth_stateful_set : Object Spec → List (Object Spec)
  synth_stateful_set o = stateful_set_pods o 0 (pos_part (replica_count o))

  unfoldable pub synth_daemon_set : Object Spec → List (Object Spec)
  synth_daemon_set o =
      make_pod (dashed o.name (env.short_hash o.uid)) "DaemonSet" o.api_version o o.template ∷ []

  unfoldable pub synth_job_pods : Object Spec → List (Object Spec)
  synth_job_pods o =
      make_pod (dashed o.name (env.short_hash o.uid)) "Job" o.api_version o o.template ∷ []

  -- A job without the template of the cron job has an empty one.
  abbrev pub job_of : Object Spec → Object Spec
  job_of cj =
      record (new_child "Job" "batch/v1" (dashed cj.name (env.short_hash cj.uid)) "CronJob"
        cj.api_version cj) {
          template = elim cj.job_template [
            | none ↦ record { spec = none; labels = [] }
            | some t ↦ t
          ];
        }

  unfoldable pub synth_cron_job : Object Spec → List (Object Spec)
  synth_cron_job cj = let job = ensure_uid (job_of cj) in job ∷ synth_job_pods job

  -- What the loop does to an object itself.
  unfoldable pub stamp : Object Spec → Object Spec
  stamp o =
      if str_eq o.kind "Deployment"
      then mark_deployment_healthy (ensure_uid o)
      else if str_eq o.kind "StatefulSet"
      then mark_stateful_set_healthy (ensure_uid o)
      else if str_eq o.kind "DaemonSet"
      then mark_daemon_set_healthy (ensure_uid o)
      else if str_eq o.kind "Job" || str_eq o.kind "CronJob"
      then ensure_uid o
      else o

  -- The children of an object that is stamped.
  unfoldable pub children : Object Spec → List (Object Spec)
  children o =
      if str_eq o.kind "Deployment"
      then synth_deployment o
      else if str_eq o.kind "StatefulSet"
      then synth_stateful_set o
      else if str_eq o.kind "DaemonSet"
      then synth_daemon_set o
      else if str_eq o.kind "Job"
      then synth_job_pods o
      else if str_eq o.kind "CronJob"
      then synth_cron_job o
      else []

  abbrev pub all_children : List (Object Spec) → List (Object Spec)
  all_children [] = []
  all_children (o ∷ os) = children (stamp o) ++ all_children os

  -- The objects are changed in place, and the children follow them.
  unfoldable pub synthesize_workloads : List (Object Spec) → List (Object Spec)
  synthesize_workloads os = map stamp os ++ all_children os

-- ===== src/Manifest/Owners.antt =====
-- The owners of what is made up.
use aku.Base.{
  ℕ, zero, suc, ◌≡◌, refl, String, true, some, List, [], ◌∷◌, ◌++◌, map, ◌⊎◌, inl, inr, str_eq,
  eq_iff, if-cases, pos_part,
}
use aku.Manifest.Objects.{Object, Env, Template, dashed}
use aku.Manifest.Workloads.{
  make_pod, new_child, replica_set_pods, stateful_set_pods, replica_set_of, replica_count, job_of,
  ensure_uid, synth_deployment, synth_stateful_set, synth_daemon_set, synth_job_pods,
  synth_cron_job, stamp, children, all_children, synthesize_workloads,
}

module _ {Spec : Type 0} where
  abbrev pub In : Object Spec → List (Object Spec) → Type 0
  In p [] = ⊥
  In p (o ∷ os) = (o ≡ p) ⊎ In p os

  abbrev pub All {ℓ} : (Object Spec → Type ℓ) → List (Object Spec) → Type ℓ
  All P [] = Unit
  All P (o ∷ os) = P o × All P os

  -- The object's owner reference is that of an object among these, in its own namespace.
  abbrev pub IsOwned : List (Object Spec) → Object Spec → Type 0
  IsOwned out c =
      (p : Object Spec) × In p out
      × (c.owner
          ≡ some
              (record { api_version = p.api_version; kind = p.kind; name = p.name; uid = p.uid }))
      × (c.namespace ≡ p.namespace)

  All-append :
      (P : Object Spec → Type 0) (xs ys : List (Object Spec))
      → All P xs
      → All P ys
      → All P (xs ++ ys)
  All-append P [] ys h k = k
  All-append P (x ∷ xs) ys (h, hs) k = (h, All-append P xs ys hs k)

  pub In-append_left : (p : Object Spec) (xs ys : List (Object Spec)) → In p xs → In p (xs ++ ys)
  In-append_left p [] ys h = elim h [ ]
  In-append_left p (x ∷ xs) ys (inl e) = inl e
  In-append_left p (x ∷ xs) ys (inr h) = inr (In-append_left p xs ys h)

  pub In-append_right : (p : Object Spec) (xs ys : List (Object Spec)) → In p ys → In p (xs ++ ys)
  In-append_right p [] ys h = h
  In-append_right p (x ∷ xs) ys h = inr (In-append_right p xs ys h)

  module _ (env : Env Spec) (out : List (Object Spec)) where
    make_pod-IsOwned :
        (name kind api_version : String) (o : Object Spec) (t : Template Spec)
        → In o out
        → o.kind ≡ kind
        → o.api_version ≡ api_version
        → IsOwned out (make_pod env name kind api_version o t)
    make_pod-IsOwned name kind api_version o t i k a = (o, i, rw (k, a) refl, refl)

    replica_set_pods-IsOwned :
        (rs : Object Spec) (t : Template Spec) (i n : ℕ)
        → In rs out
        → rs.kind ≡ "ReplicaSet"
        → rs.api_version ≡ "apps/v1"
        → All (IsOwned out) (replica_set_pods env rs t i n)
    replica_set_pods-IsOwned rs t i zero h k a = tt
    replica_set_pods-IsOwned rs t i (suc n) h k a = (
      make_pod-IsOwned
          (dashed rs.name
            (env.short_hash (env.stable_uid "Pod" rs.namespace (env.numbered rs.name i))))
          "ReplicaSet" "apps/v1" rs t h k a,
      replica_set_pods-IsOwned rs t (suc i) n h k a,
    )

    stateful_set_pods-IsOwned :
        (o : Object Spec) (i n : ℕ)
        → In o out
        → o.kind ≡ "StatefulSet"
        → All (IsOwned out) (stateful_set_pods env o i n)
    stateful_set_pods-IsOwned o i zero h k = tt
    stateful_set_pods-IsOwned o i (suc n) h k = (
      make_pod-IsOwned (env.numbered o.name i) "StatefulSet" o.api_version o o.template h k refl,
      stateful_set_pods-IsOwned o (suc i) n h k,
    )

    new_child-IsOwned :
        (kind api_version name owner_kind : String) (o : Object Spec)
        → In o out
        → o.kind ≡ owner_kind
        → IsOwned out (new_child env kind api_version name owner_kind o.api_version o)
    new_child-IsOwned kind api_version name owner_kind o i k = (o, i, rw k refl, refl)

    -- The objects are all among these, and so are their owners.
    abbrev Closes : List (Object Spec) → Type 0
    Closes cs = ((c : Object Spec) → In c cs → In c out) → All (IsOwned out) cs

    synth_deployment-Closes :
        (o : Object Spec) → In o out → o.kind ≡ "Deployment" → Closes (synth_deployment env o)
    unfolding synth_deployment
    synth_deployment-Closes o i k sub =
        let rs = replica_set_of env o in
        (
          (o, i, rw k refl, refl),
          replica_set_pods-IsOwned rs o.template 0 (pos_part (replica_count env o))
              (sub rs (inl refl)) refl refl,
        )

    synth_stateful_set-Closes :
        (o : Object Spec) → In o out → o.kind ≡ "StatefulSet" → Closes (synth_stateful_set env o)
    unfolding synth_stateful_set
    synth_stateful_set-Closes o i k sub =
        stateful_set_pods-IsOwned o 0 (pos_part (replica_count env o)) i k

    synth_daemon_set-Closes :
        (o : Object Spec) → In o out → o.kind ≡ "DaemonSet" → Closes (synth_daemon_set env o)
    unfolding synth_daemon_set
    synth_daemon_set-Closes o i k sub = (
      make_pod-IsOwned (dashed o.name (env.short_hash o.uid)) "DaemonSet" o.api_version o o.template
          i k refl,
      tt,
    )

    synth_job_pods-Closes :
        (o : Object Spec) → In o out → o.kind ≡ "Job" → Closes (synth_job_pods env o)
    unfolding synth_job_pods
    synth_job_pods-Closes o i k sub = (
      make_pod-IsOwned (dashed o.name (env.short_hash o.uid)) "Job" o.api_version o o.template i k
          refl,
      tt,
    )

    synth_cron_job-Closes :
        (o : Object Spec) → In o out → o.kind ≡ "CronJob" → Closes (synth_cron_job env o)
    unfolding synth_cron_job
    synth_cron_job-Closes o i k sub =
        let job = ensure_uid env (job_of env o) in
        (
          (o, i, rw k refl, refl),
          synth_job_pods-Closes job (sub job (inl refl)) refl (λ c h. sub c (inr h)),
        )

    children-Closes : (o : Object Spec) → In o out → Closes (children env o)
    unfolding children
    children-Closes o i =
        let is = λ (kind : String) (h : str_eq o.kind kind ≡ true). (eq_iff o.kind kind).0 h in
        if-cases Closes (str_eq o.kind "Deployment") (synth_deployment env o) _
          (λ h. synth_deployment-Closes o i (is "Deployment" h))
          (λ _.
            if-cases Closes (str_eq o.kind "StatefulSet") (synth_stateful_set env o) _
              (λ h. synth_stateful_set-Closes o i (is "StatefulSet" h))
              (λ _.
                if-cases Closes (str_eq o.kind "DaemonSet") (synth_daemon_set env o) _
                  (λ h. synth_daemon_set-Closes o i (is "DaemonSet" h))
                  (λ _.
                    if-cases Closes (str_eq o.kind "Job") (synth_job_pods env o) _
                      (λ h. synth_job_pods-Closes o i (is "Job" h))
                      (λ _.
                        if-cases Closes (str_eq o.kind "CronJob") (synth_cron_job env o) []
                          (λ h. synth_cron_job-Closes o i (is "CronJob" h)) (λ _ _. tt)))))

    all_children-Closes :
        (os : List (Object Spec))
        → ((o : Object Spec) → In o (map (stamp env) os) → In o out)
        → Closes (all_children env os)
    all_children-Closes [] h sub = tt
    all_children-Closes (o ∷ os) h sub =
        All-append (IsOwned out) (children env (stamp env o)) (all_children env os)
          (children-Closes (stamp env o) (h (stamp env o) (inl refl))
            (λ c i. sub c (In-append_left c (children env (stamp env o)) (all_children env os) i)))
          (all_children-Closes os (λ p i. h p (inr i))
            (λ c i. sub c (In-append_right c (children env (stamp env o)) (all_children env os) i)))

  -- Each object that is made up has an owner reference to an object of the result, in the same
  -- namespace: to its API version, kind, name and uid.
  pub synthesize_workloads-IsOwned :
      (env : Env Spec) (os : List (Object Spec))
      → All (IsOwned (synthesize_workloads env os)) (all_children env os)
  unfolding synthesize_workloads
  synthesize_workloads-IsOwned env os =
      all_children-Closes env (map (stamp env) os ++ all_children env os) os
        (λ o i. In-append_left o (map (stamp env) os) (all_children env os) i)
        (λ c i. In-append_right c (map (stamp env) os) (all_children env os) i)

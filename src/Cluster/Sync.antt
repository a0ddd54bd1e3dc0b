-- ===== src/Cluster/Sync.antt =====
-- `SyncRefs`: what it leaves, for each context, and that only the last call counts.
use aku.Base.{
  ℕ, ◌≡◌, ap, String, Bool, false, Option, none, some, [], ◌∷◌, ◌==◌, arith, str_eq, eq_iff,
  if◌then◌else◌, string_key, Assoc, lookup, Bool-cases, inl, inr,
}
use aku.Cluster.{Cluster, Manager, is_pinned, get, sync, sync_refs}

module _ {Client Err Obj : Type 0} where
  abbrev pub counted : ℕ → Option (Cluster Client Err Obj) → Option (Cluster Client Err Obj)
  counted n none = none
  counted n (some c) = some (record c { ref_count = n })

  lookup-sync :
      (pinned : String → Bool) (panes : String → ℕ) (ctx : String)
      (cs : Assoc String (Cluster Client Err Obj))
      → lookup ctx (sync pinned panes cs) ≡ (
          if pinned ctx
          then lookup ctx cs
          else if panes ctx == 0
          then none
          else counted (panes ctx) (lookup ctx cs))
  unfolding lookup sync
  lookup-sync pinned panes ctx [] = ground arith
  lookup-sync pinned panes ctx ((j, c) ∷ cs) = elim (Bool-cases (str_eq j ctx)) [
    | inl here ↦ ground (
      arith,
      lookup-sync pinned panes ctx cs,
      ap pinned ((eq_iff j ctx).0 here),
      ap panes ((eq_iff j ctx).0 here),
    )
    | inr other ↦ ground (arith, lookup-sync pinned panes ctx cs)
  ]

  -- After `SyncRefs` a pinned context has the cluster that it had, with the count that it had; any
  -- other, the empty one too, has one exactly where it had one and a pane refers to it, with the
  -- number of those panes as its count.
  pub get-sync_refs :
      (panes : String → ℕ) (ctx : String) (m : Manager Client Err Obj)
      → get ctx (sync_refs panes m).0 ≡ (
          if is_pinned ctx m
          then get ctx m
          else if panes ctx == 0
          then none
          else counted (panes ctx) (get ctx m))
  unfolding sync_refs
  get-sync_refs panes ctx m = lookup-sync (λ c. is_pinned c m) panes ctx m.clusters

  -- A context has, after two calls of `SyncRefs` of which the first knows it too if the second does,
  -- what the second call alone would leave.
  pub sync_refs-last :
      (before panes : String → ℕ) (ctx : String) (m : Manager Client Err Obj)
      → ((panes ctx == 0) ≡ false → (before ctx == 0) ≡ false)
      → get ctx (sync_refs panes (sync_refs before m).0).0 ≡ get ctx (sync_refs panes m).0
  unfolding sync_refs
  sync_refs-last before panes ctx m known = ground (
    arith,
    get-sync_refs panes ctx (sync_refs before m).0,
    get-sync_refs before ctx m,
    get-sync_refs panes ctx m,
  )

-- ===== src/Cluster/Dial.antt =====
-- The part of internal/cluster/manager.go that connects: `GetOrCreate`, `Dial`, `RegisterConnected`.
use aku.Base.{String, Bool, true, false, Option, none, some, str_eq, if◌then◌else◌, string_key}
use aku.Cluster.{
  Cluster, Manager, Dialed, connected, failed, is_pinned, get, file_for, live_cluster, degraded,
  register,
}

-- An empty context is the one that the client reports.
abbrev pub resolve : {Client : Type 0} → (Client → String) → String → Client → String
resolve context_of ctx client = if str_eq ctx "" then context_of client else ctx

-- `context_of`: the context that a client reports; `connect`: a dial of a file and a context.
module _ {Client Err Obj : Type 0} (context_of : Client → String)
    (connect : String → String → Dialed Client Err) where
  -- `NewManager`'s own `connect` over `k8s.NewClient`: no file stands for the default one.
  abbrev pub default_connect : Manager Client Err Obj → String → String → Dialed Client Err
  default_connect m file ctx = connect (if str_eq file "" then m.kubeconfig else file) ctx

  abbrev pub dial : String → Manager Client Err Obj → Dialed Client Err
  dial ctx m = connect (file_for ctx m) ctx

  -- After the dial: a cluster that failed is not kept.
  abbrev pub created :
      String
      → Manager Client Err Obj
      → Dialed Client Err
      → Manager Client Err Obj × Cluster Client Err Obj
  created ctx m (failed e) = (m, degraded ctx (file_for ctx m) (some e))
  created ctx m (connected client) =
      let c = live_cluster (resolve context_of ctx client) (file_for ctx m) client m in
      (register c m, c)

  abbrev pub create :
      String → Manager Client Err Obj → Manager Client Err Obj × Cluster Client Err Obj
  create ctx m = if is_pinned ctx m then (m, degraded ctx "" none) else created ctx m (dial ctx m)

  abbrev pub or_create :
      String
      → Manager Client Err Obj
      → Option (Cluster Client Err Obj)
      → Manager Client Err Obj × Cluster Client Err Obj
  or_create ctx m none = create ctx m
  or_create ctx m (some c) = (m, c)

  -- The error that Go returns beside the cluster is the cluster's own.
  unfoldable pub get_or_create :
      String → Manager Client Err Obj → Manager Client Err Obj × Cluster Client Err Obj
  unfolding register
  get_or_create ctx m = or_create ctx m (get ctx m)

module _ {Client Err Obj : Type 0} where
  abbrev pub install :
      String
      → Client
      → Manager Client Err Obj
      → Option (Cluster Client Err Obj)
      → Manager Client Err Obj × Cluster Client Err Obj × Bool
  install ctx client m (some c) = (m, c, false)
  install ctx client m none =
      let c = live_cluster ctx (file_for ctx m) client m in
      if is_pinned ctx m then (m, degraded ctx "" none, false) else (register c m, c, true)

  unfoldable pub register_connected :
      String
      → Client
      → Manager Client Err Obj
      → Manager Client Err Obj × Cluster Client Err Obj × Bool
  unfolding register
  register_connected ctx client m = install ctx client m (get ctx m)

-- ===== src/Cluster.antt =====
-- internal/cluster/manager.go with the record of cluster.go: one cluster for each kube-context, made
-- at first use, dropped when no pane refers to it. The client and the error of a connection are
-- types of client-go's, and `connect`, which dials, is an argument. The discovery index and the
-- warning handler have no part in what is kept, and are left out.
pub mod Dial
pub mod Sync
pub mod Inv
pub mod Connect
mod Tests
use aku.Base.{
  ℕ, String, Bool, true, false, Option, none, some, List, [], ◌∷◌, ◌++◌, ◌==◌, str_eq,
  if◌then◌else◌, string_key, Assoc, lookup, insert, has,
}
use aku.K8s.Store
use aku.K8s.Store.{Store}

pub record ContextEntry : Type 0 where
  pub name : String
  pub file : String

-- `ref_count`: the panes that refer to the cluster; a count is not negative.
pub record Cluster (Client Err Obj : Type 0) : Type 0 where
  pub context : String
  pub file : String
  pub client : Option Client
  pub store : Option (Store Obj)
  pub err : Option Err
  pub ref_count : ℕ

-- `sending`: a send function is set.
pub record Manager (Client Err Obj : Type 0) : Type 0 where
  pub clusters : Assoc String (Cluster Client Err Obj)
  pub entries : List ContextEntry
  pub kubeconfig : String
  pub sending : Bool
  pub pinned : Assoc {0, 0} String Unit

pub data Dialed (Client Err : Type 0) : Type 0 where
  connected : Client → Dialed Client Err
  failed : Err → Dialed Client Err

abbrev entry_file : String → List ContextEntry → String
entry_file ctx [] = ""
entry_file ctx (e ∷ es) = if str_eq e.name ctx then e.file else entry_file ctx es

abbrev has_entry : String → List ContextEntry → Bool
has_entry ctx [] = false
has_entry ctx (e ∷ es) = if str_eq e.name ctx then true else has_entry ctx es

module _ {Client Err Obj : Type 0} where
  abbrev pub new_manager : List ContextEntry → String → Manager Client Err Obj
  new_manager entries kubeconfig = record {
    clusters = [];
    entries = entries;
    kubeconfig = kubeconfig;
    sending = false;
    pinned = [];
  }

  abbrev pub is_pinned : String → Manager Client Err Obj → Bool
  is_pinned ctx m = has ctx m.pinned

  abbrev pub get : String → Manager Client Err Obj → Option (Cluster Client Err Obj)
  get ctx m = lookup ctx m.clusters

  abbrev pub file_for : String → Manager Client Err Obj → String
  file_for ctx m = entry_file ctx m.entries

  -- `m.clusters[c.context] = c`.
  unfoldable pub register : Cluster Client Err Obj → Manager Client Err Obj → Manager Client Err Obj
  register c m = record m { clusters = insert c.context c m.clusters }

  unfoldable pub register_pinned :
      Cluster Client Err Obj → Manager Client Err Obj → Manager Client Err Obj
  register_pinned c m = record m {
    clusters = insert c.context c m.clusters;
    pinned = insert c.context tt m.pinned;
    entries =
        if has_entry c.context m.entries
        then m.entries
        else m.entries ++ record { name = c.context; file = "" } ∷ [];
  }

  abbrev pub wire : Bool → Cluster Client Err Obj → Cluster Client Err Obj
  wire on c = record c {
    store = elim c.store [ none ↦ none | some s ↦ some (Store.set_send on s) ];
  }

  unfoldable pub send_to :
      Bool → Assoc String (Cluster Client Err Obj) → Assoc String (Cluster Client Err Obj)
  send_to on [] = []
  send_to on ((ctx, c) ∷ cs) = (ctx, wire on c) ∷ send_to on cs

  abbrev pub set_send : Bool → Manager Client Err Obj → Manager Client Err Obj
  set_send on m = record m { sending = on; clusters = send_to on m.clusters }

  -- The cluster of a client that has connected.
  abbrev pub live_cluster :
      String → String → Client → Manager Client Err Obj → Cluster Client Err Obj
  live_cluster ctx file client m = record {
    context = ctx;
    file = file;
    client = some client;
    store = some (Store.new_store true ctx m.sending);
    err = none;
    ref_count = 0;
  }

  -- `&Cluster{context: ctx, file: file, err: err}`.
  abbrev pub degraded : String → String → Option Err → Cluster Client Err Obj
  degraded ctx file err = record {
    context = ctx;
    file = file;
    client = none;
    store = none;
    err = err;
    ref_count = 0;
  }

  -- `SyncRefs`: the loop over the clusters, which is the same in any order.
  unfoldable pub sync :
      (String → Bool)
      → (String → ℕ)
      → Assoc String (Cluster Client Err Obj)
      → Assoc String (Cluster Client Err Obj)
  sync pinned panes [] = []
  sync pinned panes ((ctx, c) ∷ cs) =
      let rest = sync pinned panes cs in
      if pinned ctx
      then (ctx, c) ∷ rest
      else if panes ctx == 0
      then rest
      else (ctx, record c { ref_count = panes ctx }) ∷ rest

  abbrev stop_store : Cluster Client Err Obj → Cluster Client Err Obj
  stop_store c = record c {
    ref_count = 0;
    store = elim c.store [ none ↦ none | some s ↦ some (Store.unsubscribe_all s) ];
  }

  -- The clusters that `SyncRefs` tears down, as it leaves them.
  unfoldable pub torn :
      (String → Bool)
      → (String → ℕ)
      → Assoc String (Cluster Client Err Obj)
      → List (Cluster Client Err Obj)
  torn pinned panes [] = []
  torn pinned panes ((ctx, c) ∷ cs) =
      let rest = torn pinned panes cs in
      if pinned ctx then rest else if panes ctx == 0 then stop_store c ∷ rest else rest

  unfoldable pub sync_refs :
      (String → ℕ) → Manager Client Err Obj → Manager Client Err Obj × List (Cluster Client Err Obj)
  unfolding sync torn
  sync_refs panes m = (
    record m { clusters = sync (λ ctx. is_pinned ctx m) panes m.clusters },
    torn (λ ctx. is_pinned ctx m) panes m.clusters,
  )

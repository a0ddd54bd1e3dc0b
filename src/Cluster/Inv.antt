-- ===== src/Cluster/Inv.antt =====
-- What holds of every manager that calls can reach.
use aku.Base.{
  ℕ, ◌≡◌, refl, sym, subst, if-cases, String, Bool, true, Option, none, some, List, [], ◌∷◌, ◌==◌,
  arith, str_eq, eq_iff, string_key, Assoc, lookup, insert, lookup-insert, has,
}
use aku.Cluster.{
  ContextEntry, Cluster, Manager, Dialed, connected, failed, new_manager, is_pinned, get, register,
  register_pinned, set_send, send_to, wire, sync_refs, live_cluster, file_for,
}
use aku.Cluster.Dial.{get_or_create, register_connected, or_create, created, install, dial, resolve}
use aku.Cluster.Sync.{counted, get-sync_refs}

module _ {Client Err Obj : Type 0} where
  -- The cluster, if there is one, bears the name.
  abbrev pub NamedAs : String → Option (Cluster Client Err Obj) → Type 0
  NamedAs k none = Unit
  NamedAs k (some c) = c.context ≡ k

  -- A cluster is kept under its own context, and a pinned context has one.
  pub record IsValid (m : Manager Client Err Obj) : Type 0 where
    pub named : (k : String) → NamedAs k (get k m)
    pub kept : (k : String) → is_pinned k m ≡ true → has k m.clusters ≡ true

  insert-NamedAs :
      (c : Cluster Client Err Obj) (k : String) (cs : Assoc String (Cluster Client Err Obj))
      → NamedAs k (lookup k cs)
      → NamedAs k (lookup k (insert c.context c cs))
  insert-NamedAs c k cs h =
      subst (NamedAs k) (sym (lookup-insert c.context k c cs))
        (if-cases (NamedAs k) (str_eq c.context k) _ _ (λ e. (eq_iff c.context k).0 e) (λ _. h))

  register-IsValid :
      (c : Cluster Client Err Obj) {m : Manager Client Err Obj} → IsValid m → IsValid (register c m)
  unfolding register
  register-IsValid c {m} v = record {
    named = λ k. insert-NamedAs c k m.clusters (v.named k);
    kept = λ k pin. ground (arith, lookup-insert c.context k c m.clusters, v.kept k pin);
  }

  register_pinned-IsValid :
      (c : Cluster Client Err Obj) {m : Manager Client Err Obj}
      → IsValid m
      → IsValid (register_pinned c m)
  unfolding register_pinned
  register_pinned-IsValid c {m} v = record {
    named = λ k. insert-NamedAs c k m.clusters (v.named k);
    kept = λ k pin. ground (
      arith,
      lookup-insert c.context k c m.clusters,
      lookup-insert c.context k tt m.pinned,
      v.kept k,
    );
  }

  counted-NamedAs :
      (k : String) (n : ℕ) (o : Option (Cluster Client Err Obj))
      → NamedAs k o
      → NamedAs k (counted n o)
  counted-NamedAs k n none h = tt
  counted-NamedAs k n (some c) h = h

  pinned-sync_refs :
      (panes : String → ℕ) {m : Manager Client Err Obj}
      → IsValid m
      → (k : String) → is_pinned k (sync_refs panes m).0 ≡ true
      → has k (sync_refs panes m).0.clusters ≡ true
  unfolding sync_refs
  pinned-sync_refs panes {m} v k pin = ground (arith, get-sync_refs panes k m, v.kept k pin)

  sync_refs-IsValid :
      (panes : String → ℕ) {m : Manager Client Err Obj} → IsValid m → IsValid (sync_refs panes m).0
  sync_refs-IsValid panes {m} v = record {
    named = λ k. subst (NamedAs k) (sym (get-sync_refs panes k m)) (
        if-cases (NamedAs k) (is_pinned k m) _ _ (λ _. v.named k)
          (λ _.
            if-cases (NamedAs k) (panes k == 0) _ _ (λ _. tt)
              (λ _. counted-NamedAs k (panes k) (get k m) (v.named k))));
    kept = pinned-sync_refs panes v;
  }

  lookup-send_to :
      (on : Bool) (k : String) (cs : Assoc String (Cluster Client Err Obj))
      → lookup k (send_to on cs) ≡ elim (lookup k cs) [ none ↦ none | some c ↦ some (wire on c) ]
  unfolding send_to lookup
  lookup-send_to on k [] = refl
  lookup-send_to on k ((j, c) ∷ cs) = ground (arith, lookup-send_to on k cs)

  wired :
      (on : Bool) (k : String) (o : Option (Cluster Client Err Obj))
      → NamedAs k o
      → NamedAs k (elim o [ none ↦ none | some c ↦ some (wire on c) ])
  wired on k none h = tt
  wired on k (some c) h = h

  set_send-IsValid : (on : Bool) {m : Manager Client Err Obj} → IsValid m → IsValid (set_send on m)
  set_send-IsValid on {m} v = record {
    named = λ k.
        subst (NamedAs k) (sym (lookup-send_to on k m.clusters)) (wired on k (get k m) (v.named k));
    kept = λ k pin. ground (arith, lookup-send_to on k m.clusters, v.kept k pin);
  }

  register_connected-IsValid :
      (ctx : String) (client : Client) {m : Manager Client Err Obj}
      → IsValid m
      → IsValid (register_connected ctx client m).0
  unfolding register_connected register
  register_connected-IsValid ctx client {m} v = go (get ctx m)
    where
      go : (o : Option (Cluster Client Err Obj)) → IsValid (install ctx client m o).0
      go (some c) = v
      go none =
          if-cases (λ (r : Manager Client Err Obj × Cluster Client Err Obj × Bool). IsValid r.0)
            (is_pinned ctx m) _ _ (λ _. v)
            (λ _. register-IsValid (live_cluster ctx (file_for ctx m) client m) v)

module _ {Client Err Obj : Type 0} (context_of : Client → String)
    (connect : String → String → Dialed Client Err) where
  created-IsValid :
      (ctx : String) (answer : Dialed Client Err) {m : Manager Client Err Obj}
      → IsValid m
      → IsValid (created context_of connect ctx m answer).0
  created-IsValid ctx (failed e) v = v
  created-IsValid ctx (connected client) {m} v =
      register-IsValid (live_cluster (resolve context_of ctx client) (file_for ctx m) client m) v

  get_or_create-IsValid :
      (ctx : String) {m : Manager Client Err Obj}
      → IsValid m
      → IsValid (get_or_create context_of connect ctx m).0
  unfolding get_or_create
  get_or_create-IsValid ctx {m} v = go (get ctx m)
    where
      go : (o : Option (Cluster Client Err Obj)) → IsValid (or_create context_of connect ctx m o).0
      go (some c) = v
      go none =
          if-cases (λ (r : Manager Client Err Obj × Cluster Client Err Obj). IsValid r.0)
            (is_pinned ctx m) _ _ (λ _. v)
            (λ _. created-IsValid ctx (dial context_of connect ctx m) v)

  -- A call of a method that changes the manager.
  pub data Step (m : Manager Client Err Obj) : Manager Client Err Obj → Type 0 where
    registered : (c : Cluster Client Err Obj) → Step m (register c m)
    pinned : (c : Cluster Client Err Obj) → Step m (register_pinned c m)
    sent : (on : Bool) → Step m (set_send on m)
    requested : (ctx : String) → Step m (get_or_create context_of connect ctx m).0
    installed : (ctx : String) (client : Client) → Step m (register_connected ctx client m).0
    synced : (panes : String → ℕ) → Step m (sync_refs panes m).0

  pub data Reach : Manager Client Err Obj → Type 0 where
    start :
        (entries : List ContextEntry) (kubeconfig : String) → Reach (new_manager entries kubeconfig)
    then_call : {m n : Manager Client Err Obj} → Reach m → Step m n → Reach n

  Step-IsValid : {m n : Manager Client Err Obj} → Step m n → IsValid m → IsValid n
  Step-IsValid (registered c) v = register-IsValid c v
  Step-IsValid (pinned c) v = register_pinned-IsValid c v
  Step-IsValid (sent on) v = set_send-IsValid on v
  Step-IsValid (requested ctx) v = get_or_create-IsValid ctx v
  Step-IsValid (installed ctx client) v = register_connected-IsValid ctx client v
  Step-IsValid (synced panes) v = sync_refs-IsValid panes v

  -- In every manager that calls can reach a cluster is kept under its own context, and a pinned
  -- context has a cluster.
  pub Reach-IsValid : {m : Manager Client Err Obj} → Reach m → IsValid m
  unfolding lookup
  Reach-IsValid (start entries kubeconfig) = record {
    named = λ k. tt;
    kept = λ k pin. absurd (ground (arith, pin));
  }
  Reach-IsValid (then_call r s) = Step-IsValid s (Reach-IsValid r)

-- ===== src/Cluster/Connect.antt =====
-- What connecting does: a success is kept, a failure is not, and no cluster is replaced.
use aku.Base.{
  ◌≡◌, refl, sym, subst, if-cases, ap, ◌∙◌, String, Bool, false, Option, none, some, arith, str_eq,
  eq_iff, if◌then◌else◌, string_key, lookup-insert, Bool-cases, inl, inr,
}
use aku.Cluster.{
  Cluster, Manager, Dialed, connected, failed, is_pinned, get, register, live_cluster, file_for,
}
use aku.Cluster.Dial.{get_or_create, register_connected, or_create, created, install, dial, resolve}
use aku.Cluster.Inv.{Reach, Reach-IsValid}

module _ {Client Err Obj : Type 0} where
  get-register :
      (c : Cluster Client Err Obj) (k : String) (m : Manager Client Err Obj)
      → get k (register c m) ≡ (if str_eq c.context k then some c else get k m)
  unfolding register
  get-register c k m = lookup-insert c.context k c m.clusters

  -- A new cluster under a context that has none leaves the others.
  register-keeps :
      (c d : Cluster Client Err Obj) (k : String) (m : Manager Client Err Obj)
      → get c.context m ≡ none
      → get k m ≡ some d
      → get k (register c m) ≡ some d
  register-keeps c d k m free found = elim (Bool-cases (str_eq c.context k)) [
    | inl same ↦
        absurd
          (ground (arith, sym found ∙ ap (λ x. get x m) (sym ((eq_iff c.context k).0 same)) ∙ free))
    | inr other ↦ get-register c k m ∙ rw other found
  ]

  -- `RegisterConnected` replaces no cluster that is kept.
  pub register_connected-keeps :
      (ctx : String) (client : Client) (k : String) (d : Cluster Client Err Obj)
      (m : Manager Client Err Obj)
      → get k m ≡ some d
      → get k (register_connected ctx client m).0 ≡ some d
  unfolding register_connected register
  register_connected-keeps ctx client k d m found = go (get ctx m) refl
    where
      go :
          (o : Option (Cluster Client Err Obj))
          → get ctx m ≡ o
          → get k (install ctx client m o).0 ≡ some d
      go (some c) e = found
      go none e =
          if-cases
            (λ (r : Manager Client Err Obj × Cluster Client Err Obj × Bool). get k r.0 ≡ some d)
            (is_pinned ctx m) _ _ (λ _. found)
            (λ _. register-keeps (live_cluster ctx (file_for ctx m) client m) d k m e found)

module _ {Client Err Obj : Type 0} (context_of : Client → String)
    (connect : String → String → Dialed Client Err) where
  not_pinned :
      (ctx : String) {m : Manager Client Err Obj}
      → Reach context_of connect m
      → get ctx m ≡ none
      → is_pinned ctx m ≡ false
  not_pinned ctx {m} r free = elim (Bool-cases (is_pinned ctx m)) [
    | inl pin ↦ absurd (ground (arith, (Reach-IsValid context_of connect r).kept ctx pin, free))
    | inr other ↦ other
  ]

  get_or_create-dials :
      (ctx : String) {m : Manager Client Err Obj} (answer : Dialed Client Err)
      → Reach context_of connect m
      → get ctx m ≡ none
      → dial context_of connect ctx m ≡ answer
      → get_or_create context_of connect ctx m ≡ created context_of connect ctx m answer
  unfolding get_or_create
  get_or_create-dials ctx {m} answer r free answered =
      ap (or_create context_of connect ctx m) free
      ∙ rw (not_pinned ctx r free) (ap (created context_of connect ctx m) answered)

  get_or_create-had :
      (ctx : String) (m : Manager Client Err Obj) (d : Cluster Client Err Obj)
      → get ctx m ≡ some d
      → get_or_create context_of connect ctx m ≡ (m, d)
  unfolding get_or_create
  get_or_create-had ctx m d e = ap (or_create context_of connect ctx m) e

  -- What `GetOrCreate` gives for a context, by the cluster that it has and what a dial of it gives.
  abbrev pub Gives :
      String
      → Option (Cluster Client Err Obj)
      → Dialed Client Err
      → Manager Client Err Obj
      → Manager Client Err Obj × Cluster Client Err Obj
      → Type 0
  Gives ctx (some d) answer m (n, c) = (n ≡ m) × (c ≡ d)
  Gives ctx none (failed e) m (n, c) = (n ≡ m) × (c.err ≡ some e) × (c.client ≡ none)
  Gives ctx none (connected client) m (n, c) =
      (c.context ≡ ctx) × (c.client ≡ some client) × (c.err ≡ none) × (get ctx n ≡ some c)

  -- The clusters of a manager are those of another.
  abbrev pub KeepsAll : Manager Client Err Obj → Manager Client Err Obj → Type 0
  KeepsAll m n = (k : String) (d : Cluster Client Err Obj) → get k m ≡ some d → get k n ≡ some d

  -- Where a context is named, `GetOrCreate` gives the cluster that it has, and dials if it has none: a
  -- success is a cluster with that client, under that context, which the next `Get` finds; a failure
  -- is a cluster with the error and no client, which is not kept, so the next call dials again. No
  -- cluster is lost or replaced.
  pub get_or_create_lem :
      (ctx : String) {m : Manager Client Err Obj}
      → Reach context_of connect m
      → str_eq ctx "" ≡ false
      → Gives ctx
          (get ctx m)
          (dial context_of connect ctx m)
          m
          (get_or_create context_of connect ctx m)
        × KeepsAll m (get_or_create context_of connect ctx m).0
  get_or_create_lem ctx {m} r given = go (get ctx m) (dial context_of connect ctx m) refl refl
    where
      go :
          (o : Option (Cluster Client Err Obj)) (answer : Dialed Client Err)
          → get ctx m ≡ o
          → dial context_of connect ctx m ≡ answer
          → Gives ctx o answer m (get_or_create context_of connect ctx m)
            × KeepsAll m (get_or_create context_of connect ctx m).0
      go (some d) answer e a =
          subst (λ p. Gives ctx (some d) answer m p × KeepsAll m p.0)
            (sym (get_or_create-had ctx m d e)) ((refl, refl), λ k c f. f)
      go none (failed err) e a =
          subst (λ p. Gives ctx none (failed err) m p × KeepsAll m p.0)
            (sym (get_or_create-dials ctx (failed err) r e a)) ((refl, refl, refl), λ k c f. f)
      go none (connected client) e a =
          let c = live_cluster (resolve context_of ctx client) (file_for ctx m) client m in
          let named : c.context ≡ ctx = rw given refl in
          subst (λ p. Gives ctx none (connected client) m p × KeepsAll m p.0)
            (sym (get_or_create-dials ctx (connected client) r e a))
            (
              (named, refl, refl, get-register c ctx m ∙ rw ((eq_iff c.context ctx).1 named) refl),
              λ k d f. register-keeps c d k m (ap (λ x. get x m) named ∙ e) f,
            )

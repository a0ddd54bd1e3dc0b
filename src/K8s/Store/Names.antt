-- ===== src/K8s/Store/Names.antt =====
-- The keys of the store: a resource and a namespace.
use aku.Base.{String, Bool, true, ◌&&◌, ◌≡◌, subst, ◌↔◌, str_eq, eq_iff, KeyEq, arith}

-- `schema.GroupVersionResource` of apimachinery: three texts.
pub record Gvr : Type 0 where
  pub group : String
  pub version : String
  pub resource : String

pub record WatchKey : Type 0 where
  pub gvr : Gvr
  pub namespace : String

unfoldable pub same_gvr : Gvr → Gvr → Bool
same_gvr a b = str_eq a.group b.group && str_eq a.version b.version && str_eq a.resource b.resource

pub same_gvr_iff : (a b : Gvr) → (same_gvr a b ≡ true) ↔ (a ≡ b)
unfolding same_gvr
same_gvr_iff a b = (
  λ h.
      let groups = (eq_iff a.group b.group).0 (ground arith) in
      let versions = (eq_iff a.version b.version).0 (ground arith) in
      let resources = (eq_iff a.resource b.resource).0 (ground arith) in
      λ i. record { group = groups i; version = versions i; resource = resources i },
  λ e.
      subst (λ c. same_gvr a c ≡ true) e
        (ground (
          arith,
          eq_iff a.group a.group,
          eq_iff a.version a.version,
          eq_iff a.resource a.resource,
        )),
)

unfoldable pub same_key : WatchKey → WatchKey → Bool
same_key a b = same_gvr a.gvr b.gvr && str_eq a.namespace b.namespace

pub same_key_iff : (a b : WatchKey) → (same_key a b ≡ true) ↔ (a ≡ b)
unfolding same_key
same_key_iff a b = (
  λ h.
      let gvrs = (same_gvr_iff a.gvr b.gvr).0 (ground arith) in
      let namespaces = (eq_iff a.namespace b.namespace).0 (ground arith) in
      λ i. record { gvr = gvrs i; namespace = namespaces i },
  λ e.
      subst (λ c. same_key a c ≡ true) e
        (ground (arith, same_gvr_iff a.gvr a.gvr, eq_iff a.namespace a.namespace)),
)

instance abbrev pub watch_key : KeyEq WatchKey
watch_key = record { same = same_key; same_iff = same_key_iff }

instance abbrev pub gvr_key : KeyEq Gvr
gvr_key = record { same = same_gvr; same_iff = same_gvr_iff }

-- ===== src/K8s/Store.antt =====
-- internal/k8s/store.go. The informer is client-go's: what it does to the store is the handlers of
-- its events, which are steps like the calls. An object is a value with its two names; `DeepCopy`
-- is the value.
pub mod Names
pub mod Cache
pub mod Teardown
mod Tests
use aku.Base.{
  ℕ, ◌+◌, String, Bool, true, false, ◌&&◌, Option, none, some, List, [], ◌∷◌, map, length, str_eq,
  str_append, if◌then◌else◌, KeyEq, string_key, Assoc, lookup, delete, insert, has,
}
use aku.K8s.Debounce.{Debouncer, new_debouncer, trigger, cancel, stop}
use aku.K8s.Store.Names.{Gvr, WatchKey, watch_key}

-- `client`: the client is not nil; `sending`: a send function is set.
pub record Store {ℓ} (Obj : Type ℓ) : Type ℓ where
  pub client : Bool
  pub ctx_name : String
  pub static : Bool
  pub cache : Assoc WatchKey (Assoc String Obj)
  pub informers : Assoc {0, 0} WatchKey Unit
  pub sending : Bool
  pub debouncer : Debouncer WatchKey

abbrev pub new_store {ℓ} : {Obj : Type ℓ} → Bool → String → Bool → Store Obj
new_store client ctx_name sending = record {
  client = client;
  ctx_name = ctx_name;
  static = false;
  cache = [];
  informers = [];
  sending = sending;
  debouncer = new_debouncer;
}

-- `ResourceUpdatedMsg`.
pub record ResourceUpdated : Type 0 where
  pub gvr : Gvr
  pub namespace : String
  pub context : String

abbrev pub bucket_or {ℓ} : {A : Type ℓ} → Option (List A) → List A
bucket_or none = []
bucket_or (some b) = b

-- A nil bucket reads like an empty one.
module _ {ℓ} {Obj : Type ℓ} where
  abbrev pub mark_static : Store Obj → Store Obj
  mark_static s = record s { static = true }

  abbrev pub set_send : Bool → Store Obj → Store Obj
  set_send on s = record s { sending = on }

  abbrev pub bucket : WatchKey → Store Obj → Assoc String Obj
  bucket key s = bucket_or (lookup key s.cache)

  abbrev pub is_subscribed : WatchKey → Store Obj → Bool
  is_subscribed key s = has key s.informers

  abbrev pub list : WatchKey → Store Obj → List Obj
  list key s = map (λ (p : String × Obj). p.1) (bucket key s)

  -- `if s.cache[key] == nil { s.cache[key] = make(…) }`.
  unfoldable pub with_bucket : WatchKey → Store Obj → Store Obj
  with_bucket key s = record s { cache = insert key (bucket key s) s.cache }

  -- With the items that the caller gets.
  unfoldable pub subscribe : WatchKey → Store Obj → Store Obj × List Obj
  unfolding with_bucket
  subscribe key s =
      let made = with_bucket key s in
      if has key s.informers
      then (s, list key s)
      else if s.client
      then (record made { informers = insert key tt s.informers }, list key made)
      else (made, list key made)

  unfoldable pub unsubscribe : WatchKey → Store Obj → Store Obj
  unsubscribe key s = if s.static then s else record s {
    informers = delete key s.informers;
    cache = delete key s.cache;
    debouncer = cancel key s.debouncer;
  }

  unfoldable pub unsubscribe_all : Store Obj → Store Obj
  unsubscribe_all s =
      if s.static then s else record s { debouncer = stop s.debouncer; informers = []; cache = [] }

  abbrev count_in : String → Assoc WatchKey (Assoc String Obj) → ℕ
  count_in namespace [] = 0
  count_in namespace ((key, b) ∷ m) =
      (if str_eq key.namespace namespace then length b else 0) + count_in namespace m

  abbrev pub count_in_namespace : String → Store Obj → ℕ
  count_in_namespace namespace s = count_in namespace s.cache

  -- `doNotify`.
  abbrev pub do_notify : WatchKey → Store Obj → Option ResourceUpdated
  do_notify key s =
      if s.sending
      then some (record { gvr = key.gvr; namespace = key.namespace; context = s.ctx_name })
      else none

  -- What the store uses of an object: `GetName` and `GetNamespace`.
  module _ (name namespace : Obj → String) where
    unfoldable pub cache_obj_key : Obj → String
    cache_obj_key obj =
        if str_eq (namespace obj) ""
        then name obj
        else str_append (namespace obj) (str_append "/" (name obj))

    unfoldable pub cache_upsert : WatchKey → Obj → Store Obj → Store Obj
    cache_upsert key obj s = record s {
      cache = insert key (insert (cache_obj_key obj) obj (bucket key s)) s.cache;
    }

    unfoldable pub cache_delete : WatchKey → Obj → Store Obj → Store Obj
    cache_delete key obj s =
        if has key s.cache
        then record s { cache = insert key (delete (cache_obj_key obj) (bucket key s)) s.cache }
        else s

    abbrev pub notify_if : Bool → WatchKey → Store Obj → Store Obj
    notify_if synced key s = if synced then record s { debouncer = trigger key s.debouncer } else s

    -- The informer's handlers of an object that is new, changed or gone; `synced` after the first
    -- list. An event of another kind is dropped before.
    unfoldable pub on_upsert : Bool → WatchKey → Obj → Store Obj → Store Obj
    unfolding cache_upsert
    on_upsert synced key obj s = notify_if synced key (cache_upsert key obj s)

    unfoldable pub on_delete : Bool → WatchKey → Obj → Store Obj → Store Obj
    unfolding cache_delete
    on_delete synced key obj s = notify_if synced key (cache_delete key obj s)

-- ===== src/K8s/Store/Teardown.antt =====
-- What stopping informers does to the cache: of a store of manifests, which has no other copy of its
-- data, and of a store with informers.
use aku.Base.{
  string_key, ◌≡◌, refl, sym, ap, ◌∙◌, String, Option, has, str_eq, Bool, true, false, ◌&&◌, not,
  none, some, List, [], ◌∷◌, arith, if◌then◌else◌, lookup, delete, lookup-delete, Bool-cases,
  if-cases, inl, inr, eq_iff,
}
use aku.K8s.Store.{
  Store, bucket_or, is_subscribed, mark_static, set_send, subscribe, unsubscribe, unsubscribe_all,
  cache_obj_key, cache_upsert, cache_delete, on_upsert, with_bucket,
}
use aku.K8s.Store.Names.{WatchKey, watch_key, same_key, same_key_iff}
use aku.K8s.Store.Cache.{find, find-subscribe, find-cache_upsert, find-cache_delete}

-- The calls of the application, its writes to the cache among them.
pub data Call {ℓ} (Obj : Type ℓ) : Type ℓ where
  subscribed unsubscribed : WatchKey → Call Obj
  all_unsubscribed marked : Call Obj
  send_set : Bool → Call Obj
  upserted deleted : WatchKey → Obj → Call Obj

module _ {ℓ} {Obj : Type ℓ} (name namespace : Obj → String) where
  unfoldable pub call : Call Obj → Store Obj → Store Obj
  unfolding subscribe unsubscribe unsubscribe_all cache_upsert cache_delete
  call (subscribed key) s = (subscribe key s).0
  call (unsubscribed key) s = unsubscribe key s
  call all_unsubscribed s = unsubscribe_all s
  call marked s = mark_static s
  call (send_set on) s = set_send on s
  call (upserted key obj) s = cache_upsert name namespace key obj s
  call (deleted key obj) s = cache_delete name namespace key obj s

  abbrev pub calls : List (Call Obj) → Store Obj → Store Obj
  calls [] s = s
  calls (c ∷ cs) s = calls cs (call c s)

  -- What the writes to a bucket leave under a name, and no other call.
  abbrev pub written : WatchKey → String → List (Call Obj) → Option Obj → Option Obj
  written k id [] was = was
  written k id (upserted key obj ∷ cs) was =
      written k id cs
        (if same_key key k && str_eq (cache_obj_key name namespace obj) id then some obj else was)
  written k id (deleted key obj ∷ cs) was =
      written k id cs
        (if same_key key k && str_eq (cache_obj_key name namespace obj) id then none else was)
  written k id (_ ∷ cs) was = written k id cs was

  static-subscribe : (key : WatchKey) (s : Store Obj) → (subscribe key s).0.static ≡ s.static
  unfolding subscribe with_bucket
  static-subscribe key s = ground arith

  call-static :
      (c : Call Obj) (k : WatchKey) (id : String) (s : Store Obj)
      → s.static ≡ true
      → ((call c s).static ≡ true) × (find k id (call c s) ≡ written k id (c ∷ []) (find k id s))
  unfolding call unsubscribe unsubscribe_all cache_upsert cache_delete
  call-static (subscribed key) k id s fixed =
      (static-subscribe key s ∙ fixed, (find-subscribe key k id s).0)
  call-static (unsubscribed key) k id s fixed = rw fixed (refl, refl)
  call-static all_unsubscribed k id s fixed = rw fixed (refl, refl)
  call-static marked k id s fixed = (refl, refl)
  call-static (send_set on) k id s fixed = (fixed, refl)
  call-static (upserted key obj) k id s fixed =
      (fixed, find-cache_upsert name namespace key k id obj s)
  call-static (deleted key obj) k id s fixed = (
    if-cases (λ (t : Store Obj). t.static ≡ true) (has key s.cache) _ s (λ _. fixed) (λ _. fixed),
    find-cache_delete name namespace key k id obj s,
  )

  written-cons :
      (k : WatchKey) (id : String) (c : Call Obj) (cs : List (Call Obj)) (was : Option Obj)
      → written k id (c ∷ cs) was ≡ written k id cs (written k id (c ∷ []) was)
  written-cons k id (upserted key obj) cs was = refl
  written-cons k id (deleted key obj) cs was = refl
  written-cons k id (subscribed key) cs was = refl
  written-cons k id (unsubscribed key) cs was = refl
  written-cons k id all_unsubscribed cs was = refl
  written-cons k id marked cs was = refl
  written-cons k id (send_set on) cs was = refl

  -- Once a store is static, an object is found after any calls that is the last one written there,
  -- or the one that was there before, unless it was deleted since: no subscription or teardown loses
  -- or changes an object.
  pub find-calls_static :
      (cs : List (Call Obj)) (k : WatchKey) (id : String) (s : Store Obj)
      → find k id (calls cs (mark_static s)) ≡ written k id cs (find k id s)
  find-calls_static cs k id s = go cs (mark_static s) refl
    where
      go :
          (cs : List (Call Obj)) (t : Store Obj)
          → t.static ≡ true
          → find k id (calls cs t) ≡ written k id cs (find k id t)
      go [] t fixed = refl
      go (c ∷ cs) t fixed =
          let (still, same) = call-static c k id t fixed in
          go cs (call c t) still
          ∙ ap (written k id cs) same
          ∙ sym (written-cons k id c cs (find k id t))

module _ {ℓ} {Obj : Type ℓ} where
  find-delete :
      (key k : WatchKey) (id : String) (s : Store Obj)
      → lookup id (bucket_or (lookup k (delete key s.cache)))
        ≡ (if same_key key k then none else find k id s)
  unfolding lookup
  find-delete key k id s =
      ap (λ o. lookup id (bucket_or o)) (lookup-delete key k s.cache)
      ∙ (elim (Bool-cases (same_key key k)) [ inl hit ↦ rw hit refl | inr other ↦ rw other refl ])

  -- In a store that is not static `Unsubscribe` drops the informer and the objects of its key, and no
  -- others; `UnsubscribeAll` drops all.
  pub unsubscribe_lem :
      (key k : WatchKey) (id : String) (s : Store Obj)
      → s.static ≡ false
      → (find k id (unsubscribe key s) ≡ (if same_key key k then none else find k id s))
        × (is_subscribed k (unsubscribe key s) ≡ (not (same_key key k) && is_subscribed k s))
        × (find k id (unsubscribe_all s) ≡ none)
        × (is_subscribed k (unsubscribe_all s) ≡ false)
  unfolding unsubscribe unsubscribe_all lookup
  unsubscribe_lem key k id s live =
      rw live (find-delete key k id s, ground (arith, lookup-delete key k s.informers), refl, refl)

  module _ (name namespace : Obj → String) where
    find-on_upsert :
        (synced : Bool) (key : WatchKey) (obj : Obj) (s : Store Obj)
        → find key (cache_obj_key name namespace obj) (on_upsert name namespace synced key obj s)
          ≡ some obj
    unfolding on_upsert
    find-on_upsert synced key obj s =
        let id = cache_obj_key name namespace obj in
        let same_id = (eq_iff id id).1 refl in
        let same = (same_key_iff key key).1 refl in
        let found : find key id (cache_upsert name namespace key obj s) ≡ some obj =
          find-cache_upsert name namespace key key id obj s ∙ rw (same, same_id) refl in
        if-cases (λ (t : Store Obj). find key id t ≡ some obj) synced _ _ (λ _. found) (λ _. found)

    is_subscribed-on_upsert :
        (synced : Bool) (key : WatchKey) (obj : Obj) (s : Store Obj)
        → is_subscribed key (on_upsert name namespace synced key obj s) ≡ is_subscribed key s
    unfolding on_upsert cache_upsert
    is_subscribed-on_upsert synced key obj s =
        if-cases (λ (t : Store Obj). is_subscribed key t ≡ is_subscribed key s) synced _ _
          (λ _. refl) (λ _. refl)

    -- An event that an informer handles after `Unsubscribe` of its key puts its object back into a
    -- cache that no informer keeps, and a later `Subscribe` finds it there.
    pub late_event :
        (synced : Bool) (key : WatchKey) (obj : Obj) (s : Store Obj)
        → s.static ≡ false
        → let late = on_upsert name namespace synced key obj (unsubscribe key s) in
          let id = cache_obj_key name namespace obj in
          (is_subscribed key late ≡ false)
          × (find key id late ≡ some obj)
          × (find key id (subscribe key late).0 ≡ some obj)
    late_event synced key obj s live =
        let t = unsubscribe key s in
        let found = find-on_upsert synced key obj t in
        (
          is_subscribed-on_upsert synced key obj t
              ∙ (unsubscribe_lem key key "" s live).1
              ∙ rw ((same_key_iff key key).1 refl) refl,
          found,
          (find-subscribe key key _ (on_upsert name namespace synced key obj t)).0 ∙ found,
        )

-- ===== src/K8s/Store/Cache.antt =====
-- What is found in the cache after each operation.
use aku.Base.{
  ◌≡◌, refl, sym, ap, ◌∙◌, String, Bool, true, false, ◌&&◌, ◌||◌, Option, none, some, arith, str_eq,
  if◌then◌else◌, string_key, Assoc, lookup, delete, insert, has, lookup-delete, lookup-insert,
  Bool-cases, Option-cases, inl, inr,
}
use aku.K8s.Store.{
  Store, bucket, bucket_or, is_subscribed, with_bucket, subscribe, cache_obj_key, cache_upsert,
  cache_delete, list,
}
use aku.K8s.Store.Names.{WatchKey, watch_key, same_key, same_key_iff}

module _ {ℓ} {Obj : Type ℓ} where
  -- The object under a name in the bucket of a key.
  abbrev pub find : WatchKey → String → Store Obj → Option Obj
  find key id s = lookup id (bucket key s)

  bucket-insert :
      (key k : WatchKey) (b : Assoc String Obj) (m : Assoc WatchKey (Assoc String Obj))
      → bucket_or (lookup k (insert key b m))
        ≡ (if same_key key k then b else bucket_or (lookup k m))
  bucket-insert key k b m = ground (arith, lookup-insert key k b m)

  same-find :
      (key k : WatchKey) (id : String) (s : Store Obj)
      → same_key key k ≡ true
      → find key id s ≡ find k id s
  same-find key k id s hit = ap (λ x. find x id s) ((same_key_iff key k).0 hit)

  find-with_bucket :
      (key k : WatchKey) (id : String) (s : Store Obj) → find k id (with_bucket key s) ≡ find k id s
  unfolding with_bucket
  find-with_bucket key k id s =
      ap (lookup id) (bucket-insert key k (bucket key s) s.cache)
      ∙ (elim (Bool-cases (same_key key k)) [
        | inl hit ↦ rw hit (same-find key k id s hit)
        | inr other ↦ rw other refl
      ])

  stays :
      (key k : WatchKey) (s : Store Obj)
      → is_subscribed key s ≡ true
      → is_subscribed k s ≡ (is_subscribed k s || (same_key key k && (s.client || true)))
  stays key k s old = elim (Bool-cases (same_key key k)) [
    | inl hit ↦
        let there = sym (ap (λ x. is_subscribed x s) ((same_key_iff key k).0 hit)) ∙ old in
        rw hit (ground (arith, there))
    | inr other ↦ rw other (ground arith)
  ]

  find-nothing :
      (key : WatchKey) (id : String) (s : Store Obj)
      → has key s.cache ≡ false
      → find key id s ≡ none
  unfolding lookup
  find-nothing key id s bare = elim (Option-cases (lookup key s.cache)) [
    | inl e ↦ ap (λ (o : Option (Assoc String Obj)). lookup id (bucket_or o)) e
    | inr (b, e) ↦ absurd (ground (arith, e, bare))
  ]

  find-bare :
      (key k : WatchKey) (id : String) (s : Store Obj) (b : Bool)
      → has key s.cache ≡ false
      → find k id s ≡ (if same_key key k && b then none else find k id s)
  find-bare key k id s b bare = elim (Bool-cases (same_key key k)) [
    | inl hit ↦
        let gone : find k id s ≡ none =
          sym (same-find key k id s hit) ∙ find-nothing key id s bare in
        rw hit (ground (arith, gone))
    | inr other ↦ rw other refl
  ]

  -- `Subscribe` finds what was there, and so does the caller: a key without an informer gets one
  -- where there is a client.
  pub find-subscribe :
      (key k : WatchKey) (id : String) (s : Store Obj)
      → (find k id (subscribe key s).0 ≡ find k id s)
        × ((subscribe key s).1 ≡ list key (subscribe key s).0)
        × (is_subscribed k (subscribe key s).0
            ≡ (is_subscribed k s || (same_key key k && (s.client || is_subscribed key s))))
  unfolding subscribe
  find-subscribe key k id s = elim (Bool-cases (has key s.informers)) [
    | inl old ↦ rw old (refl, refl, stays key k s old)
    | inr new ↦ elim (Bool-cases s.client) [
      | inl online ↦
          rw (new, online)
            (find-with_bucket key k id s, refl, ground (arith, lookup-insert key k tt s.informers))
      | inr offline ↦ rw (new, offline) (find-with_bucket key k id s, refl, ground arith)
    ]
  ]

  module _ (name namespace : Obj → String) where
    -- `CacheUpsert` changes what is found under the object's name in the bucket of its key, and
    -- nothing else.
    pub find-cache_upsert :
        (key k : WatchKey) (id : String) (obj : Obj) (s : Store Obj)
        → find k id (cache_upsert name namespace key obj s) ≡ (
            if same_key key k && str_eq (cache_obj_key name namespace obj) id
            then some obj
            else find k id s)
    unfolding cache_upsert
    find-cache_upsert key k id obj s =
        let at = cache_obj_key name namespace obj in
        ap (lookup id) (bucket-insert key k (insert at obj (bucket key s)) s.cache)
        ∙ (elim (Bool-cases (same_key key k)) [
          | inl hit ↦ rw hit (
              lookup-insert at id obj (bucket key s)
              ∙ ap (λ r. if str_eq at id then some obj else r) (same-find key k id s hit))
          | inr other ↦ rw other refl
        ])

    -- `CacheDelete` removes what is found under the object's name in the bucket of its key, and
    -- nothing else.
    pub find-cache_delete :
        (key k : WatchKey) (id : String) (obj : Obj) (s : Store Obj)
        → find k id (cache_delete name namespace key obj s) ≡ (
            if same_key key k && str_eq (cache_obj_key name namespace obj) id
            then none
            else find k id s)
    unfolding cache_delete
    find-cache_delete key k id obj s =
        let at = cache_obj_key name namespace obj in
        elim (Bool-cases (has key s.cache)) [
          | inl held ↦ rw held (
              ap (lookup id) (bucket-insert key k (delete at (bucket key s)) s.cache)
              ∙ (elim (Bool-cases (same_key key k)) [
                | inl hit ↦ rw hit (
                    lookup-delete at id (bucket key s)
                    ∙ ap (λ r. if str_eq at id then none else r) (same-find key k id s hit))
                | inr other ↦ rw other refl
              ]))
          | inr bare ↦ rw bare (find-bare key k id s (str_eq at id) bare)
        ]

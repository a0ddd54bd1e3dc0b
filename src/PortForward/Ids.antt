-- ===== src/PortForward/Ids.antt =====
-- Ids: none is given twice, and an entry is found under its id until it is removed.
use aku.Base.{
  ℕ, ◌+◌, ◌<◌, ◌≡◌, refl, String, none, some, [], ◌∷◌, arith, if◌then◌else◌, Assoc, lookup,
  lookup-insert, lookup-delete, Unique, insert-Unique, delete-Unique, has, Bool-cases, inl, inr,
}
use aku.PortForward.{
  EntryId, pf, same_id, same_id_iff, entry_key, Entry, Registry, new_registry, add, uses_port,
  add_if_not_present, remove, set_status, cancel_of, update_status, stop_all,
}

-- No entry has a number above the counter.
abbrev pub Numbered : ℕ → Assoc EntryId Entry → Type 0
Numbered n m = (k : ℕ) → n < k → lookup (pf k) m ≡ none

pub record IsValid (r : Registry) : Type 0 where
  pub unique : Unique r.entries
  pub numbered : Numbered r.next_id r.entries

add-IsValid : (e : Entry) {r : Registry} → IsValid r → IsValid (add e r).0
unfolding add
add-IsValid e {r} v = record {
  unique = insert-Unique (pf (r.next_id + 1)) e r.entries v.unique;
  numbered = λ k above.
      ground
        (arith, lookup-insert (pf (r.next_id + 1)) (pf k) e r.entries, v.numbered k (omega arith));
}

lookup-set_status :
    (id k : EntryId) (status : String) (m : Assoc EntryId Entry)
    → lookup k (set_status id status m) ≡ elim (lookup k m) [
      | none ↦ none
      | some e ↦ some (if same_id id k then record e { status = status } else e)
    ]
unfolding lookup set_status
lookup-set_status id k status [] = refl
lookup-set_status id k status ((j, e) ∷ m) =
    ground
      (arith, lookup-set_status id k status m, same_id_iff j id, same_id_iff j k, same_id_iff id k)

add_if_not_present-IsValid :
    (e : Entry) {r : Registry} → IsValid r → IsValid (add_if_not_present e r).0
unfolding add_if_not_present
add_if_not_present-IsValid e {r} v = elim (Bool-cases (uses_port e.local_port r.entries)) [
  | inl taken ↦ rw taken v
  | inr free ↦ rw free (add-IsValid e v)
]

remove-IsValid : (id : EntryId) {r : Registry} → IsValid r → IsValid (remove id r).0
unfolding remove
remove-IsValid id {r} v = record {
  unique = delete-Unique id r.entries v.unique;
  numbered = λ k above. ground (arith, lookup-delete id (pf k) r.entries, v.numbered k above);
}

set_status-Unique :
    (id : EntryId) (status : String) (m : Assoc EntryId Entry)
    → Unique m
    → Unique (set_status id status m)
unfolding set_status lookup
set_status-Unique id status [] u = tt
set_status-Unique id status ((j, e) ∷ m) u = elim (Bool-cases (same_id j id)) [
  | inl hit ↦
      rw hit (ground (arith, lookup-set_status id j status m), set_status-Unique id status m u.1)
  | inr other ↦
      rw other (ground (arith, lookup-set_status id j status m), set_status-Unique id status m u.1)
]

update_status-IsValid :
    (id : EntryId) (status : String) {r : Registry}
    → IsValid r
    → IsValid (update_status id status r).0
unfolding update_status
update_status-IsValid id status {r} v = record {
  unique = set_status-Unique id status r.entries v.unique;
  numbered =
      λ k above. ground (arith, lookup-set_status id (pf k) status r.entries, v.numbered k above);
}

-- A call of a method that changes the registry.
pub data Step (r : Registry) : Registry → Type 0 where
  added : (e : Entry) → Step r (add e r).0
  added_if_free : (e : Entry) → Step r (add_if_not_present e r).0
  removed : (id : EntryId) → Step r (remove id r).0
  updated : (id : EntryId) (status : String) → Step r (update_status id status r).0
  stopped : Step r (stop_all r).0

pub data Reach : Registry → Type 0 where
  start : Reach new_registry
  then_call : {r s : Registry} → Reach r → Step r s → Reach s

Step-IsValid : {r s : Registry} → Step r s → IsValid r → IsValid s
unfolding stop_all lookup
Step-IsValid (added e) v = add-IsValid e v
Step-IsValid (added_if_free e) v = add_if_not_present-IsValid e v
Step-IsValid (removed id) v = remove-IsValid id v
Step-IsValid (updated id status) v = update_status-IsValid id status v
Step-IsValid stopped v = record { unique = tt; numbered = λ k above. refl }

pub Reach-IsValid : {r : Registry} → Reach r → IsValid r
unfolding lookup
Reach-IsValid start = record { unique = tt; numbered = λ k above. refl }
Reach-IsValid (then_call h s) = Step-IsValid s (Reach-IsValid h)

-- In every registry that calls can reach `Add` gives an id that no entry has, stores the entry
-- under it, and leaves what is found under any other id.
pub add-fresh :
    (e : Entry) (k : EntryId) {r : Registry}
    → Reach r
    → let (s, id) = add e r in
      (lookup id r.entries ≡ none)
      × (lookup k s.entries ≡ (if same_id id k then some e else lookup k r.entries))
unfolding add
add-fresh e k {r} h = (
  (Reach-IsValid h).numbered (r.next_id + 1) (omega arith),
  lookup-insert (pf (r.next_id + 1)) k e r.entries,
)

-- `Remove` calls the removed entry's cancel function, if it has one, and nothing else; the entry is
-- gone and the others stay. `UpdateStatus` is true where there is an entry, of which it changes
-- the status alone.
pub remove_update_lem :
    (id k : EntryId) (status : String) (r : Registry)
    → ((remove id r).1 ≡ cancel_of (lookup id r.entries))
      × (lookup k (remove id r).0.entries ≡ (if same_id id k then none else lookup k r.entries))
      × ((update_status id status r).1 ≡ has id r.entries)
      × (lookup k (update_status id status r).0.entries ≡ elim (lookup k r.entries) [
        | none ↦ none
        | some e ↦ some (if same_id id k then record e { status = status } else e)
      ])
unfolding remove update_status
remove_update_lem id k status r =
    (refl, lookup-delete id k r.entries, refl, lookup-set_status id k status r.entries)

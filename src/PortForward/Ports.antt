-- ===== src/PortForward/Ports.antt =====
-- Local ports: while entries come by `AddIfNotPresent` alone, no two of them share one.
use aku.Base.{
  ◌+◌, not, if◌then◌else◌, ◌&&◌, lookup, lookup-insert, ◌≡◌, refl, ◌∙◌, String, true, false, none,
  some, [], ◌∷◌, arith, Assoc, delete, insert, Bool-cases, inl, inr, ℤ, eq_ℤ,
}
use aku.PortForward.{
  EntryId, pf, same_id, entry_key, Entry, Registry, new_registry, add, uses_port,
  add_if_not_present, remove, set_status, update_status, stop_all, has_local_port,
}

abbrev pub Distinct : Assoc EntryId Entry → Type 0
Distinct [] = Unit
Distinct ((id, e) ∷ m) = (uses_port e.local_port m ≡ false) × Distinct m

uses_port-delete :
    (port : ℤ) (id : EntryId) (m : Assoc EntryId Entry)
    → uses_port port m ≡ false
    → uses_port port (delete id m) ≡ false
unfolding uses_port delete
uses_port-delete port id [] h = refl
uses_port-delete port id ((j, e) ∷ m) h = ground (arith, uses_port-delete port id m)

delete-Distinct : (id : EntryId) (m : Assoc EntryId Entry) → Distinct m → Distinct (delete id m)
unfolding delete
delete-Distinct id [] d = tt
delete-Distinct id ((j, e) ∷ m) d = elim (Bool-cases (same_id j id)) [
  | inl hit ↦ rw hit (delete-Distinct id m d.1)
  | inr other ↦ rw other (uses_port-delete e.local_port id m d.0, delete-Distinct id m d.1)
]

uses_port-set_status :
    (port : ℤ) (id : EntryId) (status : String) (m : Assoc EntryId Entry)
    → uses_port port (set_status id status m) ≡ uses_port port m
unfolding uses_port set_status
uses_port-set_status port id status [] = refl
uses_port-set_status port id status ((j, e) ∷ m) =
    ground (arith, uses_port-set_status port id status m)

set_status-Distinct :
    (id : EntryId) (status : String) (m : Assoc EntryId Entry)
    → Distinct m
    → Distinct (set_status id status m)
unfolding set_status
set_status-Distinct id status [] d = tt
set_status-Distinct id status ((j, e) ∷ m) d = elim (Bool-cases (same_id j id)) [
  | inl hit ↦
      rw hit
        (uses_port-set_status e.local_port id status m ∙ d.0, set_status-Distinct id status m d.1)
  | inr other ↦
      rw other
        (uses_port-set_status e.local_port id status m ∙ d.0, set_status-Distinct id status m d.1)
]

-- The calls of the application, which never uses `Add`.
pub data Step (r : Registry) : Registry → Type 0 where
  added_if_free : (e : Entry) → Step r (add_if_not_present e r).0
  removed : (id : EntryId) → Step r (remove id r).0
  updated : (id : EntryId) (status : String) → Step r (update_status id status r).0
  stopped : Step r (stop_all r).0

pub data Reach : Registry → Type 0 where
  start : Reach new_registry
  then_call : {r s : Registry} → Reach r → Step r s → Reach s

Step-Distinct : {r s : Registry} → Step r s → Distinct r.entries → Distinct s.entries
unfolding add add_if_not_present remove update_status stop_all insert
Step-Distinct {r} (added_if_free e) d = elim (Bool-cases (uses_port e.local_port r.entries)) [
  | inl taken ↦ rw taken d
  | inr free ↦
      rw free (uses_port-delete e.local_port _ r.entries free, delete-Distinct _ r.entries d)
]
Step-Distinct {r} (removed id) d = delete-Distinct id r.entries d
Step-Distinct {r} (updated id status) d = set_status-Distinct id status r.entries d
Step-Distinct stopped d = tt

-- In every registry that calls other than `Add` can reach the local ports differ.
pub Reach-Distinct : {r : Registry} → Reach r → Distinct r.entries
Reach-Distinct start = tt
Reach-Distinct (then_call h s) = Step-Distinct s (Reach-Distinct h)

eq_ℤ_refl : (a : ℤ) → eq_ℤ a a ≡ true
eq_ℤ_refl a = ground arith

uses_port-add : (e : Entry) (r : Registry) → uses_port e.local_port (add e r).0.entries ≡ true
unfolding uses_port add insert
uses_port-add e r = ground (arith, eq_ℤ_refl e.local_port)

-- `AddIfNotPresent` refuses an entry exactly where `HasLocalPort` has its port; then nothing that
-- is found changes, else the entry is found under the id that it gets. Afterwards the port is in use.
pub add_if_not_present_lem :
    (e : Entry) (k : EntryId) (r : Registry)
    → let (s, id) = add_if_not_present e r in
      ((if has_local_port e.local_port r then none else some (pf (r.next_id + 1))) ≡ id)
      × (lookup k s.entries ≡ (
          if not (has_local_port e.local_port r) && same_id (pf (r.next_id + 1)) k
          then some e
          else lookup k r.entries))
      × (has_local_port e.local_port s ≡ true)
unfolding add_if_not_present add
add_if_not_present_lem e k r = elim (Bool-cases (uses_port e.local_port r.entries)) [
  | inl taken ↦ rw taken (refl, refl, taken)
  | inr free ↦ rw free (refl, lookup-insert (pf (r.next_id + 1)) k e r.entries, uses_port-add e r)
]

-- ===== src/PortForward.antt =====
-- internal/portforward/registry.go: the running port-forwards, by id. Each method holds the lock for
-- its whole change, so it is one step. The callback of a context is a token; a method returns the
-- tokens that it calls. `nextID` would need 2 ^ 63 additions to wrap.
pub mod Ids
pub mod Ports
mod Tests
use aku.Base.{
  ℕ, ◌+◌, String, Bool, true, false, ◌||◌, Option, none, some, List, [], ◌∷◌, ◌++◌, ◌==◌, ==_iff,
  ◌≡◌, ◌↔◌, if◌then◌else◌, ap, map, length, ℤ, eq_ℤ, KeyEq, Assoc, lookup, delete, insert, has,
}

-- The text `pf-%d`, which prints different numbers as different texts.
pub data EntryId : Type 0 where
  pf : ℕ → EntryId

abbrev number : EntryId → ℕ
number (pf n) = n

abbrev pub same_id : EntryId → EntryId → Bool
same_id (pf a) (pf b) = a == b

pub same_id_iff : (a b : EntryId) → (same_id a b ≡ true) ↔ (a ≡ b)
same_id_iff (pf m) (pf n) = ((λ h. ap pf ((==_iff m n).0 h)), λ e. (==_iff m n).1 (ap number e))

instance abbrev pub entry_key : KeyEq EntryId
entry_key = record { same = same_id; same_iff = same_id_iff }

pub record Entry : Type 0 where
  pub pod_name : String
  pub pod_namespace : String
  pub container_name : String
  pub local_port : ℤ
  pub remote_port : ℤ
  pub protocol : String
  pub status : String
  pub cancel : Option ℕ

-- The id that an entry holds is its key in `entries`.
pub record Registry : Type 0 where
  pub entries : Assoc EntryId Entry
  pub next_id : ℕ

abbrev pub new_registry : Registry
new_registry = record { entries = []; next_id = 0 }

unfoldable pub add : Entry → Registry → Registry × EntryId
add e r =
    let id = pf (r.next_id + 1) in
    (record { entries = insert id e r.entries; next_id = r.next_id + 1 }, id)

-- The loop over the entries for one with the port.
unfoldable pub uses_port : ℤ → Assoc EntryId Entry → Bool
uses_port port [] = false
uses_port port ((id, e) ∷ m) = eq_ℤ e.local_port port || uses_port port m

abbrev pub has_local_port : ℤ → Registry → Bool
has_local_port port r = uses_port port r.entries

-- No id stands for the error that the local port is in use.
unfoldable pub add_if_not_present : Entry → Registry → Registry × Option EntryId
unfolding add uses_port
add_if_not_present e r =
    let (added, id) = add e r in
    if uses_port e.local_port r.entries then (r, none) else (added, some id)

abbrev pub cancel_of : Option Entry → List ℕ
cancel_of none = []
cancel_of (some e) = elim e.cancel [ none ↦ [] | some c ↦ c ∷ [] ]

-- With the calls of `Cancel`.
unfoldable pub remove : EntryId → Registry → Registry × List ℕ
remove id r = (record r { entries = delete id r.entries }, cancel_of (lookup id r.entries))

abbrev pub list : Registry → List Entry
list r = map (λ (p : EntryId × Entry). p.1) r.entries

abbrev pub count : Registry → ℕ
count r = length r.entries

-- The write through the pointer in the map.
unfoldable pub set_status : EntryId → String → Assoc EntryId Entry → Assoc EntryId Entry
set_status id status [] = []
set_status id status ((j, e) ∷ m) =
    (if same_id j id then (j, record e { status = status }) else (j, e)) ∷ set_status id status m

unfoldable pub update_status : EntryId → String → Registry → Registry × Bool
update_status id status r =
    (record r { entries = set_status id status r.entries }, has id r.entries)

abbrev pub cancels : Assoc EntryId Entry → List ℕ
cancels [] = []
cancels ((id, e) ∷ m) = cancel_of (some e) ++ cancels m

unfoldable pub stop_all : Registry → Registry × List ℕ
stop_all r = (record r { entries = [] }, cancels r.entries)

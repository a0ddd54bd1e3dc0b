-- ===== src/PortForward/Tests.antt =====
-- The theorems on port-forwards at a registry of one.
use aku.Base.{◌+◌, not, ◌&&◌, insert, ◌≡◌, refl, true, none, some, lookup, if◌then◌else◌, pos}
use aku.PortForward.{
  pf, same_id, entry_key, Entry, Registry, new_registry, add, uses_port, add_if_not_present,
  has_local_port,
}
use aku.PortForward.Ports
use aku.PortForward.Ports.{Reach-Distinct, Distinct, add_if_not_present_lem}

abbrev web : Entry
web = record {
  pod_name = "web";
  pod_namespace = "default";
  container_name = "app";
  local_port = pos 8080;
  remote_port = pos 80;
  protocol = "TCP";
  status = "Starting";
  cancel = some 7;
}

abbrev one : Registry
one = (add_if_not_present web new_registry).0

Reach-Distinct_example : Distinct one.entries
Reach-Distinct_example = Reach-Distinct (Ports.then_call Ports.start (Ports.added_if_free web))

add_if_not_present_lem_example :
    let (s, id) = add_if_not_present web one in
    ((if has_local_port (pos 8080) one then none else some (pf (one.next_id + 1))) ≡ id)
    × (lookup (pf 1) s.entries ≡ (
        if not (has_local_port (pos 8080) one) && same_id (pf (one.next_id + 1)) (pf 1)
        then some web
        else lookup (pf 1) one.entries))
    × (has_local_port (pos 8080) s ≡ true)
add_if_not_present_lem_example = add_if_not_present_lem web (pf 1) one

-- The port is taken.
refused : (add_if_not_present web one).1 ≡ none
unfolding add_if_not_present add uses_port insert
refused = refl

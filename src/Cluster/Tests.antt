-- ===== src/Cluster/Tests.antt =====
-- The theorems on the manager, with clients that are the name of their context and objects that are
-- names. A dial of `down` fails.
use aku.Base.{lookup, ℕ, ◌≡◌, refl, String, none, some, [], ◌∷◌, ◌==◌, if◌then◌else◌, str_eq}
use aku.Cluster.{
  Cluster, Manager, Dialed, connected, failed, new_manager, get, is_pinned, sync_refs,
}
use aku.Cluster.Dial.{get_or_create}
use aku.Cluster.Sync.{counted, get-sync_refs}
use aku.Cluster.Inv.{Reach, start, then_call, requested, IsValid, Reach-IsValid}
use aku.Cluster.Connect.{KeepsAll, get_or_create_lem}

abbrev connect : String → String → Dialed String String
connect file ctx = if str_eq ctx "down" then failed "refused" else connected ctx

abbrev same : String → String
same ctx = ctx

abbrev fresh : Manager String String String
fresh = new_manager (record { name = "prod"; file = "work.yaml" } ∷ []) "config"

abbrev one : Manager String String String
one = (get_or_create same connect "prod" fresh).0

fresh-Reach : Reach same connect fresh
fresh-Reach = start (record { name = "prod"; file = "work.yaml" } ∷ []) "config"

one-Reach : Reach same connect one
one-Reach = then_call fresh-Reach (requested "prod")

-- One pane on `prod`.
abbrev panes : String → ℕ
panes ctx = if str_eq ctx "prod" then 1 else 0

get-sync_refs_example : get "prod" (sync_refs panes one).0 ≡ (
    if is_pinned "prod" one
    then get "prod" one
    else if panes "prod" == 0
    then none
    else counted (panes "prod") (get "prod" one))
get-sync_refs_example = get-sync_refs panes "prod" one

Reach-IsValid_example : IsValid one
Reach-IsValid_example = Reach-IsValid same connect one-Reach

-- A dial of `down` fails.
get_or_create_lem_example :
    (let (n, c) = get_or_create same connect "down" fresh in
      (n ≡ fresh) × (c.err ≡ some "refused") × (c.client ≡ none))
    × KeepsAll same connect fresh (get_or_create same connect "down" fresh).0
unfolding lookup
get_or_create_lem_example = get_or_create_lem same connect "down" fresh-Reach refl

abbrev prod : Cluster String String String
prod = (get_or_create same connect "prod" fresh).1

prod-kept : get "prod" one ≡ some prod
unfolding lookup
prod-kept = (get_or_create_lem same connect "prod" fresh-Reach refl).0.3

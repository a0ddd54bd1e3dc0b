-- ===== src/K8s/Store/Tests.antt =====
-- The theorems on the object store at stores of pods, whose objects are a name and a namespace.
use aku.Base.{◌≡◌, refl, String, true, false, some, List, [], ◌∷◌}
use aku.K8s.Store.{
  Store, new_store, is_subscribed, subscribe, unsubscribe, mark_static, cache_obj_key, on_upsert,
}
use aku.K8s.Store.Names.{WatchKey, same_key, same_gvr}
use aku.K8s.Store.Cache.{find}
use aku.K8s.Store.Teardown.{
  Call, upserted, deleted, unsubscribed, all_unsubscribed, calls, find-calls_static, late_event,
}

abbrev Pod : Type 0
Pod = String × String

abbrev pod_name : Pod → String
pod_name p = p.0

abbrev pod_namespace : Pod → String
pod_namespace p = p.1

abbrev web : Pod
web = ("web", "default")

abbrev pods : WatchKey
pods = record { gvr = record { group = ""; version = "v1"; resource = "pods" }; namespace = "" }

abbrev empty : Store Pod
empty = new_store true "prod" true

abbrev watched : Store Pod
watched = on_upsert pod_name pod_namespace true pods web (subscribe pods empty).0

-- The pod is deleted, written again, and stays when all informers stop.
abbrev rewritten : List (Call Pod)
rewritten = unsubscribed pods ∷ deleted pods web ∷ upserted pods web ∷ all_unsubscribed ∷ []

find-calls_static_example :
    find pods "default/web" (calls pod_name pod_namespace rewritten (mark_static watched))
    ≡ some web
unfolding same_key same_gvr cache_obj_key
find-calls_static_example =
    find-calls_static pod_name pod_namespace rewritten pods "default/web" watched

late_event_example :
    let late = on_upsert pod_name pod_namespace true pods web (unsubscribe pods empty) in
    let id = cache_obj_key pod_name pod_namespace web in
    (is_subscribed pods late ≡ false)
    × (find pods id late ≡ some web)
    × (find pods id (subscribe pods late).0 ≡ some web)
late_event_example = late_event pod_name pod_namespace true pods web empty refl

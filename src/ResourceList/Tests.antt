-- ===== src/ResourceList/Tests.antt =====
-- The theorems on lists of strings in a table that is its cursor.
use aku.Base.{◌≡◌, String, true, false, none, some, List, [], ◌∷◌, ℤ, pos, str_eq, if◌then◌else◌}
use aku.Search.{SearchState, search, filter, Compiled, expression}
use aku.ResourceList.State.{
  Columns, Env, Table, Plugin, Parent, nav_child, ResourceList, default_sort_state,
}
use aku.ResourceList.Show.{set_plugin, set_objects}
use aku.ResourceList.Drill.{push_nav, pop_nav}
use aku.ResourceList.Find.{apply_search}
use aku.ResourceList.Nav.{IsBack, pop_nav-push_nav}
use aku.ResourceList.Display.{Displays, started, filled, applied, Reach-Displays}

-- Objects are their names; sorting leaves the order.
abbrev names : Env String String
names = record {
  kind_of = λ _. "Pod";
  namespace_of = λ _. "default";
  name_of = λ o. o;
  timestamp_of = λ _. "";
  strip = λ s. s;
  matches = str_eq;
  to_upper = λ s. s;
  compare = λ a b. if str_eq a b then pos 0 else pos 1;
  sort_stable = λ f os. os;
}

abbrev cursor_only : Table ℤ
cursor_only = record {
  cursor = λ c. c;
  set_cursor = λ i c. i;
  set_columns_and_rows = λ cs rs c. c;
  set_rows = λ rs c. c;
}

abbrev pods : Plugin String
pods = record {
  is_cluster_scoped = false;
  columns = "NAME" ∷ [];
  row = λ o. o ∷ [];
  sort_value = none;
  default_sort = none;
}

abbrev containers : Plugin String
containers = record (pods) { columns = "NAME" ∷ "IMAGE" ∷ []; row = λ o. o ∷ "nginx" ∷ [] }

abbrev no_search : SearchState String
no_search = record { pattern = ""; mode = search; re = none; match_count = 0; current_idx = 0 }

abbrev two_pods : ResourceList String String ℤ
two_pods = record {
  plugin = pods;
  table = pos 1;
  all_objects = "api" ∷ "web" ∷ [];
  display_objects = "api" ∷ "web" ∷ [];
  filter_state = no_search;
  search_state = no_search;
  sort_state = default_sort_state;
  namespace = "default";
  context = "dev";
  nav_stack = [];
  nav_floor = pos 0;
  cached_columns = none;
  cached_row_count = 0;
}

abbrev web : Parent
web = record { name = "web"; uid = "7"; api_version = "v1"; kind = "Pod" }

abbrev two_containers : List String
two_containers = "main" ∷ "sidecar" ∷ []

pop_nav-push_nav_example :
    let (back, ok) =
      pop_nav names cursor_only
        (push_nav names cursor_only containers two_containers web nav_child two_pods) in
    (ok ≡ true) × IsBack names two_pods back
pop_nav-push_nav_example =
    pop_nav-push_nav names cursor_only containers two_containers web nav_child two_pods

abbrev regexp : String → Compiled String String
regexp text = expression text

Reach-Displays_example :
    Displays names cursor_only
      (apply_search names cursor_only regexp "web" filter (
        set_objects names cursor_only
          ("api" ∷ "web" ∷ [])
          (set_plugin names cursor_only pods two_pods))).0
Reach-Displays_example =
    Reach-Displays names cursor_only regexp
      (applied "web" filter (filled ("api" ∷ "web" ∷ []) (started pods two_pods)))

abbrev name_columns : Columns
name_columns = record {
  titles = "NAME" ∷ [];
  sort_state = default_sort_state;
  rows = ("api" ∷ []) ∷ ("web" ∷ []) ∷ [];
}

abbrev sorted_pods : ResourceList String String ℤ
sorted_pods = record (two_pods) { cached_columns = some name_columns; cached_row_count = 2 }

-- ===== src/ResourceList/Drill.antt =====
-- internal/ui/resourcelist.go and navstack.go: the views that drilling down leaves.
use aku.Base.{
  Bool, true, false, Option, none, some, List, [], ◌∷◌, length, str_eq, if◌then◌else◌, pos, ltb_ℤ,
}
use aku.Search
use aku.Search.{SearchState, SearchMode, search, filter, Compiled, active}
use aku.ResourceList.State.{Plugin, Env, Table, NavDirection, Parent, NavSnapshot, ResourceList}
use aku.ResourceList.Show.{rebuild_display, move_to, set_objects, empty_table, set_plugin}

module _ {Obj Re T : Type 0} (env : Env Obj Re) (table : Table T) where
  abbrev pub reset_nav : ResourceList Obj Re T → ResourceList Obj Re T
  reset_nav r = record r { nav_stack = []; nav_floor = pos 0 }

  -- The oldest frame, at which `Pop` ends.
  abbrev pub root_frame : List (NavSnapshot Obj Re) → Option (NavSnapshot Obj Re)
  root_frame [] = none
  root_frame (f ∷ []) = some f
  root_frame (f ∷ g ∷ fs) = root_frame (g ∷ fs)

  abbrev pub rewound : Option (NavSnapshot Obj Re) → ResourceList Obj Re T → ResourceList Obj Re T
  rewound none r = record r { table = table.set_rows [] r.table }
  rewound (some f) r = empty_table env table (record r {
    plugin = f.plugin;
    namespace = f.namespace;
    context = if str_eq f.context "" then r.context else f.context;
    sort_state = f.sort_state;
  })

  unfoldable pub reset_for_reload : ResourceList Obj Re T → ResourceList Obj Re T
  reset_for_reload r = record (rewound (root_frame r.nav_stack) (record r { nav_stack = [] })) {
    filter_state = Search.clear r.filter_state;
    search_state = Search.clear r.search_state;
    nav_floor = pos 0;
    all_objects = [];
    display_objects = [];
  }

  abbrev pub snapshot : Parent → NavDirection → ResourceList Obj Re T → NavSnapshot Obj Re
  snapshot parent direction r = record {
    plugin = r.plugin;
    namespace = r.namespace;
    context = r.context;
    objects = r.all_objects;
    cursor = table.cursor r.table;
    sort_state = r.sort_state;
    filter_state = r.filter_state;
    search_state = r.search_state;
    parent = parent;
    direction = direction;
  }

  unfoldable pub push_nav :
      Plugin Obj → List Obj → Parent → NavDirection → ResourceList Obj Re T → ResourceList Obj Re T
  unfolding set_plugin set_objects
  push_nav child children parent direction r = set_objects env table children (
      set_plugin env table child
        (record r { nav_stack = snapshot parent direction r ∷ r.nav_stack }))

  -- `PopNav` with a frame.
  abbrev pub restore : NavSnapshot Obj Re → ResourceList Obj Re T → ResourceList Obj Re T
  restore frame r = empty_table env table (record r {
    plugin = frame.plugin;
    namespace = frame.namespace;
    context = frame.context;
    sort_state = frame.sort_state;
    filter_state = frame.filter_state;
    search_state = frame.search_state;
    all_objects = frame.objects;
  })

  -- The frame's view, before the cursor is put back.
  abbrev pub shown_again :
      NavSnapshot Obj Re → List (NavSnapshot Obj Re) → ResourceList Obj Re T → ResourceList Obj Re T
  shown_again frame frames r =
      rebuild_display env table (restore frame (record r { nav_stack = frames }))

  abbrev pub popped :
      List (NavSnapshot Obj Re) → ResourceList Obj Re T → ResourceList Obj Re T × Bool
  popped [] r = (r, false)
  popped (frame ∷ frames) r =
      let shown = shown_again frame frames r in
      (
        (if ltb_ℤ frame.cursor (pos (length shown.display_objects))
            then move_to env table frame.cursor shown
            else shown),
        true,
      )

  unfoldable pub pop_nav : ResourceList Obj Re T → ResourceList Obj Re T × Bool
  unfolding rebuild_display
  pop_nav r = popped r.nav_stack r

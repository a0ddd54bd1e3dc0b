-- ===== src/ResourceList/Show.antt =====
-- internal/ui/resourcelist.go: the objects, the cursor, the sort order and the plugin.
use aku.Base.{
  ℕ, suc, ◌-◌, ◌==◌, String, Bool, true, false, ◌&&◌, Option, none, some, List, [], ◌∷◌, map,
  length, ltb, str_eq, str_append, if◌then◌else◌, get_elem?, ℤ, pos, negsuc, leb_ℤ,
}
use aku.Search
use aku.Search.{SearchState, SearchMode, search, filter, Compiled, active}
use aku.ResourceList.State.{
  Plugin, Env, Columns, Table, ResourceList, toggle, sort_state_for, cached_or, sort_objects,
  effective_columns, effective_row, keep_matching,
}

module _ {Obj Re T : Type 0} (env : Env Obj Re) (table : Table T) where
  abbrev pub current_columns : ResourceList Obj Re T → List (List String) → Columns
  current_columns r rows = record {
    titles = effective_columns env r.plugin r.namespace;
    sort_state = r.sort_state;
    rows = rows;
  }

  abbrev pub is_cached : ResourceList Obj Re T → List (List String) → Bool
  is_cached r rows =
      length rows == r.cached_row_count && elim r.cached_columns [ none ↦ false | some _ ↦ true ]

  -- The columns that `renderRows` gives the table.
  abbrev pub rendered_columns : ResourceList Obj Re T → List (List String) → Columns
  rendered_columns r rows =
      if is_cached r rows
      then cached_or r.cached_columns (current_columns r rows)
      else current_columns r rows

  unfoldable pub render_rows : ResourceList Obj Re T → ResourceList Obj Re T
  render_rows r =
      let rows = map (effective_row env r.plugin r.namespace) r.display_objects in
      let columns = rendered_columns r rows in
      record r {
        table = table.set_columns_and_rows columns rows r.table;
        cached_columns = some columns;
        cached_row_count = length rows;
      }

  -- `rebuildDisplay`.
  unfoldable pub rebuild_display : ResourceList Obj Re T → ResourceList Obj Re T
  unfolding render_rows
  rebuild_display r = render_rows (record r {
    display_objects = keep_matching env r.plugin r.namespace r.filter_state.re r.all_objects;
  })

  -- `len(displayObjects) > 0`, and the cursor in range.
  abbrev pub object_at : ℤ → List Obj → Option Obj
  object_at (pos i) objs = get_elem? objs i
  object_at (negsuc i) objs = none

  abbrev pub selected_object : ResourceList Obj Re T → Option Obj
  selected_object r = object_at (table.cursor r.table) r.display_objects

  abbrev pub object_key : String → Obj → String
  object_key namespace o = str_append (env.kind_of o) (
      str_append "/" (
        if str_eq namespace ""
        then str_append (env.namespace_of o) (str_append "/" (env.name_of o))
        else env.name_of o))

  abbrev pub index_of : String → String → ℕ → List Obj → Option ℕ
  index_of namespace key i [] = none
  index_of namespace key i (o ∷ objs) =
      let rest = index_of namespace key (suc i) objs in
      if str_eq (object_key namespace o) key then some i else rest

  abbrev pub index_of_object : String → Option Obj → List Obj → Option ℕ
  index_of_object namespace none objs = none
  index_of_object namespace (some o) objs = index_of namespace (object_key namespace o) 0 objs

  abbrev pub move_to : ℤ → ResourceList Obj Re T → ResourceList Obj Re T
  move_to i r = record r { table = table.set_cursor i r.table }

  -- The cursor, brought back before the end.
  abbrev pub valid_cursor : ResourceList Obj Re T → ℤ
  valid_cursor r =
      let n = length r.display_objects in
      if leb_ℤ (pos n) (table.cursor r.table) then pos (n - 1) else table.cursor r.table

  abbrev pub restore_cursor : Option ℕ → ResourceList Obj Re T → ResourceList Obj Re T
  restore_cursor (some i) r = move_to (pos i) r
  restore_cursor none r = if ltb 0 (length r.display_objects) then move_to (valid_cursor r) r else r

  -- The sorted objects, before the cursor is put back.
  abbrev pub shown_with : List Obj → ResourceList Obj Re T → ResourceList Obj Re T
  shown_with objs r =
      rebuild_display (record r { all_objects = sort_objects env objs r.sort_state r.plugin })

  abbrev pub former_index : List Obj → ResourceList Obj Re T → Option ℕ
  former_index objs r =
      index_of_object r.namespace (selected_object r) (shown_with objs r).display_objects

  unfoldable pub set_objects : List Obj → ResourceList Obj Re T → ResourceList Obj Re T
  unfolding rebuild_display sort_objects
  set_objects objs r = restore_cursor (former_index objs r) (shown_with objs r)

  unfoldable pub set_sort : String → ResourceList Obj Re T → ResourceList Obj Re T
  unfolding set_objects toggle
  set_sort column r =
      set_objects r.all_objects (record r { sort_state = toggle r.sort_state column })

  abbrev pub empty_table : ResourceList Obj Re T → ResourceList Obj Re T
  empty_table r = record r { table = table.set_columns_and_rows (current_columns r []) [] r.table }

  unfoldable pub set_plugin : Plugin Obj → ResourceList Obj Re T → ResourceList Obj Re T
  set_plugin p r = empty_table (record r {
    plugin = p;
    sort_state = sort_state_for p;
    filter_state = Search.clear r.filter_state;
    search_state = Search.clear r.search_state;
    all_objects = [];
    display_objects = [];
    cached_columns = none;
    cached_row_count = 0;
  })

-- ===== src/ResourceList/Display.antt =====
-- The displayed objects are those of the list that the filter keeps.
use aku.Base.{
  ℕ, ◌≡◌, refl, String, Option, none, some, List, [], ◌∷◌, length, ltb, ltb_ℤ, ℤ, pos, if-cases,
}
use aku.Search
use aku.Search.{SearchState, SearchMode, search, filter, Compiled}
use aku.ResourceList.State.{
  Env, Table, Plugin, Parent, NavDirection, NavSnapshot, ResourceList, keep_matching, toggle,
  sort_objects,
}
use aku.ResourceList.Show.{
  rebuild_display, render_rows, set_objects, shown_with, former_index, restore_cursor, move_to,
  valid_cursor, set_sort, set_plugin,
}
use aku.ResourceList.Drill.{
  reset_nav, reset_for_reload, push_nav, pop_nav, popped, shown_again, snapshot, restore,
}
use aku.ResourceList.Find.{
  clear_search, clear_filter, search_next, search_prev, apply_search, with_filter, with_search,
  to_first, to_match, matching_row_indices,
}

module _ {Obj Re T : Type 0} (env : Env Obj Re) (table : Table T) where
  abbrev pub Displays : ResourceList Obj Re T → Type 0
  Displays r =
      r.display_objects ≡ keep_matching env r.plugin r.namespace r.filter_state.re r.all_objects

  rebuild-Displays : (r : ResourceList Obj Re T) → Displays (rebuild_display env table r)
  unfolding rebuild_display render_rows
  rebuild-Displays r = refl

  restore_cursor-Displays :
      (o : Option ℕ) (r : ResourceList Obj Re T)
      → Displays r
      → Displays (restore_cursor env table o r)
  restore_cursor-Displays none r h =
      if-cases Displays (ltb 0 (length r.display_objects))
        (move_to env table (valid_cursor env table r) r) r (λ _. h) (λ _. h)
  restore_cursor-Displays (some i) r h = h

  set_objects-Displays :
      (objs : List Obj) (r : ResourceList Obj Re T) → Displays (set_objects env table objs r)
  unfolding set_objects
  set_objects-Displays objs r =
      restore_cursor-Displays (former_index env table objs r) (shown_with env table objs r)
        (rebuild-Displays (record r { all_objects = sort_objects env objs r.sort_state r.plugin }))

  set_plugin-Displays :
      (p : Plugin Obj) (r : ResourceList Obj Re T) → Displays (set_plugin env table p r)
  unfolding set_plugin aku.Search.clear
  set_plugin-Displays p r = refl

  popped-Displays :
      (fs : List (NavSnapshot Obj Re)) (r : ResourceList Obj Re T)
      → Displays r
      → Displays (popped env table fs r).0
  popped-Displays [] r h = h
  popped-Displays (f ∷ fs) r h =
      let shown = shown_again env table f fs r in
      if-cases Displays (ltb_ℤ f.cursor (pos (length shown.display_objects)))
        (move_to env table f.cursor shown) shown
        (λ _. rebuild-Displays (restore env table f (record r { nav_stack = fs })))
        (λ _. rebuild-Displays (restore env table f (record r { nav_stack = fs })))

  to_match-Displays :
      (is : List ℕ) (a b : Option (ℕ × ℕ)) (r : ResourceList Obj Re T)
      → Displays r
      → Displays (to_match env table is a b r)
  to_match-Displays is (some m) b r h = h
  to_match-Displays is none (some m) r h = h
  to_match-Displays is none none r h = h

  module _ {Err : Type 0} (regexp : String → Compiled Re Err) where
    with_filter-Displays :
        (r : ResourceList Obj Re T) (s : SearchState Re × Option Err)
        → Displays r
        → Displays (with_filter env table regexp r s).0
    with_filter-Displays r (s, some e) h = h
    with_filter-Displays r (s, none) h = rebuild-Displays (record r { filter_state = s })

    with_search-Displays :
        (r : ResourceList Obj Re T) (s : SearchState Re × Option Err)
        → Displays r
        → Displays (with_search env table regexp r s).0
    with_search-Displays r (s, some e) h = h
    with_search-Displays r (s, none) h =
        let found = record r { search_state = s } in
        let is = matching_row_indices env table found in
        rebuild-Displays (to_first env table is found)

    -- The lists that calls give from one whose plugin has just been set; `SetNamespace` is no such call.
    pub data Reach : ResourceList Obj Re T → Type 0 where
      started : (p : Plugin Obj) (r : ResourceList Obj Re T) → Reach (set_plugin env table p r)
      filled :
          (objs : List Obj) {r : ResourceList Obj Re T}
          → Reach r
          → Reach (set_objects env table objs r)
      sorted :
          (column : String) {r : ResourceList Obj Re T}
          → Reach r
          → Reach (set_sort env table column r)
      replaced :
          (p : Plugin Obj) {r : ResourceList Obj Re T} → Reach r → Reach (set_plugin env table p r)
      nav_reset : {r : ResourceList Obj Re T} → Reach r → Reach (reset_nav env table r)
      reloaded : {r : ResourceList Obj Re T} → Reach r → Reach (reset_for_reload env table r)
      pushed :
          (child : Plugin Obj) (children : List Obj) (parent : Parent) (direction : NavDirection)
          {r : ResourceList Obj Re T}
          → Reach r
          → Reach (push_nav env table child children parent direction r)
      went_back : {r : ResourceList Obj Re T} → Reach r → Reach (pop_nav env table r).0
      moved : (i : ℤ) {r : ResourceList Obj Re T} → Reach r → Reach (move_to env table i r)
      applied :
          (pattern : String) (mode : SearchMode) {r : ResourceList Obj Re T}
          → Reach r
          → Reach (apply_search env table regexp pattern mode r).0
      search_cleared : {r : ResourceList Obj Re T} → Reach r → Reach (clear_search env table r)
      filter_cleared : {r : ResourceList Obj Re T} → Reach r → Reach (clear_filter env table r)
      next_found : {r : ResourceList Obj Re T} → Reach r → Reach (search_next env table r)
      prev_found : {r : ResourceList Obj Re T} → Reach r → Reach (search_prev env table r)

    -- In every list that calls other than SetNamespace can reach, the displayed objects are those of
    -- all objects that the filter keeps, in order, and all of them without a filter.
    pub Reach-Displays : {r : ResourceList Obj Re T} → Reach r → Displays r
    unfolding reset_for_reload aku.Search.clear set_sort push_nav pop_nav clear_search clear_filter
        search_next search_prev apply_search
    Reach-Displays (started p r) = set_plugin-Displays p r
    Reach-Displays (filled objs {r} h) = set_objects-Displays objs r
    Reach-Displays (sorted column {r} h) =
        set_objects-Displays r.all_objects (record r { sort_state = toggle r.sort_state column })
    Reach-Displays (replaced p {r} h) = set_plugin-Displays p r
    Reach-Displays (nav_reset h) = Reach-Displays h
    Reach-Displays (reloaded h) = refl
    Reach-Displays (pushed child children parent direction {r} h) = set_objects-Displays children (
        set_plugin env table child
          (record r { nav_stack = snapshot env table parent direction r ∷ r.nav_stack }))
    Reach-Displays (went_back {r} h) = popped-Displays r.nav_stack r (Reach-Displays h)
    Reach-Displays (moved i h) = Reach-Displays h
    Reach-Displays (applied pattern search {r} h) =
        with_search-Displays r (Search.compile regexp pattern search r.search_state)
          (Reach-Displays h)
    Reach-Displays (applied pattern filter {r} h) =
        with_filter-Displays r (Search.compile regexp pattern filter r.filter_state)
          (Reach-Displays h)
    Reach-Displays (search_cleared {r} h) =
        rebuild-Displays (record r { search_state = Search.clear r.search_state })
    Reach-Displays (filter_cleared {r} h) =
        rebuild-Displays (record r { filter_state = Search.clear r.filter_state })
    Reach-Displays (next_found {r} h) =
        to_match-Displays (matching_row_indices env table r) _ _ r (Reach-Displays h)
    Reach-Displays (prev_found {r} h) =
        to_match-Displays (matching_row_indices env table r) _ _ r (Reach-Displays h)

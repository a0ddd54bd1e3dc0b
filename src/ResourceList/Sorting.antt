-- ===== src/ResourceList/Sorting.antt =====
-- The columns of a list that is sorted again.
use aku.Base.{
  ◌≡◌, refl, sym, ℤ, ◌∙◌, ap, String, true, none, some, List, map, length, ◌==◌, ==_iff, if-cases,
  length-map, str_eq,
}
use aku.ResourceList.State.{
  Env, Table, ResourceList, Columns, toggle, sort_objects, effective_row, keep_matching, SortState,
  compare_objects,
}
use aku.ResourceList.Show.{
  set_sort, set_objects, shown_with, former_index, rebuild_display, render_rows,
}
use aku.ResourceList.Nav.{restored-cached}

module _ {Obj Re T : Type 0} (env : Env Obj Re) (table : Table T)
    (sort-length : (f : Obj → Obj → ℤ) (objs : List Obj)
      → length (env.sort_stable f objs) ≡ length objs) where
  length-sort_objects :
      (objs : List Obj) (r : ResourceList Obj Re T) (s : SortState)
      → length (sort_objects env objs s r.plugin) ≡ length objs
  unfolding sort_objects
  length-sort_objects objs r s =
      if-cases (λ (xs : List Obj). length xs ≡ length objs) (str_eq s.column "") objs
        (env.sort_stable (compare_objects env s r.plugin) objs) (λ _. refl)
        (λ _. sort-length (compare_objects env s r.plugin) objs)

  -- Where no filter hides objects and the table's columns were computed for as many rows as there
  -- are objects, a new sort order leaves those columns, if sorting keeps the length.
  pub set_sort-stale :
      (column : String) (r : ResourceList Obj Re T) (c : Columns)
      → r.filter_state.re ≡ none
      → r.cached_columns ≡ some c
      → r.cached_row_count ≡ length r.all_objects
      → (set_sort env table column r).cached_columns ≡ some c
  unfolding set_sort set_objects rebuild_display render_rows
  set_sort-stale column r c unfiltered e n =
      let s = record r { sort_state = toggle r.sort_state column } in
      let sorted = sort_objects env r.all_objects s.sort_state s.plugin in
      let kept = keep_matching env r.plugin r.namespace r.filter_state.re sorted in
      let count : length (map (effective_row env r.plugin r.namespace) kept) ≡ r.cached_row_count =
        length-map _ _
        ∙ ap (λ re. length (keep_matching env r.plugin r.namespace re sorted)) unfiltered
        ∙ length-sort_objects r.all_objects s s.sort_state
        ∙ sym n in
      let hit : length (map (effective_row env r.plugin r.namespace) kept) == r.cached_row_count
          ≡ true =
        (==_iff _ _).1 count in
      let shown : (shown_with env table r.all_objects s).cached_columns ≡ some c =
        rw hit (rw e refl) in
      (restored-cached env table (former_index env table r.all_objects s)
        (shown_with env table r.all_objects s)).0
      ∙ shown

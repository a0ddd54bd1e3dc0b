-- ===== src/ResourceList/Nav.antt =====
-- Drilling down and back.
use aku.Base.{
  length-map, ℕ, ◌≡◌, refl, sym, ◌∙◌, subst, true, Option, none, some, List, ◌∷◌, map, length,
  ltb_ℤ, ltb, ◌==◌, ==_iff, pos, if-cases,
}
use aku.ResourceList.State.{
  Env, Table, Plugin, Parent, NavDirection, NavSnapshot, ResourceList, sort_objects, keep_matching,
  Columns, effective_columns, effective_row, sort_state_for,
}
use aku.ResourceList.Show.{
  restore_cursor, rebuild_display, shown_with, former_index, render_rows, set_objects, set_plugin,
  move_to,
}
use aku.ResourceList.Drill.{snapshot, push_nav, pop_nav, popped, shown_again}

-- The second list shows again what the first has: its objects as its filter keeps them.
pub record IsBack {Obj Re T : Type 0} (env : Env Obj Re) (was back : ResourceList Obj Re T)
    : Type 0 where
  pub same_plugin : back.plugin ≡ was.plugin
  pub same_namespace : back.namespace ≡ was.namespace
  pub same_context : back.context ≡ was.context
  pub same_objects : back.all_objects ≡ was.all_objects
  pub same_sort : back.sort_state ≡ was.sort_state
  pub same_filter : back.filter_state ≡ was.filter_state
  pub same_search : back.search_state ≡ was.search_state
  pub displayed :
      back.display_objects
      ≡ keep_matching env was.plugin was.namespace was.filter_state.re was.all_objects
  pub same_stack : back.nav_stack ≡ was.nav_stack

module _ {Obj Re T : Type 0} (env : Env Obj Re) (table : Table T) where
  popped-IsBack :
      (parent : Parent) (direction : NavDirection) (was r : ResourceList Obj Re T)
      → IsBack env was
          (popped env table (snapshot env table parent direction was ∷ was.nav_stack) r).0
  unfolding rebuild_display render_rows
  popped-IsBack parent direction was r =
      let f = snapshot env table parent direction was in
      let shown = shown_again env table f was.nav_stack r in
      if-cases (IsBack env was) (ltb_ℤ f.cursor (pos (length shown.display_objects)))
        (move_to env table f.cursor shown) shown
        (λ _. record {
          same_plugin = refl;
          same_namespace = refl;
          same_context = refl;
          same_objects = refl;
          same_sort = refl;
          same_filter = refl;
          same_search = refl;
          displayed = refl;
          same_stack = refl;
        })
        (λ _. record {
          same_plugin = refl;
          same_namespace = refl;
          same_context = refl;
          same_objects = refl;
          same_sort = refl;
          same_filter = refl;
          same_search = refl;
          displayed = refl;
          same_stack = refl;
        })

  restored-nav_stack :
      (o : Option ℕ) (r : ResourceList Obj Re T)
      → (restore_cursor env table o r).nav_stack ≡ r.nav_stack
  restored-nav_stack none r =
      if-cases (λ (x : ResourceList Obj Re T). x.nav_stack ≡ r.nav_stack)
        (ltb 0 (length r.display_objects)) _ r (λ _. refl) (λ _. refl)
  restored-nav_stack (some i) r = refl

  set_objects-nav_stack :
      (objs : List Obj) (r : ResourceList Obj Re T)
      → (set_objects env table objs r).nav_stack ≡ r.nav_stack
  unfolding set_objects rebuild_display render_rows
  set_objects-nav_stack objs r =
      restored-nav_stack (former_index env table objs r) (shown_with env table objs r)

  push_nav-nav_stack :
      (child : Plugin Obj) (children : List Obj) (parent : Parent) (direction : NavDirection)
      (r : ResourceList Obj Re T)
      → (push_nav env table child children parent direction r).nav_stack
        ≡ snapshot env table parent direction r ∷ r.nav_stack
  unfolding push_nav set_plugin
  push_nav-nav_stack child children parent direction r = set_objects-nav_stack children (
      set_plugin env table child
        (record r { nav_stack = snapshot env table parent direction r ∷ r.nav_stack }))

  -- Drilling down and back gives the view that was left: its plugin, namespace, context, objects,
  -- sort order, filter, search and nav stack; the objects that the filter keeps are displayed.
  pub pop_nav-push_nav :
      (child : Plugin Obj) (children : List Obj) (parent : Parent) (direction : NavDirection)
      (r : ResourceList Obj Re T)
      → let (back, ok) = pop_nav env table (push_nav env table child children parent direction r) in
        (ok ≡ true) × IsBack env r back
  unfolding pop_nav
  pop_nav-push_nav child children parent direction r =
      let below = push_nav env table child children parent direction r in
      subst (λ frames. let p = popped env table frames below in (p.1 ≡ true) × IsBack env r p.0)
        (sym (push_nav-nav_stack child children parent direction r))
        (refl, popped-IsBack parent direction r below)

  -- The columns of the child's rows.
  abbrev pub child_columns : Plugin Obj → List Obj → ResourceList Obj Re T → Columns
  child_columns child children r = record {
    titles = effective_columns env child r.namespace;
    sort_state = sort_state_for child;
    rows =
        map (effective_row env child r.namespace)
          (sort_objects env children (sort_state_for child) child);
  }

  pub restored-cached :
      (o : Option ℕ) (r : ResourceList Obj Re T)
      → ((restore_cursor env table o r).cached_columns ≡ r.cached_columns)
        × ((restore_cursor env table o r).cached_row_count ≡ r.cached_row_count)
  restored-cached none r =
      if-cases
        (λ (x : ResourceList Obj Re T).
          (x.cached_columns ≡ r.cached_columns) × (x.cached_row_count ≡ r.cached_row_count))
        (ltb 0 (length r.display_objects)) _ r (λ _. (refl, refl)) (λ _. (refl, refl))
  restored-cached (some i) r = (refl, refl)

  push_nav-cached :
      (child : Plugin Obj) (children : List Obj) (parent : Parent) (direction : NavDirection)
      (r : ResourceList Obj Re T)
      → let below = push_nav env table child children parent direction r in
        (below.cached_columns ≡ some (child_columns child children r))
        × (below.cached_row_count ≡ length (child_columns child children r).rows)
  unfolding push_nav set_plugin set_objects rebuild_display render_rows aku.Search.clear
  push_nav-cached child children parent direction r =
      let start =
        set_plugin env table child
          (record r { nav_stack = snapshot env table parent direction r ∷ r.nav_stack }) in
      let k =
        restored-cached (former_index env table children start)
          (shown_with env table children start) in
      (
        k.0
            ∙ if-cases (λ c. some c ≡ some (child_columns child children r)) _ _ _ (λ _. refl)
                (λ _. refl),
        k.1,
      )

  popped-cached :
      (f : NavSnapshot Obj Re) (frames : List (NavSnapshot Obj Re)) (r : ResourceList Obj Re T)
      (c : Columns)
      → r.cached_columns ≡ some c
      → r.cached_row_count
        ≡ length (keep_matching env f.plugin f.namespace f.filter_state.re f.objects)
      → (popped env table (f ∷ frames) r).0.cached_columns ≡ some c
  unfolding rebuild_display render_rows
  popped-cached f frames r c e n =
      let shown = shown_again env table f frames r in
      let rows =
        map (effective_row env f.plugin f.namespace)
          (keep_matching env f.plugin f.namespace f.filter_state.re f.objects) in
      let hit : length rows == r.cached_row_count ≡ true =
        (==_iff _ _).1 (length-map _ _ ∙ sym n) in
      let kept : shown.cached_columns ≡ some c = rw hit (rw e refl) in
      if-cases (λ (x : ResourceList Obj Re T). x.cached_columns ≡ some c)
        (ltb_ℤ f.cursor (pos (length shown.display_objects))) (move_to env table f.cursor shown)
        shown (λ _. kept) (λ _. kept)

  -- Where the view that was left displays as many objects as the child did, the table has, after
  -- drilling down and back, the columns of the child with the rows of that view.
  pub pop_nav-stale :
      (child : Plugin Obj) (children : List Obj) (parent : Parent) (direction : NavDirection)
      (r : ResourceList Obj Re T)
      → length (keep_matching env r.plugin r.namespace r.filter_state.re r.all_objects)
        ≡ length (child_columns child children r).rows
      → (pop_nav env table (push_nav env table child children parent direction r)).0.cached_columns
        ≡ some (child_columns child children r)
  unfolding pop_nav
  pop_nav-stale child children parent direction r n =
      let below = push_nav env table child children parent direction r in
      let k = push_nav-cached child children parent direction r in
      subst
        (λ frames.
          (popped env table frames below).0.cached_columns ≡ some (child_columns child children r))
        (sym (push_nav-nav_stack child children parent direction r))
        (popped-cached (snapshot env table parent direction r) r.nav_stack below
          (child_columns child children r) k.0 (k.1 ∙ sym n))

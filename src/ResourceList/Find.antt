-- ===== src/ResourceList/Find.antt =====
-- internal/ui/resourcelist.go: search and filter.
use aku.Base.{
  ℕ, suc, String, Option, none, some, List, [], ◌∷◌, map, length, if◌then◌else◌, ℤ, pos, ltb_ℤ,
}
use aku.Search
use aku.Search.{SearchState, SearchMode, search, filter, Compiled, active}
use aku.ResourceList.State.{Env, Table, ResourceList, row_matches_regex, effective_row}
use aku.ResourceList.Show.{rebuild_display}

module _ {Obj Re T : Type 0} (env : Env Obj Re) (table : Table T) where
  unfoldable pub clear_search : ResourceList Obj Re T → ResourceList Obj Re T
  unfolding rebuild_display
  clear_search r =
      rebuild_display env table (record r { search_state = Search.clear r.search_state })

  unfoldable pub clear_filter : ResourceList Obj Re T → ResourceList Obj Re T
  unfolding rebuild_display
  clear_filter r =
      rebuild_display env table (record r { filter_state = Search.clear r.filter_state })

  abbrev pub matching_from : Option Re → ℕ → List (List String) → List ℕ
  matching_from none i rows = []
  matching_from (some re) i [] = []
  matching_from (some re) i (row ∷ rows) =
      let rest = matching_from (some re) (suc i) rows in
      if row_matches_regex env row re then i ∷ rest else rest

  abbrev pub matching_row_indices : ResourceList Obj Re T → List ℕ
  matching_row_indices r =
      matching_from r.search_state.re 0
        (map (effective_row env r.plugin r.namespace) r.display_objects)

  -- The match at index `i` of so many, which is at row `row`.
  abbrev pub at_match : ℕ → ℕ → ℕ → ResourceList Obj Re T → ResourceList Obj Re T
  at_match i count row r = record r {
    table = table.set_cursor (pos row) r.table;
    search_state = record (r.search_state) { current_idx = i; match_count = count };
  }

  abbrev pub to_first : List ℕ → ResourceList Obj Re T → ResourceList Obj Re T
  to_first [] r = r
  to_first (i ∷ is) r = at_match 0 (suc (length is)) i r

  -- The first match behind the cursor, with its index, and the last one before it.
  abbrev pub match_behind : ℤ → ℕ → List ℕ → Option (ℕ × ℕ)
  match_behind cursor k [] = none
  match_behind cursor k (i ∷ is) =
      let rest = match_behind cursor (suc k) is in
      if ltb_ℤ cursor (pos i) then some (k, i) else rest

  abbrev pub match_before : ℤ → ℕ → List ℕ → Option (ℕ × ℕ)
  match_before cursor k [] = none
  match_before cursor k (i ∷ is) = elim (match_before cursor (suc k) is) [
    | none ↦ if ltb_ℤ (pos i) cursor then some (k, i) else none
    | some m ↦ some m
  ]

  abbrev pub last_match : ℕ → List ℕ → Option (ℕ × ℕ)
  last_match k [] = none
  last_match k (i ∷ []) = some (k, i)
  last_match k (i ∷ j ∷ is) = last_match (suc k) (j ∷ is)

  abbrev pub to_match :
      List ℕ → Option (ℕ × ℕ) → Option (ℕ × ℕ) → ResourceList Obj Re T → ResourceList Obj Re T
  to_match is (some (k, i)) wrapped r = at_match k (length is) i r
  to_match is none (some (k, i)) r = at_match k (length is) i r
  to_match is none none r = r

  abbrev pub first_match : List ℕ → Option (ℕ × ℕ)
  first_match [] = none
  first_match (i ∷ is) = some (0, i)

  unfoldable pub search_next : ResourceList Obj Re T → ResourceList Obj Re T
  search_next r =
      let is = matching_row_indices r in
      to_match is (match_behind (table.cursor r.table) 0 is) (first_match is) r

  unfoldable pub search_prev : ResourceList Obj Re T → ResourceList Obj Re T
  search_prev r =
      let is = matching_row_indices r in
      to_match is (match_before (table.cursor r.table) 0 is) (last_match 0 is) r

  module _ {Err : Type 0} (regexp : String → Compiled Re Err) where
    abbrev pub with_filter :
        ResourceList Obj Re T → SearchState Re × Option Err → ResourceList Obj Re T × Option Err
    with_filter r (s, some e) = (r, some e)
    with_filter r (s, none) = (rebuild_display env table (record r { filter_state = s }), none)

    abbrev pub with_search :
        ResourceList Obj Re T → SearchState Re × Option Err → ResourceList Obj Re T × Option Err
    with_search r (s, some e) = (r, some e)
    with_search r (s, none) =
        let found = record r { search_state = s } in
        (rebuild_display env table (to_first (matching_row_indices found) found), none)

    unfoldable pub apply_search :
        String → SearchMode → ResourceList Obj Re T → ResourceList Obj Re T × Option Err
    unfolding rebuild_display
    apply_search pattern search r =
        with_search r (Search.compile regexp pattern search r.search_state)
    apply_search pattern filter r =
        with_filter r (Search.compile regexp pattern filter r.filter_state)

-- ===== src/ResourceList/State.antt =====
-- The records of internal/ui/resourcelist.go and navstack.go, internal/ui/sort.go, and the rows and
-- columns of an object.
use aku.Base.{
  ℕ, zero, suc, String, Bool, true, false, not, ◌||◌, Option, none, some, List, [], ◌∷◌, str_eq,
  if◌then◌else◌, ℤ, pos, negsuc,
}
use aku.Search.{SearchState}

pub record SortState : Type 0 where
  pub column : String
  pub ascending : Bool

-- What the list uses of a `plugin.ResourcePlugin`; the last two are of the optional interfaces
-- `Sortable` and `DefaultSorter`.
pub record Plugin (Obj : Type 0) : Type 0 where
  pub is_cluster_scoped : Bool
  pub columns : List String
  pub row : Obj → List String
  pub sort_value : Option (Obj → String → String)
  pub default_sort : Option SortState

-- Objects, and what is used of Go: `ansi.Strip`, `MatchString`, `ToUpper`, `cmp.Compare` and
-- `slices.SortStableFunc`. The timestamp is formatted, and empty if it is zero.
pub record Env (Obj Re : Type 0) : Type 0 where
  pub kind_of : Obj → String
  pub namespace_of : Obj → String
  pub name_of : Obj → String
  pub timestamp_of : Obj → String
  pub strip : String → String
  pub matches : Re → String → Bool
  pub to_upper : String → String
  pub compare : String → String → ℤ
  pub sort_stable : (Obj → Obj → ℤ) → List Obj → List Obj

-- What the widths of the table's columns are computed from, at a fixed size.
pub record Columns : Type 0 where
  pub titles : List String
  pub sort_state : SortState
  pub rows : List (List String)

-- The table widget.
pub record Table (T : Type 0) : Type 0 where
  pub cursor : T → ℤ
  pub set_cursor : ℤ → T → T
  pub set_columns_and_rows : Columns → List (List String) → T → T
  pub set_rows : List (List String) → T → T

pub data NavDirection : Type 0 where
  nav_child nav_parent nav_node : NavDirection

-- The parent of a drilled view.
pub record Parent : Type 0 where
  pub name : String
  pub uid : String
  pub api_version : String
  pub kind : String

pub record NavSnapshot (Obj Re : Type 0) : Type 0 where
  pub plugin : Plugin Obj
  pub namespace : String
  pub context : String
  pub objects : List Obj
  pub cursor : ℤ
  pub sort_state : SortState
  pub filter_state : SearchState Re
  pub search_state : SearchState Re
  pub parent : Parent
  pub direction : NavDirection

-- The stack's top is its first frame.
pub record ResourceList (Obj Re T : Type 0) : Type 0 where
  pub plugin : Plugin Obj
  pub table : T
  pub all_objects : List Obj
  pub display_objects : List Obj
  pub filter_state : SearchState Re
  pub search_state : SearchState Re
  pub sort_state : SortState
  pub namespace : String
  pub context : String
  pub nav_stack : List (NavSnapshot Obj Re)
  pub nav_floor : ℤ
  pub cached_columns : Option Columns
  pub cached_row_count : ℕ

abbrev pub default_sort_state : SortState
default_sort_state = record { column = "NAME"; ascending = true }

unfoldable pub toggle : SortState → String → SortState
toggle s column = record {
  column = column;
  ascending = if str_eq s.column column then not s.ascending else true;
}

abbrev pub sort_state_for : {Obj : Type 0} → Plugin Obj → SortState
sort_state_for p = elim p.default_sort [ none ↦ default_sort_state | some s ↦ s ]

-- `cachedColumnWidths != nil`, and then they.
abbrev pub cached_or : Option Columns → Columns → Columns
cached_or none new = new
cached_or (some c) new = c

module _ {Obj Re : Type 0} (env : Env Obj Re) where
  abbrev pub built_in_value : Obj → String → String
  built_in_value o column =
      if str_eq column "NAME"
      then env.name_of o
      else if str_eq column "AGE"
      then env.timestamp_of o
      else if str_eq column "NAMESPACE"
      then env.namespace_of o
      else ""

  abbrev pub sort_value_for : Obj → String → Option (Obj → String → String) → String
  sort_value_for o column none = built_in_value o column
  sort_value_for o column (some value) =
      if str_eq (value o column) "" then built_in_value o column else value o column

  abbrev pub negate : ℤ → ℤ
  negate (pos zero) = pos 0
  negate (pos (suc n)) = negsuc n
  negate (negsuc n) = pos (suc n)

  abbrev pub then_compare : ℤ → ℤ → ℤ
  then_compare (pos zero) d = d
  then_compare (pos (suc n)) d = pos (suc n)
  then_compare (negsuc n) d = negsuc n

  abbrev pub compare_objects : SortState → Plugin Obj → Obj → Obj → ℤ
  compare_objects s p a b =
      let column = env.to_upper s.column in
      let c =
        env.compare (sort_value_for a column p.sort_value) (sort_value_for b column p.sort_value) in
      then_compare (if s.ascending then c else negate c)
        (env.compare (env.name_of a) (env.name_of b))

  unfoldable pub sort_objects : List Obj → SortState → Plugin Obj → List Obj
  sort_objects objs s p =
      if str_eq s.column "" then objs else env.sort_stable (compare_objects s p) objs

  abbrev pub row_matches_regex : List String → Re → Bool
  row_matches_regex [] re = false
  row_matches_regex (cell ∷ cells) re =
      env.matches re (env.strip cell) || row_matches_regex cells re

  abbrev pub effective_columns : Plugin Obj → String → List String
  effective_columns p namespace =
      if not (str_eq namespace "") || p.is_cluster_scoped
      then p.columns
      else "NAMESPACE" ∷ p.columns

  abbrev pub effective_row : Plugin Obj → String → Obj → List String
  effective_row p namespace o =
      if not (str_eq namespace "") || p.is_cluster_scoped
      then p.row o
      else env.namespace_of o ∷ p.row o

  abbrev pub keep_matching : Plugin Obj → String → Option Re → List Obj → List Obj
  keep_matching p namespace none objs = objs
  keep_matching p namespace (some re) [] = []
  keep_matching p namespace (some re) (o ∷ objs) =
      let rest = keep_matching p namespace (some re) objs in
      if row_matches_regex (effective_row p namespace o) re then o ∷ rest else rest

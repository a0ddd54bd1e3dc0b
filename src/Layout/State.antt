-- ===== src/Layout/State.antt =====
-- The state of the layout and its accessors.
use aku.Base.{
  ℕ, String, Bool, true, false, ◌&&◌, ◌||◌, Option, none, some, List, [], ◌∷◌, if◌then◌else◌,
  str_eq, get_elem?, length, ℤ, pos, pos_part, ltb_ℤ, leb_ℤ,
}
use aku.Layout.Pane.{Content, resource_list, terminal, Pane}
use aku.Layout.Panel.{Panel}

pub data ZoomMode : Type 0 where
  zoom_none zoom_split zoom_detail : ZoomMode

pub data Orientation : Type 0 where
  vertical horizontal : Orientation

pub data FocusTarget : Type 0 where
  resources details : FocusTarget

pub data PaneKind : Type 0 where
  split detail log : PaneKind

-- A rectangle exists only where width and height are positive, so its numbers are natural ones.
pub record PaneRect : Type 0 where
  pub x : ℕ
  pub y : ℕ
  pub w : ℕ
  pub h : ℕ
  pub kind : PaneKind
  pub split_idx : ℕ

pub record Layout : Type 0 where
  pub splits : List Pane
  pub focus_idx : ℕ
  pub right_panel : Panel
  pub right_visible : Bool
  pub focus_target : FocusTarget
  pub split_zoomed : Bool
  pub detail_zoomed : Bool
  pub orientation : Orientation
  pub width : ℤ
  pub height : ℤ
  pub log_view : Panel
  pub log_mode : Bool
  pub pane_rects : List PaneRect

abbrev pub split_count : Layout → ℕ
split_count l = length l.splits

-- An index out of range is none, where Go panics.
abbrev pub focused_pane : Layout → Option Pane
focused_pane l = get_elem? l.splits l.focus_idx

abbrev pub narrow : Option Pane → Option Pane
narrow none = none
narrow (some p) = elim p.content [ resource_list _ _ _ ↦ some p | terminal _ ↦ none ]

-- `FocusedSplit` and `SplitAt`: nothing for a terminal.
abbrev pub focused_split : Layout → Option Pane
focused_split l = narrow (focused_pane l)

abbrev pub pane_at_idx : Layout → ℤ → Option Pane
pane_at_idx l idx =
    if ltb_ℤ idx (pos 0) || leb_ℤ (pos (split_count l)) idx
    then none
    else get_elem? l.splits (pos_part idx)

abbrev pub split_at : Layout → ℤ → Option Pane
split_at l idx = narrow (pane_at_idx l idx)

abbrev is_terminal : String → Content → Bool
is_terminal id (resource_list _ _ _) = false
is_terminal id (terminal j) = str_eq j id

abbrev pub find_terminal : String → List Pane → Option Pane
find_terminal id [] = none
find_terminal id (p ∷ ps) = if is_terminal id p.content then some p else find_terminal id ps

abbrev pub terminal_pane_by_id : Layout → String → Option Pane
terminal_pane_by_id l id = find_terminal id l.splits

abbrev pub active_detail_panel : Layout → Panel
active_detail_panel l = if l.log_mode then l.log_view else l.right_panel

-- A call of a method of `ActiveDetailPanel()`.
abbrev pub on_active : (Panel → Panel) → Layout → Layout
on_active f l = record l {
  right_panel = if l.log_mode then l.right_panel else f l.right_panel;
  log_view = if l.log_mode then f l.log_view else l.log_view;
}

abbrev pub focused_details : Layout → Bool
focused_details l = elim l.focus_target [ details ↦ true | resources ↦ false ]

-- The zoom that shows: detail before split.
abbrev pub effective_zoom : Layout → ZoomMode
effective_zoom l =
    if l.detail_zoomed && l.right_visible
    then zoom_detail
    else if l.split_zoomed
    then zoom_split
    else zoom_none

abbrev pub any_zoomed : Layout → Bool
any_zoomed l = l.split_zoomed || l.detail_zoomed

abbrev pub detail_pane_kind : Layout → PaneKind
detail_pane_kind l = if l.log_mode then log else detail

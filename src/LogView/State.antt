-- ===== src/LogView/State.antt =====
-- The state of the log panel, and its measures.
use aku.Base.{
  ℕ, ◌+◌, ◌-◌, ◌/◌, String, Bool, true, false, none, List, [], ltb, length, if◌then◌else◌, ℤ, pos,
  pos_part, leb_ℤ, ltb_ℤ, ◌-ℤ◌, sub_ℕ,
}
use aku.RingBuffer
use aku.RingBuffer.{DualRingBuffer}
use aku.AnsiSplit.{Sequence}
use aku.Search.{SearchState, search, active}

-- What the panel uses of the highlighter, of the terminal's text measures, of Go's regular
-- expressions and of its formatting: `pipeline.Highlight`, `ansi.StringWidth`, `ansi.Strip`,
-- `MatchString`, `FindAllStringIndex`, `markerRe`, the width of a prefix, the text of the row
-- that counts the lines which are gone, the sequences of a line and their text, and the SGR sequences
-- of the two highlights.
pub record Text (Re : Type 0) : Type 0 where
  pub highlight : String → String
  pub string_width : String → ℤ
  pub strip : String → String
  pub matches : Re → String → Bool
  pub find_all : Re → String → List (ℕ × ℕ)
  pub is_marker : String → Bool
  pub prefix_width : String → ℕ → ℤ
  pub dropped_text : ℕ → String
  pub decode : String → List Sequence
  pub encode : List Sequence → String
  pub highlight_sgr : List ℕ
  pub selected_sgr : List ℕ

-- `matchPosition` of internal/ui/detailview.go.
pub record MatchPosition : Type 0 where
  pub line : ℕ
  pub col_start : ℤ
  pub col_end : ℤ

-- `logViewport`.
pub record LogViewport : Type 0 where
  pub lines : List String
  pub raw_widths : List ℤ
  pub width : ℤ
  pub height : ℤ
  pub x_offset : ℤ

-- `syntax`: the pipeline is not nil. Stream metadata and styles are left out.
pub record LogView (Re : Type 0) : Type 0 where
  pub buffer : DualRingBuffer
  pub borderless : Bool
  pub width : ℤ
  pub height : ℤ
  pub autoscroll : Bool
  pub filter_state : SearchState Re
  pub search_state : SearchState Re
  pub match_positions : List MatchPosition
  pub match_index : ℤ
  pub syntax : Bool
  pub scroll_offset : ℤ
  pub filtered_indices : List ℕ
  pub filtered_index_offset : ℕ
  pub show_header : Bool
  pub log_vp : LogViewport
  pub soft_wrap : Bool
  pub wrap_y_offset : ℤ
  pub total_wrapped_rows : ℕ

-- `viewportHeight`.
abbrev pub height_of : Bool → Bool → ℤ → ℤ
height_of borderless show_header height =
    if borderless then (if show_header then height -ℤ pos 1 else height) else height -ℤ pos 2

-- The indicator row, while lines are gone.
abbrev pub indicator : DualRingBuffer → ℕ
indicator d = if ltb 0 d.dropped then 1 else 0

abbrev pub wrap_indicator_width : ℕ
wrap_indicator_width = 2

-- A width, and 1 in place of one that is not positive.
abbrev pub positive : ℤ → ℕ
positive w = if leb_ℤ w (pos 0) then 1 else pos_part w

abbrev pub continuation_width : ℤ → ℕ
continuation_width vp_width = positive (vp_width -ℤ pos wrap_indicator_width)

-- The rows of a line of the given display width: a first one of the viewport's width, and as many
-- narrower ones as the rest takes.
unfoldable pub wrap_height : ℤ → ℤ → ℕ
wrap_height display_width vp_width =
    let first = pos (positive vp_width) in
    let cont = continuation_width first in
    if leb_ℤ display_width first
    then 1
    else 1 + (pos_part (display_width -ℤ first) + cont - 1) / cont

-- The largest offset, `max(total-h, 0)`.
abbrev pub max_offset : ℕ → ℤ → ℕ
max_offset total h = pos_part (pos total -ℤ h)

-- An offset between 0 and the largest one.
abbrev pub clamp_to : ℕ → ℤ → ℤ
clamp_to most x = if ltb_ℤ (pos most) x then pos most else if ltb_ℤ x (pos 0) then pos 0 else x

module _ {Re : Type 0} where
  abbrev pub empty_search : SearchState Re
  empty_search = record { pattern = ""; mode = search; re = none; match_count = 0; current_idx = 0 }

  -- `NewLogView`.
  unfoldable pub new_log_view : ℤ → ℤ → ℤ → LogView Re
  new_log_view width height buf_capacity = record {
    buffer = RingBuffer.new buf_capacity;
    borderless = false;
    width = width;
    height = height;
    autoscroll = true;
    filter_state = empty_search;
    search_state = empty_search;
    match_positions = [];
    match_index = pos 0;
    syntax = true;
    scroll_offset = pos 0;
    filtered_indices = [];
    filtered_index_offset = 0;
    show_header = true;
    log_vp = record {
      lines = [];
      raw_widths = [];
      width = width -ℤ pos 2;
      height = height -ℤ pos 2;
      x_offset = pos 0;
    };
    soft_wrap = false;
    wrap_y_offset = pos 0;
    total_wrapped_rows = 0;
  }

  abbrev pub viewport_height : LogView Re → ℤ
  viewport_height l = height_of l.borderless l.show_header l.height

  abbrev pub filtering : LogView Re → Bool
  filtering l = active l.filter_state

  abbrev pub searching : LogView Re → Bool
  searching l = active l.search_state

  -- The lines that the filter leaves.
  abbrev pub line_count : LogView Re → ℕ
  line_count l = if filtering l then length l.filtered_indices else l.buffer.count

  abbrev pub total_display_lines : LogView Re → ℕ
  total_display_lines l = line_count l + indicator l.buffer

  -- An absolute index in the buffer's own count.
  abbrev pub buffer_index : LogView Re → ℕ → ℤ
  buffer_index l idx = sub_ℕ idx l.filtered_index_offset

  unfoldable pub clamp_scroll_offset : LogView Re → LogView Re
  clamp_scroll_offset l = record l {
    scroll_offset =
        clamp_to (max_offset (total_display_lines l) (viewport_height l)) l.scroll_offset;
  }

  -- `lv.scrollOffset = lv.totalDisplayLines() - lv.viewportHeight()`.
  unfoldable pub scroll_to_end : LogView Re → LogView Re
  scroll_to_end l = record l { scroll_offset = pos (total_display_lines l) -ℤ viewport_height l }

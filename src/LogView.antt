-- ===== src/LogView.antt =====
-- internal/ui/logview.go: the log panel over the ring buffer, with filter, search, soft wrap and
-- scrolling. Drawing and titles are left out; so are the rows into which a wrapped line is cut, with
-- their highlights.
pub mod State
pub mod Marks
pub mod Window
pub mod Content
pub mod Append
pub mod Find
pub mod Scroll
pub mod Filter
pub mod Wrap
pub mod Sound
pub mod Counted
pub mod Refilter
pub mod NewLine
pub mod Moves
pub mod Reach
pub mod Marked
pub mod Exact
pub mod Visible
pub mod Top
mod Tests

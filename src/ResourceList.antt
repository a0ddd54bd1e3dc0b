-- ===== src/ResourceList.antt =====
-- internal/ui/resourcelist.go, navstack.go and sort.go: a pane's list of objects, its filter, search,
-- sort order and the stack of views that drilling down leaves. The table widget, the objects and Go's
-- sorting are parameters; drawing, sizes, focus, scrolling and marks are left out.
pub mod State
pub mod Show
pub mod Drill
pub mod Find
pub mod Nav
pub mod Display
pub mod Sorting
mod Tests

-- ===== src/Layout.antt =====
-- internal/layout/layout.go: the splits on the left, the detail or log panel, focus, zoom, and the
-- cache of screen rectangles. State and accessors, geometry, focus and the operations are modules
-- of their own; the others are proofs.
pub mod Pane
pub mod Panel
pub mod State
pub mod Geometry
pub mod Focus
pub mod Splits
pub mod Detail
pub mod Borders
pub mod Invariant
pub mod EditInvariant
pub mod FocusInvariant
pub mod DetailInvariant
pub mod Reach
pub mod Tiling
pub mod HitTest
pub mod CloseOrder
mod Tests

-- ===== src/Layout/Panel.antt =====
-- The panel on the right (`ui.DetailPanel`: internal/ui/detailview.go or logview.go), reduced to
-- what the layout sets; its text and viewport are left out.
use aku.Base.{Bool, ℤ}

pub record Panel : Type 0 where
  pub focused : Bool
  pub borderless : Bool
  pub width : ℤ
  pub height : ℤ

abbrev pub set_focused : Bool → Panel → Panel
set_focused b p = record p { focused = b }

abbrev pub set_borderless : Bool → Panel → Panel
set_borderless b p = record p { borderless = b }

abbrev pub set_size : ℤ → ℤ → Panel → Panel
set_size w h p = record p { width = w; height = h }

-- ===== src/Layout/Pane.antt =====
-- The panes of internal/ui that the layout drives (`ui.Pane`: a `ResourceList` or a
-- `TerminalPane`), reduced to what the layout sets: the size, the focus bits and the borderless
-- flag. Tables, emulators and a terminal's input mode are left out.
use aku.Base.{String, Bool, true, false, ℤ}

-- What a pane shows. A resource list is known by its plugin, namespace and kube-context, and a
-- terminal by its id.
pub data Content : Type 0 where
  resource_list : String → String → String → Content
  terminal : String → Content

abbrev pub is_list : Content → Bool
is_list (resource_list _ _ _) = true
is_list (terminal _) = false

-- `focused` drives the border and the input, `selection` the cursor; a terminal has no cursor.
pub record Pane : Type 0 where
  pub content : Content
  pub focused : Bool
  pub selection : Bool
  pub borderless : Bool
  pub width : ℤ
  pub height : ℤ

-- `NewResourceList`: a new list is focused, with an active selection.
abbrev pub new_resource_list : String → String → String → ℤ → ℤ → Pane
new_resource_list plugin namespace context w h = record {
  content = resource_list plugin namespace context;
  focused = true;
  selection = true;
  borderless = false;
  width = w;
  height = h;
}

abbrev pub focus : Pane → Pane
focus p = record p { focused = true; selection = is_list p.content }

abbrev pub blur : Pane → Pane
blur p = record p { focused = false; selection = false }

-- A list keeps its cursor; a terminal, which has no `BlurBorder`, is blurred.
abbrev pub blur_border : Pane → Pane
blur_border p = record p { focused = false; selection = is_list p.content }

-- Both components lay themselves out again at the size that they have.
abbrev pub set_borderless : Bool → Pane → Pane
set_borderless b p = record p { borderless = b }

abbrev pub set_size : ℤ → ℤ → Pane → Pane
set_size w h p = record p { width = w; height = h }

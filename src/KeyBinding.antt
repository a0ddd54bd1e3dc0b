-- ===== src/KeyBinding.antt =====
-- internal/config/binding.go: the user's list of key bindings, compiled into the tree of a context.
-- Sorting hints, by `slices.SortFunc`, is a parameter; the help overlay's groups are left out.
mod Lookup
pub mod Chords
pub mod Hints
mod Tests
use aku.Base.{
  String, Bool, true, false, ◌&&◌, ◌||◌, not, Option, none, some, List, [], ◌∷◌, str_eq, str_append,
  if◌then◌else◌, ◌++◌,
}
use aku.KeyTrie.{
  RunConfig, KeyNode, node, Keys, no_keys, bind, binding, is_empty, command, run, keys, is_some_run,
  KeyTrie, new_key_trie,
}

-- `Binding`, with its fields in order, and the slice `[]Binding`.
mutual
  pub data Binding : Type 0 where
    bound :
        (key help command : String) (run : Option RunConfig) (scope : String)
        (resources : List String) (visible capture : Bool) (keys : Bindings)
        → Binding

  pub data Bindings : Type 0 where
    no_bindings : Bindings
    also : Binding → Bindings → Bindings

abbrev pub key_of : Binding → String
key_of (bound k h c r s f v held ks) = k

abbrev pub command_of : Binding → String
command_of (bound k h c r s f v held ks) = c

abbrev pub run_of : Binding → Option RunConfig
run_of (bound k h c r s f v held ks) = r

abbrev pub help_of : Binding → String
help_of (bound k h c r s f v held ks) = h

abbrev pub scope_of : Binding → String
scope_of (bound k h c r s f v held ks) = s

abbrev pub resources_of : Binding → List String
resources_of (bound k h c r s f v held ks) = f

abbrev pub is_visible : Binding → Bool
is_visible (bound k h c r s f v held ks) = v

abbrev pub is_capture : Binding → Bool
is_capture (bound k h c r s f v held ks) = held

abbrev pub keys_of : Binding → Bindings
keys_of (bound k h c r s f v held ks) = ks

-- `len(b.Keys) == 0`.
abbrev pub no_more : Bindings → Bool
no_more no_bindings = true
no_more (also b bs) = false

-- A component type and a resource name.
pub record Context : Type 0 where
  pub component_type : String
  pub resource_name : String

abbrev pub contains : String → List String → Bool
contains x [] = false
contains x (y ∷ ys) = str_eq y x || contains x ys

abbrev pub is_details : String → Bool
is_details t = str_eq t "details" || str_eq t "yaml" || str_eq t "describe" || str_eq t "logs"

abbrev pub in_scope : String → String → Bool
in_scope scope t =
    if str_eq scope ""
    then true
    else if str_eq scope "details"
    then is_details t
    else str_eq scope t

abbrev pub for_resource : List String → String → Bool
for_resource [] name = true
for_resource (r ∷ rs) name = contains name (r ∷ rs)

-- `matchesContext`, on the scope and the resources of a binding.
unfoldable pub matches_context : Context → String → List String → Bool
matches_context c scope resources =
    in_scope scope c.component_type && for_resource resources c.resource_name

-- What a child has of its parent, where it has none of its own.
abbrev pub inherit_scope : String → String → String
inherit_scope parent own = if str_eq own "" then parent else own

abbrev pub inherit_resources : List String → List String → List String
inherit_resources parent [] = parent
inherit_resources parent (r ∷ rs) = r ∷ rs

-- `delete` on a key map, and `root[key] = n`.
unfoldable pub unbind : String → Keys → Keys
unbind k no_keys = no_keys
unbind k (bind j n ks) = let rest = unbind k ks in if str_eq j k then rest else bind j n rest

abbrev pub put : String → KeyNode → Keys → Keys
put k n ks = bind k n (unbind k ks)

-- `maps.Copy(dst, src)`.
abbrev pub copy_keys : Keys → Keys → Keys
copy_keys dst no_keys = dst
copy_keys dst (bind k n src) = put k n (copy_keys dst src)

-- The node of a branch, over the node that its key has.
abbrev pub over_node : Option KeyNode → KeyNode → KeyNode
over_node none new = new
over_node (some (node h c r ks hid)) (node h' c' r' children hid') =
    if is_empty ks then node h' c' r' children hid' else node h' c r (copy_keys ks children) hid'

-- `insertBinding`, with the scope, the resources and the visibility that the binding has or is given
-- by its parent; and the loop over the children.
unfoldable mutual
  pub insert_as : Context → String → List String → Bool → Binding → Keys → Keys
  insert_as c scope resources visible (bound k h cmd r s f v held ks) root =
      let children = insert_children c scope resources ks no_keys in
      if not (matches_context c scope resources)
      then root
      else if no_more ks
      then put k (node h cmd r no_keys (not visible)) root
      else put k (over_node (binding root k) (node h cmd r children (not visible))) root

  pub insert_children : Context → String → List String → Bindings → Keys → Keys
  insert_children c scope resources no_bindings root = root
  insert_children c scope resources (also b bs) root = insert_children c scope resources bs (
      insert_as c (inherit_scope scope (scope_of b)) (inherit_resources resources (resources_of b))
        true b root)

abbrev pub insert_binding : Context → Binding → Keys → Keys
insert_binding c b root = insert_as c (scope_of b) (resources_of b) (is_visible b) b root

abbrev pub insert_all : Context → Bindings → Keys → Keys
insert_all c no_bindings root = root
insert_all c (also b bs) root = insert_all c bs (insert_binding c b root)

-- `NewBindingSet`: the set is its list; the memoized captured keys are computed again.
abbrev pub compile : Context → Bindings → Keys
compile c bs = insert_all c bs no_keys

abbrev pub trie_for : Context → Bindings → KeyTrie
trie_for c bs = new_key_trie (compile c bs)

unfoldable pub is_captured : String → Bindings → Bool
is_captured k no_bindings = false
is_captured k (also b bs) = (is_capture b && str_eq (key_of b) k) || is_captured k bs

pub record KeyHint : Type 0 where
  pub key : String
  pub help : String

abbrev pub shows : Context → Binding → Bool
shows c b =
    is_visible b
    && matches_context c (scope_of b) (resources_of b)
    && (not (str_eq (command_of b) "") || is_some_run (run_of b) || not (no_more (keys_of b)))

-- The bindings that the status bar shows, before they are sorted.
unfoldable pub shown_hints : Context → Bindings → List KeyHint
shown_hints c no_bindings = []
shown_hints c (also b bs) =
    let rest = shown_hints c bs in
    if shows c b then record { key = key_of b; help = help_of b } ∷ rest else rest

abbrev pub status_hints : (List KeyHint → List KeyHint) → Context → Bindings → List KeyHint
status_hints sort c bs = sort (shown_hints c bs)

-- The leaves of a binding, each with the keys that lead to it.
mutual
  pub flatten_binding : Binding → String → List KeyHint
  flatten_binding (bound k h cmd r s f v held ks) prefix =
      let full = (if str_eq prefix "" then k else str_append prefix (str_append " " k)) in
      let below = flatten_all ks full in
      if no_more ks
      then (if not (str_eq cmd "") || is_some_run r
          then record { key = full; help = h } ∷ []
          else [])
      else below

  pub flatten_all : Bindings → String → List KeyHint
  flatten_all no_bindings prefix = []
  flatten_all (also b bs) prefix = flatten_binding b prefix ++ flatten_all bs prefix

-- ===== src/KeyTrie.antt =====
-- internal/config/keytrie.go: key sequences are resolved along a tree of bindings. The sorted list
-- of hints is left out: it reads the tree and draws.
pub mod Sequence
mod Tests
use aku.Base.{String, Bool, true, false, ◌&&◌, ◌||◌, not, Option, none, some, str_eq, if◌then◌else◌}

-- `RunConfig` of internal/config/binding.go.
pub record RunConfig : Type 0 where
  pub command : String
  pub background : Bool
  pub confirm : Bool

-- `Keys`, a Go map, is a list of bindings, the first one for a key counting; the nil map is empty.
mutual
  pub data KeyNode : Type 0 where
    node : (help command : String) (run : Option RunConfig) (keys : Keys) (hidden : Bool) → KeyNode

  pub data Keys : Type 0 where
    no_keys : Keys
    bind : String → KeyNode → Keys → Keys

abbrev pub help : KeyNode → String
help (node h c r ks b) = h

abbrev pub command : KeyNode → String
command (node h c r ks b) = c

abbrev pub run : KeyNode → Option RunConfig
run (node h c r ks b) = r

abbrev pub keys : KeyNode → Keys
keys (node h c r ks b) = ks

unfoldable pub binding : Keys → String → Option KeyNode
binding no_keys k = none
binding (bind j n ks) k = if str_eq j k then some n else binding ks k

-- `len(keys) == 0`.
abbrev pub is_empty : Keys → Bool
is_empty no_keys = true
is_empty (bind _ _ _) = false

pub record KeyTrie : Type 0 where
  pub root : Keys
  pub current : Option KeyNode

-- A new trie is at the root.
abbrev pub new_key_trie : Keys → KeyTrie
new_key_trie ks = record { root = ks; current = none }

-- The answer of `Press`.
pub record Pressed : Type 0 where
  pub command : String
  pub run : Option RunConfig
  pub resolved : Bool

abbrev pub level : KeyTrie → Keys
level t = elim t.current [ none ↦ t.root | some n ↦ keys n ]

abbrev pub is_some_run : Option RunConfig → Bool
is_some_run none = false
is_some_run (some _) = true

-- A leaf has a command or a run, and no keys.
abbrev pub is_leaf : KeyNode → Bool
is_leaf n = (not (str_eq (command n) "") || is_some_run (run n)) && is_empty (keys n)

abbrev pub reset : KeyTrie → KeyTrie
reset t = record t { current = none }

-- `Press` at a key that is bound to the node.
abbrev pub press_node : KeyTrie → KeyNode → KeyTrie × Pressed
press_node t n =
    if is_leaf n
    then (reset t, record { command = command n; run = run n; resolved = true })
    else if not (is_empty (keys n))
    then (record t { current = some n }, record { command = ""; run = none; resolved = false })
    else (reset t, record { command = ""; run = none; resolved = true })

-- `Press` after the lookup: an unknown key is swallowed.
abbrev pub press_found : KeyTrie → Option KeyNode → KeyTrie × Pressed
press_found t none = (reset t, record { command = ""; run = none; resolved = true })
press_found t (some n) = press_node t n

unfoldable pub press : String → KeyTrie → KeyTrie × Pressed
unfolding binding
press k t = press_found t (binding (level t) k)

abbrev pub at_root : KeyTrie → Bool
at_root t = elim t.current [ none ↦ true | some _ ↦ false ]

abbrev pub pending_prefix : KeyTrie → String
pending_prefix t = elim t.current [ none ↦ "" | some n ↦ help n ]

-- ===== src/KeyTrie/Tests.antt =====
-- The theorems on key sequences at a small tree of bindings.
use aku.Base.{◌≡◌, refl, true, false, none, [], ◌∷◌}
use aku.KeyTrie.{KeyNode, node, Keys, no_keys, bind, binding, KeyTrie, press, new_key_trie}
use aku.KeyTrie.Sequence.{Spells, here, below, press_all, press_all-path, waiting, answer}

abbrev view_logs : KeyNode
view_logs = node "logs" "view-logs" none no_keys false

-- `q` quits, `v l` shows the logs.
abbrev bindings : Keys
bindings =
    bind "q" (node "quit" "quit" none no_keys false)
      (bind "v" (node "view" "" none (bind "l" view_logs no_keys) false) no_keys)

abbrev trie : KeyTrie
trie = new_key_trie bindings

spelled : Spells bindings ("v" ∷ "l" ∷ []) view_logs
unfolding binding
spelled =
    below "v" (node "view" "" none (bind "l" view_logs no_keys) false) refl refl
      (here "l" view_logs refl)

press_all-path_example : press_all ("v" ∷ "l" ∷ []) trie ≡ (trie, waiting ∷ answer view_logs ∷ [])
press_all-path_example = press_all-path trie spelled refl

-- An unknown key on the way is swallowed.
unknown :
    press_all ("v" ∷ "x" ∷ []) trie
    ≡ (trie, waiting ∷ record { command = ""; run = none; resolved = true } ∷ [])
unfolding press_all press binding
unknown = refl

-- ===== src/KeyBinding/Tests.antt =====
-- The theorems on a list of defaults and a user's bindings behind them.
use aku.Base.{◌≡◌, refl, String, true, false, none, [], ◌∷◌}
use aku.KeyTrie.{command}
use aku.KeyTrie.Sequence.{press_all, answers}
use aku.KeyBinding.{
  Binding, Bindings, bound, no_bindings, also, Context, compile, trie_for, KeyHint, status_hints,
  flatten_binding, matches_context, is_captured,
}
use aku.KeyBinding.Chords.{at_first, at_rest, last_key, more_keys, press_all-Chord}

abbrev leaf : String → String → String → Binding
leaf key scope command = bound key command command none scope [] true false no_bindings

abbrev pods : Context
pods = record { component_type = "resources"; resource_name = "pods" }

-- `g p` by default, `q`, and the user's `g`, whose `p` is another, with one for logs only.
abbrev go_default : Binding
go_default =
    bound "g" "go to" "" none "" [] true false
      (also (leaf "p" "" "goto-pods") (also (leaf "n" "" "goto-nodes") no_bindings))

abbrev go_user : Binding
go_user =
    bound "g" "go" "" none "resources" ("pods" ∷ []) true false
      (also (leaf "p" "" "my-pods") (also (leaf "p" "logs" "log-pods") no_bindings))

abbrev bindings : Bindings
bindings = also go_default (also go_user (also (leaf "q" "" "quit") no_bindings))

press_all-Chord_example : press_all ("g" ∷ "p" ∷ []) (trie_for pods bindings) ≡ (
  trie_for pods bindings,
  answers ("g" ∷ "p" ∷ []) (record { command = "my-pods"; run = none; resolved = true }),
)
unfolding matches_context
press_all-Chord_example =
    press_all-Chord pods {b = go_user} {leaf = leaf "p" "" "my-pods"}
      (at_rest go_default (at_first go_user (also (leaf "q" "" "quit") no_bindings) refl))
      (more_keys go_user refl
        (at_first (leaf "p" "" "my-pods") (also (leaf "p" "logs" "log-pods") no_bindings) refl)
        (last_key (leaf "p" "" "my-pods") refl refl))
      refl

-- The user's chord joins the default one.
merged_test : press_all ("g" ∷ "n" ∷ []) (trie_for pods bindings) ≡ (
  trie_for pods bindings,
  answers ("g" ∷ "n" ∷ []) (record { command = "goto-nodes"; run = none; resolved = true }),
)
unfolding press_all matches_context aku.KeyBinding.insert_as aku.KeyBinding.unbind
merged_test = refl

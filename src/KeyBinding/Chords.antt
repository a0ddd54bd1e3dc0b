-- ===== src/KeyBinding/Chords.antt =====
-- Key sequences that the user's bindings define, pressed in the compiled tree.
use aku.Base.{
  ◌≡◌, refl, sym, ap₂, eq_iff, subst, ◌∙◌, String, Bool, true, false, ◌||◌, not, Option, none, some,
  List, [], ◌∷◌, str_eq, arith, Bool-cases, inl, inr, if-cases,
}
use aku.KeyTrie.{
  KeyNode, RunConfig, node, Keys, no_keys, binding, is_empty, keys, command, run, is_leaf,
  is_some_run,
}
use aku.KeyTrie.Sequence.{Spells, here, below, press_all, press_all-path, answers}
use aku.KeyBinding.{
  Binding, Bindings, bound, no_bindings, also, Context, key_of, scope_of, resources_of, keys_of,
  command_of, run_of, is_visible, no_more, matches_context, over_node, insert_as, insert_children,
  insert_all, inherit_scope, inherit_resources, trie_for,
}
use aku.KeyBinding.Lookup.{
  binding-put, binding-copy_some, binding-not_empty, same_refl, displaces, binding-insert_ne,
}

-- A later binding takes the key, in a list whose bindings inherit `scope` and `resources`.
abbrev pub taken_later : Context → String → List String → String → Bindings → Bool
taken_later c scope resources k no_bindings = false
taken_later c scope resources k (also b bs) =
    displaces c (inherit_scope scope (scope_of b)) (inherit_resources resources (resources_of b)) k
      b
    || taken_later c scope resources k bs

-- The binding stands in the list, and no later one takes its key.
pub data Last (c : Context) (scope : String) (resources : List String)
    : Bindings → Binding → Type 0 where
  at_first :
      (b : Binding) (bs : Bindings)
      → taken_later c scope resources (key_of b) bs ≡ false
      → Last c scope resources (also b bs) b
  at_rest :
      (a : Binding) {bs : Bindings} {b : Binding}
      → Last c scope resources bs b
      → Last c scope resources (also a bs) b

-- Behind the binding's own key, the keys lead on to a binding without further keys; each matches the
-- context.
pub data Chord (c : Context) : String → List String → Binding → List String → Binding → Type 0 where
  last_key :
      {scope : String} {resources : List String} (b : Binding)
      → matches_context c scope resources ≡ true
      → no_more (keys_of b) ≡ true
      → Chord c scope resources b [] b
  more_keys :
      {scope : String} {resources : List String} (b : Binding) {child leaf : Binding}
      {ks : List String}
      → matches_context c scope resources ≡ true
      → Last c scope resources (keys_of b) child
      → Chord c
          (inherit_scope scope (scope_of child))
          (inherit_resources resources (resources_of child))
          child
          ks
          leaf
      → Chord c scope resources b (key_of child ∷ ks) leaf

-- The keys lead to a node with the leaf's command and run.
record Leads (root : Keys) (ks : List String) (leaf : Binding) : Type 0 where
  at : KeyNode
  spells : Spells root ks at
  same_command : command at ≡ command_of leaf
  same_run : run at ≡ run_of leaf
  ends : is_empty (keys at) ≡ true

-- Maps that agree on the first key.
Spells-moved :
    {from to : Keys} {k : String} {ks : List String} {n : KeyNode}
    → ((m : KeyNode) → binding from k ≡ some m → binding to k ≡ some m)
    → Spells from (k ∷ ks) n
    → Spells to (k ∷ ks) n
Spells-moved h (here k n e) = here k n (h n e)
Spells-moved h (below k n e branch s) = below k n (h n e) branch s

Spells-not_empty :
    {ks : Keys} {k : String} {rest : List String} {n : KeyNode}
    → Spells ks (k ∷ rest) n
    → is_empty ks ≡ false
Spells-not_empty {ks} (here k n e) = binding-not_empty ks k e
Spells-not_empty {ks} (below k n e branch s) = binding-not_empty ks k e

Leads-moved :
    {from to : Keys} {k : String} {ks : List String} {leaf : Binding}
    → ((m : KeyNode) → binding from k ≡ some m → binding to k ≡ some m)
    → Leads from (k ∷ ks) leaf
    → Leads to (k ∷ ks) leaf
Leads-moved h l = record {
  at = l.at;
  spells = Spells-moved h l.spells;
  same_command = l.same_command;
  same_run = l.same_run;
  ends = l.ends;
}

-- A branch's keys show above those that were there.
binding-over_node :
    (o : Option KeyNode) (h cmd : String) (r : Option RunConfig) (children : Keys) (hid : Bool)
    (j : String) (m : KeyNode)
    → binding children j ≡ some m
    → binding (keys (over_node o (node h cmd r children hid))) j ≡ some m
binding-over_node none h cmd r children hid j m e = e
binding-over_node (some (node h' c' r' ks hid')) h cmd r children hid j m e =
    if-cases (λ n. binding (keys n) j ≡ some m) (is_empty ks) _ _ (λ _. e)
      (λ _. binding-copy_some ks children j e)

module _ (c : Context) where
  laters :
      (scope : String) (resources : List String) (bs : Bindings) (root : Keys) (k : String)
      → taken_later c scope resources k bs ≡ false
      → binding (insert_children c scope resources bs root) k ≡ binding root k
  unfolding insert_as
  laters scope resources no_bindings root k h = refl
  laters scope resources (also b bs) root k h =
      laters scope resources bs _ k (ground arith)
      ∙ binding-insert_ne c _ _ true b root k (ground arith)

  -- Where the child leads on its own, it leads among its siblings.
  among :
      (scope : String) (resources : List String) {bs : Bindings} {child leaf : Binding}
      {ks : List String} (root : Keys)
      → Last c scope resources bs child
      → ((root : Keys)
          → Leads
              (insert_as c
                (inherit_scope scope (scope_of child))
                (inherit_resources resources (resources_of child))
                true
                child
                root)
              (key_of child ∷ ks)
              leaf)
      → Leads (insert_children c scope resources bs root) (key_of child ∷ ks) leaf
  unfolding insert_as
  among scope resources root (at_first b bs h) lead =
      Leads-moved (λ m e. laters scope resources bs _ (key_of b) h ∙ e) (lead root)
  among scope resources root (at_rest a l) lead = among scope resources _ l lead

  insert-leaf :
      (scope : String) (resources : List String) (visible : Bool) (b : Binding) (root : Keys)
      → matches_context c scope resources ≡ true
      → no_more (keys_of b) ≡ true
      → Leads (insert_as c scope resources visible b root) (key_of b ∷ []) b
  unfolding insert_as
  insert-leaf scope resources visible (bound k h cmd r s f v held ks) root m e = rw m (
      rw e (record {
        at = node h cmd r no_keys (not visible);
        spells = here k _ (binding-put k k _ root ∙ rw (same_refl k) refl);
        same_command = refl;
        same_run = refl;
        ends = refl;
      }))

  Last-more :
      {scope : String} {resources : List String} {bs : Bindings} {b : Binding}
      → Last c scope resources bs b
      → no_more bs ≡ false
  Last-more (at_first b bs h) = refl
  Last-more (at_rest a l) = refl

  insert-branch :
      (scope : String) (resources : List String) (visible : Bool) (b : Binding) {leaf : Binding}
      {k : String} {ks : List String} (root : Keys)
      → matches_context c scope resources ≡ true
      → no_more (keys_of b) ≡ false
      → Leads (insert_children c scope resources (keys_of b) no_keys) (k ∷ ks) leaf
      → Leads (insert_as c scope resources visible b root) (key_of b ∷ k ∷ ks) leaf
  unfolding insert_as
  insert-branch scope resources visible (bound key h cmd r s f v held bs) {leaf} {k} {ks} root m e
        l =
      let children = insert_children c scope resources bs no_keys in
      let over = over_node (binding root key) (node h cmd r children (not visible)) in
      let below_it : Spells (keys over) (k ∷ ks) l.at =
        Spells-moved (binding-over_node (binding root key) h cmd r children (not visible) k)
          l.spells in
      rw m (
        rw e (record {
          at = l.at;
          spells =
              below key over (binding-put key key over root ∙ rw (same_refl key) refl)
                (Spells-not_empty below_it) below_it;
          same_command = l.same_command;
          same_run = l.same_run;
          ends = l.ends;
        }))

  Chord-Leads :
      {scope : String} {resources : List String} (visible : Bool) {b leaf : Binding}
      {ks : List String} (root : Keys)
      → Chord c scope resources b ks leaf
      → Leads (insert_as c scope resources visible b root) (key_of b ∷ ks) leaf
  Chord-Leads visible root (last_key b m e) = insert-leaf _ _ visible b root m e
  Chord-Leads visible root (more_keys b m l chord) =
      insert-branch _ _ visible b root m (Last-more l)
        (among _ _ no_keys l (λ r. Chord-Leads true r chord))

  -- At the top there is nothing to inherit.
  own_scope : (s : String) → inherit_scope "" s ≡ s
  own_scope s = elim (Bool-cases (str_eq s "")) [
    | inl e ↦ rw e (sym ((eq_iff s "").0 e))
    | inr e ↦ rw e refl
  ]

  own_resources : (rs : List String) → inherit_resources [] rs ≡ rs
  own_resources [] = refl
  own_resources (r ∷ rs) = refl

  laters_all :
      (bs : Bindings) (root : Keys) (k : String)
      → taken_later c "" [] k bs ≡ false
      → binding (insert_all c bs root) k ≡ binding root k
  laters_all no_bindings root k h = refl
  laters_all (also b bs) root k h =
      laters_all bs _ k (ground arith)
      ∙ binding-insert_ne c _ _ (is_visible b) b root k (
          subst (λ rs. displaces c (scope_of b) rs k b ≡ false) (own_resources (resources_of b))
            (subst (λ o. displaces c o (inherit_resources [] (resources_of b)) k b ≡ false)
              (own_scope (scope_of b)) (ground arith)))

  all-Leads :
      {bs : Bindings} {b leaf : Binding} {ks : List String} (root : Keys)
      → Last c "" [] bs b
      → Chord c (scope_of b) (resources_of b) b ks leaf
      → Leads (insert_all c bs root) (key_of b ∷ ks) leaf
  all-Leads root (at_first b bs h) chord =
      Leads-moved (λ m e. laters_all bs _ (key_of b) h ∙ e) (Chord-Leads (is_visible b) root chord)
  all-Leads root (at_rest a l) chord = all-Leads _ l chord

-- Pressing a chord that the bindings define in the context, whose first key no later binding takes
-- there, nor a later sibling one of the others, waits at each key but the last, then gives the
-- command and run of the binding that the keys lead to, both if it has both, and leaves the trie at
-- the root; the leaf has a command or a run.
pub press_all-Chord :
    (c : Context) {bs : Bindings} {b leaf : Binding} {ks : List String}
    → Last c "" [] bs b
    → Chord c (scope_of b) (resources_of b) b ks leaf
    → (not (str_eq (command_of leaf) "") || is_some_run (run_of leaf)) ≡ true
    → press_all (key_of b ∷ ks) (trie_for c bs) ≡ (
      trie_for c bs,
      answers
          (key_of b ∷ ks)
          (record { command = command_of leaf; run = run_of leaf; resolved = true }),
    )
press_all-Chord c {bs} {b} {leaf} {ks} last chord runs =
    let l = all-Leads c no_keys last chord in
    let e : is_leaf l.at ≡ true = rw l.same_command (rw l.same_run (rw l.ends (ground arith))) in
    press_all-path (trie_for c bs) l.spells e
    ∙ ap₂
        (λ cmd r. (
          trie_for c bs,
          answers (key_of b ∷ ks) (record { command = cmd; run = r; resolved = true }),
        ))
        l.same_command l.same_run

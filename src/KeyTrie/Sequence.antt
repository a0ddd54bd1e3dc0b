-- ===== src/KeyTrie/Sequence.antt =====
-- Key sequences: what a run of `Press` from the root returns, against a walk of the tree.
use aku.Base.{
  ◌≡◌, refl, sym, ap, ◌∙◌, String, true, false, Option, none, some, List, [], ◌∷◌, arith,
  if◌then◌else◌,
}
use aku.KeyTrie.{
  KeyNode, Keys, command, run, keys, binding, is_empty, is_leaf, KeyTrie, Pressed, press, at_root,
  level, reset, press_found,
}

-- The keys of `ks` spell a path of branches down to the node.
pub data Spells : Keys → List String → KeyNode → Type 0 where
  here : {ks : Keys} (k : String) (n : KeyNode) → binding ks k ≡ some n → Spells ks (k ∷ []) n
  below :
      {ks : Keys} (k : String) (n : KeyNode) {rest : List String} {m : KeyNode}
      → binding ks k ≡ some n
      → is_empty (keys n) ≡ false
      → Spells (keys n) rest m
      → Spells ks (k ∷ rest) m

-- The trie and the answers after the presses, in order.
unfoldable pub press_all : List String → KeyTrie → KeyTrie × List Pressed
unfolding press
press_all [] t = (t, [])
press_all (k ∷ ks) t = let (t', p) = press k t in let (last, ps) = press_all ks t' in (last, p ∷ ps)

abbrev pub waiting : Pressed
waiting = record { command = ""; run = none; resolved = false }

abbrev pub answer : KeyNode → Pressed
answer n = record { command = command n; run = run n; resolved = true }

-- One `waiting` for each key but the last, then the answer.
abbrev pub answers : List String → Pressed → List Pressed
answers [] p = []
answers (k ∷ []) p = p ∷ []
answers (k ∷ j ∷ ks) p = waiting ∷ answers (j ∷ ks) p

press-branch :
    (k : String) (n : KeyNode) (t : KeyTrie)
    → binding (level t) k ≡ some n
    → is_empty (keys n) ≡ false
    → press k t ≡ (record t { current = some n }, waiting)
unfolding press
press-branch k n t found branch = ap (press_found t) found ∙ ground arith

press-leaf :
    (k : String) (n : KeyNode) (t : KeyTrie)
    → binding (level t) k ≡ some n
    → is_leaf n ≡ true
    → press k t ≡ (reset t, answer n)
unfolding press
press-leaf k n t found leaf = ap (press_found t) found ∙ rw leaf refl

answers-below :
    (k : String) (p : Pressed) {ks : Keys} {rest : List String} {n : KeyNode}
    → Spells ks rest n
    → answers (k ∷ rest) p ≡ waiting ∷ answers rest p
answers-below k p (here j n f) = refl
answers-below k p (below j n f b s) = refl

press_all-from :
    (t : KeyTrie) {at : Keys} {ks : List String} {n : KeyNode}
    → Spells at ks n
    → level t ≡ at
    → is_leaf n ≡ true
    → press_all ks t ≡ (reset t, answers ks (answer n))
unfolding press_all
press_all-from t (here k n found) e leaf =
    ap (λ (r : KeyTrie × Pressed). (r.0, r.1 ∷ []))
      (press-leaf k n t (ap (λ l. binding l k) e ∙ found) leaf)
press_all-from t (below k n {rest} {m} found branch s) e leaf =
    ap (λ (r : KeyTrie × Pressed). ((press_all rest r.0).0, r.1 ∷ (press_all rest r.0).1))
      (press-branch k n t (ap (λ l. binding l k) e ∙ found) branch)
    ∙ ap (λ (r : KeyTrie × List Pressed). (r.0, waiting ∷ r.1))
        (press_all-from (record t { current = some n }) s refl leaf)
    ∙ ap (λ (r : List Pressed). (reset t, r)) (sym (answers-below k (answer m) s))

-- Pressing the keys of a path to a leaf, which starts where the trie stands, waits at each key but
-- the last, then gives the leaf's command and run, both if it has both, and leaves the trie at the
-- root.
pub press_all-path :
    (t : KeyTrie) {ks : List String} {n : KeyNode}
    → Spells (level t) ks n
    → is_leaf n ≡ true
    → press_all ks t ≡ (reset t, answers ks (answer n))
press_all-path t s leaf = press_all-from t s refl leaf

-- The trie stands in a branch, if not at the root.
abbrev pub InBranch : KeyTrie → Type 0
InBranch t = elim t.current [ none ↦ Unit | some n ↦ is_empty (keys n) ≡ false ]

press_found-lem :
    (t : KeyTrie) (found : Option KeyNode)
    → let (t', p) = press_found t found in
      (p.resolved ≡ at_root t')
      × InBranch t'
      × (t'.root ≡ t.root)
      × ((if p.resolved then waiting else p) ≡ waiting)
press_found-lem t none = ground arith
press_found-lem t (some n) = ground arith

-- A press is resolved exactly where it leaves the trie at the root, else it is the answer that waits and the
-- trie is in a branch; the tree stays.
pub press-lem :
    (k : String) (t : KeyTrie)
    → let (t', p) = press k t in
      (p.resolved ≡ at_root t')
      × InBranch t'
      × (t'.root ≡ t.root)
      × ((if p.resolved then waiting else p) ≡ waiting)
unfolding press
press-lem k t = press_found-lem t (binding (level t) k)

-- ===== src/KeyBinding/Lookup.antt =====
-- What is found in a key map after the edits of `insertBinding`.
use aku.Base.{
  ◌≡◌, refl, ◌∙◌, String, Bool, true, false, ◌&&◌, not, none, some, List, str_eq, eq_iff, arith,
  if◌then◌else◌, Bool-cases, inl, inr, if-cases,
}
use aku.KeyTrie.{KeyNode, Keys, no_keys, bind, binding, is_empty}
use aku.KeyBinding.{
  Binding, bound, Context, key_of, no_more, matches_context, unbind, put, copy_keys, insert_as,
}

binding-unbind :
    (k j : String) (ks : Keys)
    → binding (unbind k ks) j ≡ (if str_eq k j then none else binding ks j)
unfolding unbind binding
binding-unbind k j no_keys = ground arith
binding-unbind k j (bind i n ks) =
    ground (arith, binding-unbind k j ks, eq_iff i k, eq_iff i j, eq_iff k j)

pub binding-put :
    (k j : String) (n : KeyNode) (ks : Keys)
    → binding (put k n ks) j ≡ (if str_eq k j then some n else binding ks j)
unfolding binding
binding-put k j n ks = ground (arith, binding-unbind k j ks)

-- `maps.Copy` lets what it copies win.
pub binding-copy_some :
    (dst src : Keys) (j : String) {n : KeyNode}
    → binding src j ≡ some n
    → binding (copy_keys dst src) j ≡ some n
unfolding binding
binding-copy_some dst no_keys j h = cc
binding-copy_some dst (bind k m src) j {n} h = elim (Bool-cases (str_eq k j)) [
  | inl here ↦ binding-put k j m (copy_keys dst src) ∙ rw here (rw here at h)
  | inr there ↦
      binding-put k j m (copy_keys dst src) ∙ rw there (binding-copy_some dst src j (rw there at h))
]

pub binding-not_empty :
    (ks : Keys) (j : String) {n : KeyNode} → binding ks j ≡ some n → is_empty ks ≡ false
unfolding binding
binding-not_empty no_keys j h = cc
binding-not_empty (bind k m ks) j h = refl

pub same_refl : (k : String) → str_eq k k ≡ true
same_refl k = (eq_iff k k).1 refl

-- The binding takes the key in the context, with the scope and the resources that it has there.
abbrev pub displaces : Context → String → List String → String → Binding → Bool
displaces c scope resources k b = str_eq (key_of b) k && matches_context c scope resources

binding-put_ne :
    (k j : String) (n : KeyNode) (ks : Keys)
    → str_eq k j ≡ false
    → binding (put k n ks) j ≡ binding ks j
binding-put_ne k j n ks h = binding-put k j n ks ∙ rw h refl

-- Any other binding leaves what is found at the key.
pub binding-insert_ne :
    (c : Context) (scope : String) (resources : List String) (visible : Bool) (b : Binding)
    (root : Keys) (j : String)
    → displaces c scope resources j b ≡ false
    → binding (insert_as c scope resources visible b root) j ≡ binding root j
unfolding insert_as
binding-insert_ne c scope resources visible (bound k h cmd r s f v held ks) root j d =
    if-cases (λ x. binding x j ≡ binding root j) (not (matches_context c scope resources)) root _
      (λ _. refl)
      (λ matches.
        let other : str_eq k j ≡ false = ground (arith, matches, d) in
        if-cases (λ x. binding x j ≡ binding root j) (no_more ks) _ _
          (λ _. binding-put_ne k j _ root other) (λ _. binding-put_ne k j _ root other))

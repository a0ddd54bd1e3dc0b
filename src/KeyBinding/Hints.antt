-- ===== src/KeyBinding/Hints.antt =====
-- The status bar's hints against the compiled tree.
use aku.Base.{
  ℕ, suc, Each, ◌≡◌, String, Bool, true, false, not, none, some, List, ◌∷◌, arith, if-cases,
}
use aku.KeyTrie.{KeyNode, Keys, no_keys, binding}
use aku.KeyBinding.{
  Binding, Bindings, bound, no_bindings, also, Context, key_of, help_of, is_visible, no_more,
  matches_context, put, insert_as, insert_binding, insert_all, compile, shows, KeyHint, shown_hints,
  status_hints,
}
use aku.KeyBinding.Lookup.{binding-put, same_refl}

abbrev pub has_key : String → Keys → Bool
has_key k ks = elim (binding ks k) [ none ↦ false | some _ ↦ true ]

has_key-put :
    (k j : String) (n : KeyNode) (ks : Keys) → has_key j ks ≡ true → has_key j (put k n ks) ≡ true
has_key-put k j n ks h = ground (arith, binding-put k j n ks)

has_key-put_self : (k : String) (n : KeyNode) (ks : Keys) → has_key k (put k n ks) ≡ true
has_key-put_self k n ks = ground (arith, binding-put k k n ks, same_refl k)

stays :
    (c : Context) (scope : String) (resources : List String) (visible : Bool) (b : Binding)
    (root : Keys) (j : String)
    → has_key j root ≡ true
    → has_key j (insert_as c scope resources visible b root) ≡ true
unfolding insert_as
stays c scope resources visible (bound k h cmd r s f v held ks) root j e =
    if-cases (λ x. has_key j x ≡ true) (not (matches_context c scope resources)) root _ (λ _. e)
      (λ _.
        if-cases (λ x. has_key j x ≡ true) (no_more ks) _ _ (λ _. has_key-put k j _ root e)
          (λ _. has_key-put k j _ root e))

comes :
    (c : Context) (scope : String) (resources : List String) (visible : Bool) (b : Binding)
    (root : Keys)
    → matches_context c scope resources ≡ true
    → has_key (key_of b) (insert_as c scope resources visible b root) ≡ true
unfolding insert_as
comes c scope resources visible (bound k h cmd r s f v held ks) root e = rw e (
    if-cases (λ x. has_key k x ≡ true) (no_more ks) _ _ (λ _. has_key-put_self k _ root)
      (λ _. has_key-put_self k _ root))

stays_all :
    (c : Context) (bs : Bindings) (root : Keys) (j : String)
    → has_key j root ≡ true
    → has_key j (insert_all c bs root) ≡ true
stays_all c no_bindings root j h = h
stays_all c (also b bs) root j h = stays_all c bs _ j (stays c _ _ (is_visible b) b root j h)

-- The key of each hint is bound.
abbrev pub AllBound : Keys → List KeyHint → Type 0
AllBound ks hs = Each (λ _ (h : KeyHint). has_key h.key ks ≡ true) 0 hs

shown-AllBound :
    (c : Context) (bs : Bindings) (root : Keys) (i : ℕ)
    → Each (λ _ (h : KeyHint). has_key h.key (insert_all c bs root) ≡ true) i (shown_hints c bs)
unfolding shown_hints
shown-AllBound c no_bindings root i = tt
shown-AllBound c (also b bs) root i =
    if-cases (Each (λ _ (h : KeyHint). has_key h.key (insert_all c (also b bs) root) ≡ true) i)
      (shows c b) (record { key = key_of b; help = help_of b } ∷ shown_hints c bs) _
      (λ on. (
        stays_all c bs (insert_binding c b root) (key_of b)
            (comes c _ _ (is_visible b) b root (ground arith)),
        shown-AllBound c bs (insert_binding c b root) (suc i),
      ))
      (λ _. shown-AllBound c bs (insert_binding c b root) i)

-- A key that the status bar shows is bound in the tree that is compiled for the same context, where
-- sorting keeps what all hints have.
pub status_hints-AllBound :
    (sort : List KeyHint → List KeyHint) (c : Context) (bs : Bindings)
    → ((P : KeyHint → Type 0) (hs : List KeyHint) → Each (λ _. P) 0 hs → Each (λ _. P) 0 (sort hs))
    → AllBound (compile c bs) (status_hints sort c bs)
status_hints-AllBound sort c bs sorts =
    sorts (λ h. has_key h.key (compile c bs) ≡ true) _ (shown-AllBound c bs no_keys 0)

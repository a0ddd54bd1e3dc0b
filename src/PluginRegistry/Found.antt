-- ===== src/PluginRegistry/Found.antt =====
-- What the lookups find.
use aku.Base.{
  ◌≡◌, ◌≢◌, refl, sym, ap, ◌∙◌, subst, String, Bool, true, false, Option, none, some, List, [], ◌∷◌,
  ◌++◌, length, ltb, str_eq, if◌then◌else◌, if-cases, eq_iff, Option-cases, lt→ltb, length-append,
  arith, Bool-cases, inl, inr, ◌⊎◌, string_key, Assoc, lookup, insert, has, lookup-insert,
  append-nil,
}
use mathlib.Core.Option.{some-injective}
use aku.K8s.Store.Names.{Gvr, gvr_key}
use aku.PluginRegistry.{
  ResourcePlugin, Plugins, no_plugins, all_by_name, enlisted, primary, with_short_name, register,
  register_if_absent, by_name, by_gvr, or_else,
}

pub data Reach : Plugins → Type 0 where
  started : Reach no_plugins
  registered : (p : ResourcePlugin) {r : Plugins} → Reach r → Reach (register p r)
  offered : (p : ResourcePlugin) {r : Plugins} → Reach r → Reach (register_if_absent p r).0

-- The plugins of a name, in order.
abbrev pub named : String → List ResourcePlugin → List ResourcePlugin
named n [] = []
named n (p ∷ ps) = let rest = named n ps in if str_eq p.name n then p ∷ rest else rest

-- The last plugin of a GVR.
abbrev pub last_of : Gvr → List ResourcePlugin → Option ResourcePlugin
last_of g [] = none
last_of g (p ∷ ps) = or_else (last_of g ps) (if gvr_key.same p.gvr g then some p else none)

abbrev pub Has : ResourcePlugin → List ResourcePlugin → Type 0
Has p [] = ⊥
Has p (q ∷ ps) = (q ≡ p) ⊎ Has p ps

-- What the map has at a key is a registered plugin whose field is the key.
abbrev pub Finds :
    (ResourcePlugin → String) → Assoc String ResourcePlugin → List ResourcePlugin → Type 0
Finds field m ps =
    (n : String) (p : ResourcePlugin) → lookup n m ≡ some p → (field p ≡ n) × Has p ps

pub record Tells (r : Plugins) : Type 0 where
  -- By name: all of the name, in the order of registration.
  pub all_of : (n : String) → all_by_name n r ≡ named n r.ordered
  -- By GVR: the plugin that was registered last.
  pub last : (g : Gvr) → by_gvr g r ≡ last_of g r.ordered
  -- A name has a plugin of that name, if one is registered.
  pub of_name :
      (n : String) (p : ResourcePlugin)
      → lookup n r.by_name ≡ some p
      → (p.name ≡ n) × Has p r.ordered
  pub if_any : (n : String) → has n r.by_name ≡ ltb 0 (length (named n r.ordered))
  pub of_short : Finds (λ p. p.short_name) r.by_short_name r.ordered

named-append :
    (n : String) (ps : List ResourcePlugin) (p : ResourcePlugin)
    → named n (ps ++ p ∷ []) ≡ named n ps ++ (if str_eq p.name n then p ∷ [] else [])
named-append n [] p = refl
named-append n (q ∷ ps) p = elim (Bool-cases (str_eq q.name n)) [
  | inl hit ↦ rw hit (ap (λ xs. q ∷ xs) (named-append n ps p))
  | inr other ↦ rw other (named-append n ps p)
]

last_of-append :
    (g : Gvr) (ps : List ResourcePlugin) (p : ResourcePlugin)
    → last_of g (ps ++ p ∷ []) ≡ (if gvr_key.same p.gvr g then some p else last_of g ps)
last_of-append g [] p = ground arith
last_of-append g (q ∷ ps) p =
    rw (last_of-append g ps p) (elim (Bool-cases (gvr_key.same p.gvr g)) [
      | inl hit ↦ rw hit refl
      | inr other ↦ rw other refl
    ])

Has-append :
    (q : ResourcePlugin) (ps : List ResourcePlugin) (p : ResourcePlugin)
    → Has q ps
    → Has q (ps ++ p ∷ [])
Has-append q [] p h = elim h [ ]
Has-append q (x ∷ ps) p (inl e) = inl e
Has-append q (x ∷ ps) p (inr h) = inr (Has-append q ps p h)

Has-last : (ps : List ResourcePlugin) (p : ResourcePlugin) → Has p (ps ++ p ∷ [])
Has-last [] p = inl refl
Has-last (q ∷ ps) p = inr (Has-last ps p)

none_named : (n : String) → all_by_name n no_plugins ≡ []
unfolding all_by_name lookup
none_named n = refl

none_last : (g : Gvr) → by_gvr g no_plugins ≡ none
unfolding by_gvr lookup
none_last g = refl

none_has : (n : String) → has n no_plugins.by_name ≡ false
unfolding lookup
none_has n = refl

none_found : (field : ResourcePlugin → String) → Finds field [] []
unfolding lookup
none_found field n p h = absurd (ground (arith, h))

module _ (field : ResourcePlugin → String) (m : Assoc String ResourcePlugin)
    (ps : List ResourcePlugin) (p : ResourcePlugin) (found : Finds field m ps) where
  Finds-append : Finds field m (ps ++ p ∷ [])
  Finds-append n q h = let (e, i) = found n q h in (e, Has-append q ps p i)

  Finds-insert : Finds field (insert (field p) p m) (ps ++ p ∷ [])
  Finds-insert n q h =
      let g : (if str_eq (field p) n then some p else lookup n m) ≡ some q =
        sym (lookup-insert (field p) n p m) ∙ h in
      elim (Bool-cases (str_eq (field p) n)) [
        | inl hit ↦
            let same : p ≡ q = some-injective p q (rw hit at g) in
            (
              ap field (sym same) ∙ (eq_iff (field p) n).0 hit,
              subst (λ x. Has x (ps ++ p ∷ [])) same (Has-last ps p),
            )
        | inr other ↦ Finds-append n q (rw other at g)
      ]

module _ (p : ResourcePlugin) (r : Plugins) (t : Tells r) where
  enlisted-all_of : (n : String) → all_by_name n (enlisted p r) ≡ named n (enlisted p r).ordered
  unfolding all_by_name
  enlisted-all_of n = rw (lookup-insert p.name n (all_by_name p.name r ++ p ∷ []) r.by_name_all) (
      rw (named-append n r.ordered p) (elim (Bool-cases (str_eq p.name n)) [
        | inl hit ↦
            let e : p.name ≡ n = (eq_iff p.name n).0 hit in
            rw hit (
              ap (λ xs. xs ++ p ∷ [])
                (subst (λ m. all_by_name m r ≡ named n r.ordered) (sym e) (t.all_of n)))
        | inr other ↦ rw other (t.all_of n ∙ sym (append-nil (named n r.ordered)))
      ]))

  enlisted-last : (g : Gvr) → by_gvr g (enlisted p r) ≡ last_of g (enlisted p r).ordered
  unfolding by_gvr
  enlisted-last g =
      rw (lookup-insert p.gvr g p r.by_gvr) (rw (last_of-append g r.ordered p) (rw (t.last g) refl))

  length-named :
      (n : String)
      → ltb 0 (length (named n (r.ordered ++ p ∷ [])))
        ≡ (if str_eq p.name n then true else ltb 0 (length (named n r.ordered)))
  length-named n = rw (named-append n r.ordered p) (elim (Bool-cases (str_eq p.name n)) [
    | inl hit ↦ rw hit (
        lt→ltb 0 (length (named n r.ordered ++ p ∷ []))
          (omega (arith, length-append (named n r.ordered) (p ∷ []))))
    | inr other ↦ rw other (ap (λ xs. ltb 0 (length xs)) (append-nil (named n r.ordered)))
  ])

  has-insert :
      (n : String)
      → has n (insert p.name p r.by_name) ≡ ltb 0 (length (named n (r.ordered ++ p ∷ [])))
  has-insert n =
      rw (has, lookup-insert p.name n p r.by_name)
        (rw (length-named n) (elim (Bool-cases (str_eq p.name n)) [
          | inl hit ↦ rw hit refl
          | inr other ↦ rw other (t.if_any n)
        ]))

  with_short_name-Finds :
      Finds (λ q. q.short_name) (with_short_name p r.by_short_name) (r.ordered ++ p ∷ [])
  with_short_name-Finds =
      if-cases (λ m. Finds (λ q. q.short_name) m (r.ordered ++ p ∷ [])) (str_eq p.short_name "")
        r.by_short_name (insert p.short_name p r.by_short_name)
        (λ _. Finds-append (λ q. q.short_name) r.by_short_name r.ordered p t.of_short)
        (λ _. Finds-insert (λ q. q.short_name) r.by_short_name r.ordered p t.of_short)

  primary-Tells : Tells (primary p (enlisted p r))
  unfolding all_by_name by_gvr
  primary-Tells = record {
    all_of = enlisted-all_of;
    last = enlisted-last;
    of_name = Finds-insert (λ q. q.name) r.by_name r.ordered p t.of_name;
    if_any = has-insert;
    of_short = with_short_name-Finds;
  }

  -- A plugin whose name another has.
  enlisted-Tells : has p.name r.by_name ≡ true → Tells (enlisted p r)
  enlisted-Tells h = record {
    all_of = enlisted-all_of;
    last = enlisted-last;
    of_name = Finds-append (λ q. q.name) r.by_name r.ordered p t.of_name;
    if_any = λ n. rw (length-named n) (elim (Bool-cases (str_eq p.name n)) [
      | inl hit ↦ rw hit (subst (λ m. has m r.by_name ≡ true) ((eq_iff p.name n).0 hit) h)
      | inr other ↦ rw other (t.if_any n)
    ]);
    of_short = Finds-append (λ q. q.short_name) r.by_short_name r.ordered p t.of_short;
  }

  register_if_absent-Tells : Tells (register_if_absent p r).0
  unfolding register_if_absent
  register_if_absent-Tells =
      if-cases (λ (x : Plugins × Bool). Tells x.0) (has p.gvr r.by_gvr) (r, false) _ (λ _. t)
        (λ _.
          if-cases (λ (x : Plugins × Bool). Tells x.0) (has p.name r.by_name) (enlisted p r, false)
            (primary p (enlisted p r), true) enlisted-Tells (λ _. primary-Tells))

-- In every registry that registrations give, the plugins of a name are those registered under it, in
-- order; a GVR has the plugin that was registered last for it; a name and a short name lead to a
-- registered plugin that has it, and a name leads to one if any has it.
pub Reach-Tells : {r : Plugins} → Reach r → Tells r
unfolding register
Reach-Tells started = record {
  all_of = λ n. none_named n;
  last = λ g. none_last g;
  of_name = none_found (λ p. p.name);
  if_any = none_has;
  of_short = none_found (λ p. p.short_name);
}
Reach-Tells (registered p {r} h) = primary-Tells p r (Reach-Tells h)
Reach-Tells (offered p {r} h) = register_if_absent-Tells p r (Reach-Tells h)

abbrev is_some : Option ResourcePlugin → Bool
is_some none = false
is_some (some p) = true

nil_of_length : (ps : List ResourcePlugin) → ltb 0 (length ps) ≡ false → ps ≡ []
nil_of_length [] h = refl
nil_of_length (p ∷ ps) h = absurd (ground arith)

-- `ByName` finds a plugin that has the name or, if no registered plugin has it as its name, as its
-- short name; it finds one whenever a plugin is registered under the name.
pub by_name_lem :
    {r : Plugins} (n : String)
    → Reach r
    → ((p : ResourcePlugin)
        → by_name n r ≡ some p
        → Has p r.ordered × ((p.name ≡ n) ⊎ ((p.short_name ≡ n) × (named n r.ordered ≡ []))))
      × (named n r.ordered ≢ [] → (p : ResourcePlugin) × (by_name n r ≡ some p) × (p.name ≡ n))
unfolding by_name
by_name_lem {r} n h =
    let t = Reach-Tells h in
    elim (Option-cases (lookup n r.by_name)) [
      | inl missing ↦
          let none_left : named n r.ordered ≡ [] =
            nil_of_length (named n r.ordered) (sym (t.if_any n) ∙ ap is_some missing) in
          (
            λ p e. let (short, i) = t.of_short n p (rw missing at e) in (i, inr (short, none_left)),
            λ ne. absurd (ne none_left),
          )
      | inr (q, hit) ↦ (
        λ p e.
            let same : q ≡ p = some-injective q p (rw hit at e) in
            let (name, i) = t.of_name n p (hit ∙ ap some same) in (i, inl name),
        λ ne. (q, rw hit refl, (t.of_name n q hit).0),
      )
    ]

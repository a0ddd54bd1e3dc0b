-- ===== src/Manifest/Namespaces.antt =====
-- The namespaces of what a manifest has.
use aku.Base.{
  ◌≡◌, ◌≢◌, refl, sym, ap, ◌∙◌, subst, String, Bool, true, false, ◌||◌, Option, none, some, List,
  [], ◌∷◌, ◌++◌, map, ◌⊎◌, inl, inr, str_eq, eq_iff, if◌then◌else◌, if-cases, arith, Bool-cases,
  Option-cases, string_key, Assoc, lookup, insert, has, lookup-insert,
}
use aku.Manifest.Objects.{Object, Env, is_cluster_scoped}
use aku.Manifest.Placement.{
  is_namespace, existing_names, with_namespace, used_names, missing_namespaces, fabricate_namespace,
  assign_namespaces,
}
use aku.Manifest.Owners.{In, In-append_left, In-append_right}

module _ {Spec : Type 0} (env : Env Spec) where
  -- A namespace object of that name.
  abbrev pub IsNamespace : String → Object Spec → Type 0
  IsNamespace ns o = (o.kind ≡ "Namespace") × (o.api_version ≡ "v1") × (o.name ≡ ns)

  abbrev pub HasNamespace : String → List (Object Spec) → Type 0
  HasNamespace ns os = (o : Object Spec) × In o os × IsNamespace ns o

  abbrev is_some : Option (Unit {0}) → Bool
  is_some none = false
  is_some (some u) = true

  has-lookup : (k : String) (m : Assoc {0, 0} String Unit) → has k m ≡ true → lookup k m ≡ some tt
  has-lookup k m h = elim (Option-cases (lookup k m)) [
    | inl missing ↦ absurd (ground (arith, missing))
    | inr (u, found) ↦ found
  ]

  -- A name that is known is that of a namespace object; stamping leaves it what it is.
  existing-In :
      (default_ns ns : String) (os : List (Object Spec))
      → has ns (existing_names env os) ≡ true
      → HasNamespace ns (map (with_namespace env default_ns) os)
  unfolding lookup
  existing-In d ns [] h = absurd (ground arith)
  existing-In d ns (o ∷ os) h = elim (Bool-cases (is_namespace env o)) [
    | inl hit ↦
        let g : (if str_eq o.name ns then some tt else lookup ns (existing_names env os))
            ≡ some tt =
          sym (lookup-insert o.name ns tt (existing_names env os))
          ∙ has-lookup ns (insert o.name tt (existing_names env os)) (rw hit at h) in
        elim (Bool-cases (str_eq o.name ns)) [
          | inl same ↦
              let kind : o.kind ≡ "Namespace" = (eq_iff o.kind "Namespace").0 (ground arith) in
              let version : o.api_version ≡ "v1" = (eq_iff o.api_version "v1").0 (ground arith) in
              let name : o.name ≡ ns = (eq_iff o.name ns).0 same in
              (
                with_namespace env d o,
                inl refl,
                if-cases (IsNamespace ns) (is_cluster_scoped o.kind) o _
                    (λ _. (kind, version, name)) (λ _. (kind, version, name)),
              )
          | inr other ↦
              let (p, i, n) = existing-In d ns os (ap is_some (rw other at g)) in (p, inr i, n)
        ]
    | inr other ↦ let (p, i, n) = existing-In d ns os (rw other at h) in (p, inr i, n)
  ]

  used-In :
      (ns : String) (existing used : Assoc {0, 0} String Unit)
      → has ns used ≡ true
      → has ns existing ≡ false
      → HasNamespace ns (missing_namespaces env existing used)
  unfolding lookup
  used-In ns existing [] h k = absurd (ground arith)
  used-In ns existing ((n, u) ∷ used) h k = elim (Bool-cases (str_eq n ns)) [
    | inl hit ↦
        let e = (eq_iff n ns).0 hit in
        let missing : has n existing ≡ false = subst (λ m. has m existing ≡ false) (sym e) k in
        rw missing (fabricate_namespace env n, inl refl, (refl, refl, e))
    | inr other ↦
        let (p, i, q) = used-In ns existing used (rw (has, other) at h) k in
        if-cases (HasNamespace ns) (has n existing) (missing_namespaces env existing used)
          (fabricate_namespace env n ∷ missing_namespaces env existing used) (λ _. (p, i, q))
          (λ _. (p, inr i, q))
  ]

  has-insert :
      (a k : String) (m : Assoc {0, 0} String Unit)
      → has k (insert a tt m) ≡ (if str_eq a k then true else has k m)
  has-insert a k m =
      ap is_some (lookup-insert a k tt m)
      ∙ elim (Bool-cases (str_eq a k)) [ inl hit ↦ rw hit refl | inr other ↦ rw other refl ]

  used_names-has :
      (o : Object Spec) (os : List (Object Spec))
      → In o os
      → is_cluster_scoped o.kind ≡ false
      → str_eq o.namespace "" ≡ false
      → has o.namespace (used_names env os) ≡ true
  used_names-has o [] i h k = elim i [ ]
  used_names-has o (x ∷ os) (inl e) h k =
      subst (λ y. has o.namespace (used_names env (y ∷ os)) ≡ true) (sym e)
        (rw (h, k)
          (has-insert o.namespace o.namespace (used_names env os)
            ∙ ap (λ b. if b then true else has o.namespace (used_names env os))
                ((eq_iff o.namespace o.namespace).1 refl)))
  used_names-has o (x ∷ os) (inr i) h k =
      let later = used_names-has o os i h k in
      if-cases (λ m. has o.namespace m ≡ true) (is_cluster_scoped x.kind || str_eq x.namespace "")
        (used_names env os) _ (λ _. later)
        (λ _.
          has-insert x.namespace o.namespace (used_names env os)
          ∙ ap (λ b. if str_eq x.namespace o.namespace then true else b) later
          ∙ if-cases (λ b. b ≡ true) (str_eq x.namespace o.namespace) true true (λ _. refl)
              (λ _. refl))

  missing_namespaces-scoped :
      (existing used : Assoc {0, 0} String Unit) (o : Object Spec)
      → In o (missing_namespaces env existing used)
      → is_cluster_scoped o.kind ≡ true
  missing_namespaces-scoped existing [] o = λ i. elim i [ ]
  missing_namespaces-scoped existing ((n, u) ∷ used) o =
      if-cases (λ xs. In o xs → is_cluster_scoped o.kind ≡ true) (has n existing)
        (missing_namespaces env existing used) _ (λ _. missing_namespaces-scoped existing used o)
        (λ _ i. elim i [
          | inl e ↦ ap (λ p. is_cluster_scoped p.kind) (sym e)
          | inr j ↦ missing_namespaces-scoped existing used o j
        ])

  In-split : (o : Object Spec) (xs ys : List (Object Spec)) → In o (xs ++ ys) → In o xs ⊎ In o ys
  In-split o [] ys i = inr i
  In-split o (x ∷ xs) ys (inl e) = inl (inl e)
  In-split o (x ∷ xs) ys (inr i) = elim (In-split o xs ys i) [ inl a ↦ inl (inr a) | inr b ↦ inr b ]

  with_namespace-empty :
      (default_ns : String) (x : Object Spec)
      → is_cluster_scoped (with_namespace env default_ns x).kind ≡ false
      → (with_namespace env default_ns x).namespace ≡ ""
      → default_ns ≡ ""
  with_namespace-empty d x h e = elim (Bool-cases (is_cluster_scoped x.kind)) [
    | inl scoped ↦ absurd (ground (arith, rw scoped at h))
    | inr other ↦ elim (Bool-cases (str_eq x.namespace "")) [
      | inl empty ↦ rw (other, empty) at e
      | inr named ↦
          let e2 : x.namespace ≡ "" = rw (other, named) at e in
          absurd (ground (arith, (eq_iff x.namespace "").1 e2, named))
    ]
  ]

  map-with_namespace-empty :
      (default_ns : String) (os : List (Object Spec)) (o : Object Spec)
      → In o (map (with_namespace env default_ns) os)
      → is_cluster_scoped o.kind ≡ false
      → o.namespace ≡ ""
      → default_ns ≡ ""
  map-with_namespace-empty d [] o i h e = elim i [ ]
  map-with_namespace-empty d (x ∷ os) o (inl p) h e =
      with_namespace-empty d x (ap (λ y. is_cluster_scoped y.kind) p ∙ h)
        (ap (λ y. y.namespace) p ∙ e)
  map-with_namespace-empty d (x ∷ os) o (inr i) h e = map-with_namespace-empty d os o i h e

  -- With a default namespace, each object of the result that is not cluster scoped has a namespace,
  -- and the result has a Namespace object of that name.
  pub assign_namespaces_lem :
      (default_ns : String) (os : List (Object Spec)) (o : Object Spec)
      → default_ns ≢ ""
      → In o (assign_namespaces env os default_ns)
      → is_cluster_scoped o.kind ≡ false
      → (o.namespace ≢ "") × HasNamespace o.namespace (assign_namespaces env os default_ns)
  unfolding assign_namespaces
  assign_namespaces_lem d os o nonempty i h =
      let stamped = map (with_namespace env d) os in
      let existing = existing_names env os in
      let added = missing_namespaces env existing (used_names env stamped) in
      elim (In-split o stamped added i) [
        | inr made ↦
            absurd
              (ground (arith, missing_namespaces-scoped existing (used_names env stamped) o made))
        | inl kept ↦
            let named : o.namespace ≢ "" =
              λ e. nonempty (map-with_namespace-empty d os o kept h e) in
            (
              named,
              elim (Bool-cases (has o.namespace existing)) [
                | inl known ↦
                    let (p, j, q) = existing-In d o.namespace os known in
                    (p, In-append_left p stamped added j, q)
                | inr unknown ↦
                    let used =
                      used_names-has o stamped kept h (elim (Bool-cases (str_eq o.namespace "")) [
                        | inl e ↦ absurd (named ((eq_iff o.namespace "").0 e))
                        | inr e ↦ e
                      ]) in
                    let (p, j, q) =
                      used-In o.namespace existing (used_names env stamped) used unknown in
                    (p, In-append_right p stamped added j, q)
              ],
            )
      ]

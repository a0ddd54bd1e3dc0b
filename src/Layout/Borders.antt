-- ===== src/Layout/Borders.antt =====
-- The borderless flags of the splits: how each edit of the splits carries them.
use aku.Base.{
  ℕ, zero, suc, ◌+◌, ◌<◌, ◌≡◌, refl, sym, ◌∙◌, Bool, false, ◌&&◌, List, [], ◌∷◌, ◌==◌, arith,
  length, modify, remove_at, swap_at, Each, Each-at, ==_iff, inl, inr, Bool-cases, get_elem?-of_lt,
  modify-modify_const, subst, ap,
}
use aku.Layout.Pane.{Pane, set_borderless}

-- No split is borderless.
abbrev pub Flat : ℕ → List Pane → Type 0
Flat k ps = Each (λ _ p. p.borderless ≡ false) k ps

-- The split at index `m` is borderless if `z`, and no other is.
abbrev pub Marked : ℕ → Bool → ℕ → List Pane → Type 0
Marked m z k ps = Each (λ i p. p.borderless ≡ (i == m && z)) k ps

Flat-of-past : (m : ℕ) (z : Bool) (k : ℕ) (ps : List Pane) → m < k → Marked m z k ps → Flat k ps
Flat-of-past m z k [] h e = tt
Flat-of-past m z k (p ∷ ps) h e =
    (ground (arith, e.0), Flat-of-past m z (suc k) ps (omega arith) e.1)

Marked-of-past : (m : ℕ) (z : Bool) (k : ℕ) (ps : List Pane) → m < k → Flat k ps → Marked m z k ps
Marked-of-past m z k [] h e = tt
Marked-of-past m z k (p ∷ ps) h e =
    (ground (arith, e.0), Marked-of-past m z (suc k) ps (omega arith) e.1)

pub Flat-of-unmarked : (m k : ℕ) (ps : List Pane) → Marked m false k ps → Flat k ps
Flat-of-unmarked m k [] e = tt
Flat-of-unmarked m k (p ∷ ps) e = (ground (arith, e.0), Flat-of-unmarked m (suc k) ps e.1)

pub Marked-of-Flat : (m k : ℕ) (ps : List Pane) → Flat k ps → Marked m false k ps
Marked-of-Flat m k [] e = tt
Marked-of-Flat m k (p ∷ ps) e = (ground (arith, e.0), Marked-of-Flat m (suc k) ps e.1)

-- Clearing the flag of the marked split.
pub Flat-modify :
    (f : Pane → Pane) (m i : ℕ) (z : Bool) (k : ℕ) (ps : List Pane)
    → m ≡ k + i
    → ((p : Pane) → (f p).borderless ≡ false)
    → Marked m z k ps
    → Flat k (modify i f ps)
Flat-modify f m i z k [] h c e = tt
Flat-modify f m zero z k (p ∷ ps) h c e = (c p, Flat-of-past m z (suc k) ps (omega arith) e.1)
Flat-modify f m (suc i) z k (p ∷ ps) h c e =
    (ground (arith, e.0), Flat-modify f m i z (suc k) ps (omega arith) c e.1)

-- Setting the flag of one split.
pub Marked-modify :
    (f : Pane → Pane) (m i : ℕ) (z : Bool) (k : ℕ) (ps : List Pane)
    → m ≡ k + i
    → ((p : Pane) → (f p).borderless ≡ z)
    → Flat k ps
    → Marked m z k (modify i f ps)
Marked-modify f m i z k [] h c e = tt
Marked-modify f m zero z k (p ∷ ps) h c e =
    (ground (arith, c p), Marked-of-past m z (suc k) ps (omega arith) e.1)
Marked-modify f m (suc i) z k (p ∷ ps) h c e =
    (ground (arith, e.0), Marked-modify f m i z (suc k) ps (omega arith) c e.1)

shift : (j k : ℕ) (ps : List Pane) → Flat j ps → Flat k ps
shift j k [] e = tt
shift j k (p ∷ ps) e = (e.0, shift (suc j) (suc k) ps e.1)

-- Without the marked split none is borderless.
pub Flat-remove_at :
    (m i : ℕ) (z : Bool) (k : ℕ) (ps : List Pane)
    → m ≡ k + i
    → Marked m z k ps
    → Flat k (remove_at i ps)
Flat-remove_at m i z k [] h e = tt
Flat-remove_at m zero z k (p ∷ ps) h e =
    shift (suc k) k ps (Flat-of-past m z (suc k) ps (omega arith) e.1)
Flat-remove_at m (suc i) z k (p ∷ ps) h e =
    (ground (arith, e.0), Flat-remove_at m i z (suc k) ps (omega arith) e.1)

-- The flag of the split at `i` goes with it to `j`.
pub Marked-swap_at :
    (i j : ℕ) (z : Bool) (ps : List Pane)
    → i < length ps
    → j < length ps
    → Marked i z 0 ps
    → Marked j z 0 (swap_at i j ps)
Marked-swap_at i j z ps hi hj e =
    let (a, ha) = get_elem?-of_lt ps i hi in
    let (b, hb) = get_elem?-of_lt ps j hj in
    let at_i : a.borderless ≡ (0 + i == i && z) =
      Each-at (λ k p. p.borderless ≡ (k == i && z)) 0 i a ps e ha in
    let at_j : b.borderless ≡ (0 + j == i && z) =
      Each-at (λ k p. p.borderless ≡ (k == i && z)) 0 j b ps e hb in
    rw (ha, hb)
      (elim (Bool-cases (i == j)) [
        | inl same ↦
            let eq : i ≡ j = (==_iff i j).0 same in
            subst (Marked j z 0)
              (modify-modify_const j a (set_borderless false) ps
                ∙ sym (modify-modify_const j a (λ _. b) ps)
                ∙ ap (λ k. modify j (λ _. a) (modify k (λ _. b) ps)) (sym eq))
              (Marked-modify (λ _. a) j j z 0 (modify j (set_borderless false) ps) (omega arith)
                (λ _. ground arith)
                (Flat-modify (set_borderless false) i j z 0 ps (omega arith) (λ _. refl) e))
        | inr other ↦
            Marked-modify (λ _. a) j j z 0 (modify i (λ _. b) ps) (omega arith) (λ _. ground arith)
              (Flat-modify (λ _. b) i i z 0 ps (omega arith) (λ _. ground arith) e)
      ])

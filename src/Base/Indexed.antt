-- ===== src/Base/Indexed.antt =====
-- Loops over a slice by index, and editing a slice at an index (Go's `slices.Insert`, `append` of
-- two parts, assignment to an element).
use Prim.Native.Nat.{ℕ, zero, suc, ◌+◌, ◌<◌}
use mathlib.Core.Path.{◌≡◌, refl, ap, ◌∙◌, subst}
use mathlib.Core.List.{List, [], ◌∷◌}
use native.Mathlib.Omega.{arith}
use aku.Base.Lists.{length, get_elem?}
use mathlib.Core.Option.{Option, none, some, some-injective}

module _ {ℓ κ} {A : Type ℓ} {B : Type κ} where
  -- `for i := range xs { … }`, the first index being `i`.
  abbrev pub map_index : (ℕ → A → B) → ℕ → List A → List B
  map_index f i [] = []
  map_index f i (x ∷ xs) = f i x ∷ map_index f (suc i) xs

  pub length-map_index :
      (f : ℕ → A → B) (i : ℕ) (xs : List A) → length (map_index f i xs) ≡ length xs
  length-map_index f i [] = refl
  length-map_index f i (x ∷ xs) = ap suc (length-map_index f (suc i) xs)

module _ {ℓ} {A : Type ℓ} where
  -- The values of `f` at `n` indices from `i` on.
  abbrev pub tabulate : (ℕ → A) → ℕ → ℕ → List A
  tabulate f i zero = []
  tabulate f i (suc n) = f i ∷ tabulate f (suc i) n

  -- An index past the end inserts at the end; Go panics there.
  abbrev pub insert_at : ℕ → A → List A → List A
  insert_at zero y xs = y ∷ xs
  insert_at (suc i) y [] = y ∷ []
  insert_at (suc i) y (x ∷ xs) = x ∷ insert_at i y xs

  abbrev pub remove_at : ℕ → List A → List A
  remove_at i [] = []
  remove_at zero (x ∷ xs) = xs
  remove_at (suc i) (x ∷ xs) = x ∷ remove_at i xs

  abbrev pub modify : ℕ → (A → A) → List A → List A
  modify i f [] = []
  modify zero f (x ∷ xs) = f x ∷ xs
  modify (suc i) f (x ∷ xs) = x ∷ modify i f xs

  abbrev pub exchange : ℕ → ℕ → List A → Option A → Option A → List A
  exchange i j xs (some a) (some b) = modify j (λ _. a) (modify i (λ _. b) xs)
  exchange i j xs (some a) none = xs
  exchange i j xs none b = xs

  -- `xs[i], xs[j] = xs[j], xs[i]`; nothing where an index is out of range (Go panics there).
  abbrev pub swap_at : ℕ → ℕ → List A → List A
  swap_at i j xs = exchange i j xs (get_elem? xs i) (get_elem? xs j)

  pub length-insert_at : (i : ℕ) (y : A) (xs : List A) → length (insert_at i y xs) ≡ suc (length xs)
  length-insert_at zero y xs = refl
  length-insert_at (suc i) y [] = refl
  length-insert_at (suc i) y (x ∷ xs) = ap suc (length-insert_at i y xs)

  pub length-remove_at :
      (i : ℕ) (xs : List A) → i < length xs → suc (length (remove_at i xs)) ≡ length xs
  length-remove_at i [] h = absurd (omega arith)
  length-remove_at zero (x ∷ xs) h = refl
  length-remove_at (suc i) (x ∷ xs) h = ap suc (length-remove_at i xs (omega arith))

  pub length-modify : (i : ℕ) (f : A → A) (xs : List A) → length (modify i f xs) ≡ length xs
  length-modify i f [] = refl
  length-modify zero f (x ∷ xs) = refl
  length-modify (suc i) f (x ∷ xs) = ap suc (length-modify i f xs)

  pub modify-modify_const :
      (i : ℕ) (y : A) (f : A → A) (xs : List A)
      → modify i (λ _. y) (modify i f xs) ≡ modify i (λ _. y) xs
  modify-modify_const i y f [] = refl
  modify-modify_const zero y f (x ∷ xs) = refl
  modify-modify_const (suc i) y f (x ∷ xs) = ap (λ r. x ∷ r) (modify-modify_const i y f xs)

  pub length-swap_at : (i j : ℕ) (xs : List A) → length (swap_at i j xs) ≡ length xs
  length-swap_at i j xs = go (get_elem? xs i) (get_elem? xs j)
    where
      go : (a b : Option A) → length (exchange i j xs a b) ≡ length xs
      go (some a) (some b) = length-modify j (λ _. a) _ ∙ length-modify i (λ _. b) xs
      go (some a) none = refl
      go none b = refl

  -- `P` at each index and element, the first index being `i`.
  abbrev pub Each {κ} : (ℕ → A → Type κ) → ℕ → List A → Type κ
  Each P i [] = Unit
  Each P i (x ∷ xs) = P i x × Each P (suc i) xs

  pub Each-of {κ} :
      {P : ℕ → A → Type κ} (i : ℕ) (xs : List A) → ((j : ℕ) (x : A) → P j x) → Each P i xs
  Each-of i [] h = tt
  Each-of i (x ∷ xs) h = (h i x, Each-of (suc i) xs h)

  pub Each-insert_at {κ} :
      (P : A → Type κ) (i j k : ℕ) (y : A) (xs : List A)
      → P y
      → Each (λ _. P) j xs
      → Each (λ _. P) k (insert_at i y xs)
  Each-insert_at P zero j k y xs h e = (h, shift j (suc k) xs e)
    where
      shift : (j k : ℕ) (xs : List A) → Each (λ _. P) j xs → Each (λ _. P) k xs
      shift j k [] e = tt
      shift j k (x ∷ xs) e = (e.0, shift (suc j) (suc k) xs e.1)
  Each-insert_at P (suc i) j k y [] h e = (h, tt)
  Each-insert_at P (suc i) j k y (x ∷ xs) h e = (e.0, Each-insert_at P i (suc j) (suc k) y xs h e.1)

  -- The element at position `i` has `P`.
  pub Each-at {κ} :
      (P : ℕ → A → Type κ) (k i : ℕ) (x : A) (xs : List A)
      → Each P k xs
      → get_elem? xs i ≡ some x
      → P (k + i) x
  Each-at P k i x [] e h = cc
  Each-at P k zero x (y ∷ xs) e h =
      let at : k ≡ k + 0 = omega arith in
      subst (P (k + 0)) (some-injective y x h) (subst (λ j. P j y) at e.0)
  Each-at P k (suc i) x (y ∷ xs) e h =
      let at : suc k + i ≡ k + suc i = omega arith in
      subst (λ j. P j x) at (Each-at P (suc k) i x xs e.1 h)

  pub Each-map {κ ρ} :
      (P : ℕ → A → Type κ) (Q : ℕ → A → Type ρ) (k : ℕ) (xs : List A)
      → ((j : ℕ) (x : A) → P j x → Q j x)
      → Each P k xs
      → Each Q k xs
  Each-map P Q k [] h e = tt
  Each-map P Q k (x ∷ xs) h e = (h k x e.0, Each-map P Q (suc k) xs h e.1)

  pub Each-modify {κ} :
      (P : ℕ → A → Type κ) (f : A → A) (k i : ℕ) (xs : List A)
      → ((j : ℕ) (x : A) → P j x → P j (f x))
      → Each P k xs
      → Each P k (modify i f xs)
  Each-modify P f k i [] h e = tt
  Each-modify P f k zero (x ∷ xs) h e = (h k x e.0, e.1)
  Each-modify P f k (suc i) (x ∷ xs) h e = (e.0, Each-modify P f (suc k) i xs h e.1)

module _ {ℓ κ ρ} {A : Type ℓ} {B : Type κ} where
  pub Each-map_index {σ} :
      (P : ℕ → A → Type ρ) (Q : ℕ → B → Type σ) (f : ℕ → A → B) (i : ℕ) (xs : List A)
      → ((j : ℕ) (x : A) → P j x → Q j (f j x))
      → Each P i xs
      → Each Q i (map_index f i xs)
  Each-map_index P Q f i [] h e = tt
  Each-map_index P Q f i (x ∷ xs) h e = (h i x e.0, Each-map_index P Q f (suc i) xs h e.1)

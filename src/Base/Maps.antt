-- ===== src/Base/Maps.antt =====
-- Go maps as association lists, whose order has no meaning; a key that is missing is none.
use mathlib.Core.Path.{◌≡◌, refl}
use mathlib.Core.Logic.{◌↔◌, inl, inr}
use mathlib.Core.Bool.{Bool, true, false}
use mathlib.Core.List.{List, [], ◌∷◌}
use mathlib.Core.Option.{Option, none, some}
use Prim.Native.String.{String}
use native.Mathlib.Omega.{arith}
use text.Mathlib.Text.{◌==◌ as str_eq}
use text.Mathlib.TextEquality.{eq_iff}
use aku.Base.Tests.{if◌then◌else◌, Bool-cases}

-- Equality of keys, decided.
pub record KeyEq {ℓ} (K : Type ℓ) : Type ℓ where
  pub same : K → K → Bool
  pub same_iff : (a b : K) → (same a b ≡ true) ↔ (a ≡ b)

instance abbrev pub string_key : KeyEq String
string_key = record { same = str_eq; same_iff = eq_iff }

abbrev pub Assoc {ℓ κ} : Type ℓ → Type κ → Type (ℓ ⊔ κ)
Assoc K V = List (K × V)

module _ {ℓ κ} {K : Type ℓ} {V : Type κ} ⦃e : KeyEq K⦄ where
  unfoldable pub lookup : K → Assoc K V → Option V
  lookup k [] = none
  lookup k ((j, v) ∷ m) = if e.same j k then some v else lookup k m

  unfoldable pub delete : K → Assoc K V → Assoc K V
  delete k [] = []
  delete k ((j, v) ∷ m) = let rest = delete k m in if e.same j k then rest else (j, v) ∷ rest

  -- `m[k] = v`.
  unfoldable pub insert : K → V → Assoc K V → Assoc K V
  unfolding delete
  insert k v m = (k, v) ∷ delete k m

  pub lookup-delete :
      (k j : K) (m : Assoc K V) → lookup j (delete k m) ≡ (if e.same k j then none else lookup j m)
  unfolding lookup delete
  lookup-delete k j [] = ground arith
  lookup-delete k j ((i, v) ∷ m) =
      ground (arith, lookup-delete k j m, e.same_iff i k, e.same_iff i j, e.same_iff k j)

  pub lookup-insert :
      (k j : K) (v : V) (m : Assoc K V)
      → lookup j (insert k v m) ≡ (if e.same k j then some v else lookup j m)
  unfolding lookup delete insert
  lookup-insert k j v m = ground (arith, lookup-delete k j m)

  -- Each key stands once.
  abbrev pub Unique : Assoc K V → Type κ
  Unique [] = Unit
  Unique ((k, v) ∷ m) = (lookup k m ≡ none) × Unique m

  pub delete-Unique : (k : K) (m : Assoc K V) → Unique m → Unique (delete k m)
  unfolding lookup delete
  delete-Unique k [] u = tt
  delete-Unique k ((j, v) ∷ m) u = elim (Bool-cases (e.same j k)) [
    | inl hit ↦ rw hit (delete-Unique k m u.1)
    | inr other ↦ rw other (ground (arith, lookup-delete k j m), delete-Unique k m u.1)
  ]

  pub insert-Unique : (k : K) (v : V) (m : Assoc K V) → Unique m → Unique (insert k v m)
  unfolding lookup delete insert
  insert-Unique k v m u = (ground (arith, lookup-delete k k m, e.same_iff k k), delete-Unique k m u)

  pub delete_missing : (k : K) (m : Assoc K V) → lookup k m ≡ none → delete k m ≡ m
  unfolding lookup delete
  delete_missing k [] h = refl
  delete_missing k ((j, v) ∷ m) h = ground (arith, delete_missing k m)

  abbrev pub has : K → Assoc K V → Bool
  has k m = elim (lookup k m) [ none ↦ false | some _ ↦ true ]

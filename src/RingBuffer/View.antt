-- ===== src/RingBuffer/View.antt =====
-- The cells of one circular array in logical order, and how writes and bulk copies show there.
use native.Mathlib.Nat.{mod-eq_of_lt, mod-lt, suc-mod, add-mod_right, mod-add-mod, mod-eq-sub-mod}
use native.Mathlib.Decide.{dec_lt, dec_le}
use aku.Base.{
  ℕ, zero, suc, ◌+◌, ◌-◌, ◌%◌, ◌≤◌, ◌<◌, ◌≡◌, refl, ap, ap₂, sym, ◌∙◌, ◌≢◌, inl, inr, List, [], ◌∷◌,
  ◌++◌, arith, length, get_or, set, take, drop, get_or-set_self, get_or-set_ne, drop-cons, leb,
  length-drop, Bool-cases, leb→le, drop_all, take_all, min, take-length,
}
use aku.RingBuffer.{bulk_copy}

module _ {ℓ} {A : Type ℓ} (arr : List A) (cap : ℕ) (z : A) where
  -- `n` cells from position `p` on, positions counted modulo the capacity.
  abbrev pub cells : ℕ → ℕ → List A
  cells p zero = []
  cells p (suc n) = get_or arr (p % cap) z ∷ cells (suc p) n

  pub length-cells : (p n : ℕ) → length (cells p n) ≡ n
  length-cells p zero = refl
  length-cells p (suc n) = ap suc (length-cells (suc p) n)

  pub cells-add : (p m n : ℕ) → cells p (m + n) ≡ cells p m ++ cells (p + m) n
  cells-add p zero n = ap₂ cells (omega arith) (omega arith)
  cells-add p (suc m) n =
      ap (cells p) {y = suc (m + n)} (omega arith)
      ∙ ap (λ r. get_or arr (p % cap) z ∷ r)
          (cells-add (suc p) m n ∙ ap (λ q. cells (suc p) m ++ cells q n) (omega arith))

  suc_congr : (p q : ℕ) → p % cap ≡ q % cap → suc p % cap ≡ suc q % cap
  suc_congr p q e = suc-mod p cap ∙ ap (λ r. suc r % cap) e ∙ sym (suc-mod q cap)

  -- Positions that agree modulo the capacity show the same cells.
  pub cells_congr : (p q n : ℕ) → p % cap ≡ q % cap → cells p n ≡ cells q n
  cells_congr p q zero e = refl
  cells_congr p q (suc n) e =
      ap₂ (λ i r. get_or arr i z ∷ r) e (cells_congr (suc p) (suc q) n (suc_congr p q e))

  pub get_or-cells : (p n i : ℕ) → i < n → get_or (cells p n) i z ≡ get_or arr ((p + i) % cap) z
  get_or-cells p zero i h = absurd (omega arith)
  get_or-cells p (suc n) zero h = ap (λ k. get_or arr (k % cap) z) (omega arith)
  get_or-cells p (suc n) (suc i) h =
      get_or-cells (suc p) n i (omega arith) ∙ ap (λ k. get_or arr (k % cap) z) (omega arith)

  pub take-cells : (p m n : ℕ) → n ≤ m → take n (cells p m) ≡ cells p n
  take-cells p m zero h = refl
  take-cells p zero (suc n) h = absurd (omega arith)
  take-cells p (suc m) (suc n) h =
      ap (λ r. get_or arr (p % cap) z ∷ r) (take-cells (suc p) m n (omega arith))

  pub drop-cells : (p m s : ℕ) → s ≤ m → drop s (cells p m) ≡ cells (p + s) (m - s)
  drop-cells p m zero h = ap₂ cells (omega arith) (omega arith)
  drop-cells p zero (suc s) h = absurd (omega arith)
  drop-cells p (suc m) (suc s) h =
      drop-cells (suc p) m s (omega arith) ∙ ap₂ cells (omega arith) (omega arith)

  -- A sub-slice of a run is a run, cut at its end.
  pub cells_slice : (p m s n : ℕ) → take n (drop s (cells p m)) ≡ cells (p + s) (min n (m - s))
  cells_slice p m s n = elim (dec_le s m) [
    | yes inside ↦ ap (take n) (drop-cells p m s inside) ∙ cut (p + s) (m - s)
    | no beyond ↦
        ap (take n) (drop_all s (cells p m) (omega (arith, length-cells p m)))
        ∙ take_all n [] (omega arith)
        ∙ ap (cells (p + s)) {x = 0} (omega arith)
  ]
    where
      cut : (q k : ℕ) → take n (cells q k) ≡ cells q (min n k)
      cut q k = elim (dec_le n k) [
        | yes short ↦ take-cells q k n short ∙ ap (cells q) (omega arith)
        | no long ↦
            take_all n (cells q k) (omega (arith, length-cells q k)) ∙ ap (cells q) (omega arith)
      ]

  module _ (full : length arr ≡ cap) where
    -- A run of cells that does not pass the end of the array is a slice of it.
    take-drop : (q n : ℕ) → q + n ≤ cap → take n (drop q arr) ≡ cells q n
    take-drop q zero h = refl
    take-drop q (suc n) h =
        ap (take (suc n)) (drop-cons q arr z (omega arith))
        ∙ ap₂ (λ i r. get_or arr i z ∷ r) (sym (mod-eq_of_lt {n = q} (omega arith)))
            (take-drop (suc q) n (omega arith))

    tail_cells : (q : ℕ) → q ≤ cap → drop q arr ≡ cells q (cap - q)
    tail_cells q h =
        sym (take-length (drop q arr))
        ∙ ap (λ k. take k (drop q arr)) {y = cap - q} (omega (arith, length-drop q arr))
        ∙ take-drop q (cap - q) (omega arith)

    wrapped : (q k : ℕ) → q ≤ cap → k ≤ cap → drop q arr ++ take k arr ≡ cells q (cap - q + k)
    wrapped q k hq hk =
        ap₂ ◌++◌ (tail_cells q hq)
          (take-drop 0 k (omega arith) ∙ cells_congr 0 (q + (cap - q)) k back)
        ∙ sym (cells-add q (cap - q) k)
      where
        back : 0 % cap ≡ (q + (cap - q)) % cap
        back = sym (add-mod_right 0 cap) ∙ ap (λ r. r % cap) (omega arith)

    -- The two bulk copies are the `n` cells from `q` on.
    pub bulk_copy-cells : (q n : ℕ) → q < cap → n ≤ cap → bulk_copy cap arr q n ≡ cells q n
    bulk_copy-cells q n hq hn = elim (Bool-cases (leb (q + n) cap)) [
      | inl fits ↦ rw fits (take-drop q n (leb→le _ _ fits))
      | inr over ↦
          rw over
            (wrapped q (n - (cap - q)) (omega arith) (omega arith) ∙ ap (cells q) (ground arith))
    ]

-- Two positions less than a full turn apart are different cells.
pub mod-ne : (cap p k : ℕ) → 0 < k → k < cap → (p + k) % cap ≢ p % cap
mod-ne cap p k h0 h e = elim (dec_lt (p % cap + k) cap) [
  | yes small ↦ omega (arith, mod-add-mod p cap k, mod-eq_of_lt small)
  | no large ↦ omega (
    arith,
    mod-add-mod p cap k,
    mod-lt p {m = cap} (omega arith),
    mod-eq-sub-mod {n = p % cap + k} {m = cap} (omega arith),
    mod-eq_of_lt {n = p % cap + k - cap} {m = cap}
        (omega (arith, mod-lt p {m = cap} (omega arith))),
  )
]

module _ {ℓ} {A : Type ℓ} (arr : List A) (cap : ℕ) (z v : A) where
  -- A write to a cell outside the run does not show.
  pub cells-set_ne :
      (i p n : ℕ)
      → ((k : ℕ) → k < n → i ≢ (p + k) % cap)
      → cells (set arr i v) cap z p n ≡ cells arr cap z p n
  cells-set_ne i p zero out = refl
  cells-set_ne i p (suc n) out =
      ap₂ ◌∷◌
        (get_or-set_ne arr i (p % cap) v z
          (λ e. out 0 (omega arith) (e ∙ ap (λ r. r % cap) (omega arith))))
        (cells-set_ne i (suc p) n
          (λ k hk e. out (suc k) (omega arith) (e ∙ ap (λ r. r % cap) (omega arith))))

  -- A write to the cell just past a run extends it.
  pub cells-set_end :
      (p n : ℕ)
      → n < cap
      → length arr ≡ cap
      → cells (set arr ((p + n) % cap) v) cap z p (suc n) ≡ cells arr cap z p n ++ v ∷ []
  cells-set_end p n h full =
      ap (cells written cap z p) {x = suc n} {y = n + 1} (omega arith)
      ∙ cells-add written cap z p n 1
      ∙ ap₂ ◌++◌ (cells-set_ne ((p + n) % cap) p n apart)
          (ap (λ a. a ∷ []) (get_or-set_self arr ((p + n) % cap) v z inside))
    where
      written : List A
      written = set arr ((p + n) % cap) v

      inside : (p + n) % cap < length arr
      inside = omega (arith, mod-lt (p + n) {m = cap} (omega arith))

      apart : (k : ℕ) → k < n → (p + n) % cap ≢ (p + k) % cap
      apart k hk e =
          mod-ne cap (p + k) (n - k) (omega arith) (omega arith)
            (ap (λ r. r % cap) (omega arith) ∙ e)

  -- An overwrite of one cell of a run of at most a full turn shows at its place alone.
  pub cells-set_self :
      (p n i : ℕ)
      → i < n
      → n ≤ cap
      → length arr ≡ cap
      → cells (set arr ((p + i) % cap) v) cap z p n ≡ set (cells arr cap z p n) i v
  cells-set_self p zero i h hn full = absurd (omega arith)
  cells-set_self p (suc n) zero h hn full =
      ap₂ ◌∷◌
        (ap (λ k. get_or (set arr (k % cap) v) (p % cap) z) {x = p + 0} {y = p} (omega arith)
          ∙ get_or-set_self arr (p % cap) v z (omega (arith, mod-lt p {m = cap} (omega arith))))
        (cells-set_ne ((p + 0) % cap) (suc p) n (λ k hk e.
          mod-ne cap p (suc k) (omega arith) (omega arith) (
            ap (λ r. r % cap) {x = p + suc k} {y = suc p + k} (omega arith)
            ∙ sym e
            ∙ ap (λ r. r % cap) {x = p + 0} {y = p} (omega arith))))
  cells-set_self p (suc n) (suc i) h hn full =
      ap₂ ◌∷◌
        (get_or-set_ne arr ((p + suc i) % cap) (p % cap) v z
          (mod-ne cap p (suc i) (omega arith) (omega arith)))
        (ap (λ k. cells (set arr (k % cap) v) cap z (suc p) n) {x = p + suc i} {y = suc p + i}
            (omega arith)
          ∙ cells-set_self (suc p) n i (omega arith) (omega arith) full)

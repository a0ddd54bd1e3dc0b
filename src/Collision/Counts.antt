-- ===== src/Collision/Counts.antt =====
-- How many entries of a name the picker has, and how many show it alone.
use aku.Base.{
  ℕ, suc, ◌+◌, ◌≤◌, ◌≡◌, refl, sym, ap, ◌∙◌, subst, String, Bool, true, false, not, ◌&&◌, List, [],
  ◌∷◌, length, ltb, min, ◌==◌, str_eq, eq_iff, if◌then◌else◌, if-cases, arith, Bool-cases, inl, inr,
}
use aku.FuzzyMatch.{PluginEntry}
use aku.Collision.{
  with_name, Verdict, leave, qualify_others, keep_first, qualify_all, is_none, push,
  is_built_in_group, verdict, has_built_in, has_non_built_in, mark_entry, mark_from,
  mark_collisions,
}

-- The entries of a name that show it alone.
abbrev pub count_bare : String → List PluginEntry → ℕ
count_bare n [] = 0
count_bare n (e ∷ es) = (if str_eq e.name n && not e.qualified then 1 else 0) + count_bare n es

abbrev pub AllBare : List PluginEntry → Type 0
AllBare [] = Unit {0}
AllBare (e ∷ es) = (e.qualified ≡ false) × AllBare es

module _ (is_k8s_io : String → Bool) where
  abbrev pub count_built_in : List PluginEntry → ℕ
  count_built_in [] = 0
  count_built_in (e ∷ es) =
      (if is_built_in_group is_k8s_io e.group then 1 else 0) + count_built_in es

  -- Of the entries of one name, how many are left and how many show the name alone.
  abbrev pub left : Verdict → Bool → List PluginEntry → ℕ
  left keep_first true es = min 1 (length es)
  left keep_first false es = 0
  left leave first es = length es
  left qualify_others first es = length es
  left qualify_all first es = length es

  abbrev pub bare : Verdict → Bool → List PluginEntry → ℕ
  bare keep_first true es = min 1 (length es)
  bare keep_first false es = 0
  bare leave first es = length es
  bare qualify_others first es = count_built_in es
  bare qualify_all first es = 0

  -- One entry of the name.
  marked :
      (n : String) (v : Verdict) (first : Bool) (e : PluginEntry) (es later : List PluginEntry)
      → str_eq e.name n ≡ true
      → e.qualified ≡ false
      → length (with_name n later) ≡ left v false es
      → count_bare n later ≡ bare v false es
      → (length (with_name n (push (mark_entry is_k8s_io v first e) later)) ≡ left v first (e ∷ es))
        × (count_bare n (push (mark_entry is_k8s_io v first e) later) ≡ bare v first (e ∷ es))
  unfolding mark_entry
  marked n leave first e es later h k l b = rw (h, k) (ap suc l, omega (arith, b))
  marked n qualify_others first e es later h k l b =
      elim (Bool-cases (is_built_in_group is_k8s_io e.group)) [
        | inl built_in ↦ rw (built_in, h, k) (ap suc l, omega (arith, b))
        | inr other ↦ rw (other, h) (ap suc l, omega (arith, b))
      ]
  marked n keep_first true e es later h k l b = rw (h, k) (ground (arith, l), ground (arith, b))
  marked n keep_first false e es later h k l b = (l, b)
  marked n qualify_all first e es later h k l b = rw h (ap suc l, omega (arith, b))

  -- An entry of another name.
  skipped :
      (n : String) (v : Verdict) (first : Bool) (e : PluginEntry) (later : List PluginEntry)
      → str_eq e.name n ≡ false
      → (length (with_name n (push (mark_entry is_k8s_io v first e) later))
          ≡ length (with_name n later))
        × (count_bare n (push (mark_entry is_k8s_io v first e) later) ≡ count_bare n later)
  unfolding mark_entry
  skipped n leave first e later h = rw h (refl, omega arith)
  skipped n qualify_others first e later h =
      elim (Bool-cases (is_built_in_group is_k8s_io e.group)) [
        | inl built_in ↦ rw (built_in, h) (refl, omega arith)
        | inr other ↦ rw (other, h) (refl, omega arith)
      ]
  skipped n keep_first true e later h = rw h (refl, omega arith)
  skipped n keep_first false e later h = (refl, refl)
  skipped n qualify_all first e later h = rw h (refl, omega arith)

  none_left : (v : Verdict) (first : Bool) → (0 ≡ left v first []) × (0 ≡ bare v first [])
  none_left leave first = (refl, refl)
  none_left qualify_others first = (refl, refl)
  none_left keep_first true = (omega arith, omega arith)
  none_left keep_first false = (refl, refl)
  none_left qualify_all first = (refl, refl)

  abbrev Counted : String → List PluginEntry → Verdict → Bool → List PluginEntry → Type 0
  Counted n out v first es =
      (length (with_name n out) ≡ left v first es) × (count_bare n out ≡ bare v first es)

  counts_from :
      (n : String) (all seen es : List PluginEntry)
      → AllBare es
      → Counted n
          (mark_from is_k8s_io all seen es)
          (verdict is_k8s_io (with_name n all))
          (is_none (with_name n seen))
          (with_name n es)
  unfolding mark_from
  counts_from n all seen [] h =
      none_left (verdict is_k8s_io (with_name n all)) (is_none (with_name n seen))
  counts_from n all seen (e ∷ es) (k, ks) =
      let later = mark_from is_k8s_io all (e ∷ seen) es in
      let v = verdict is_k8s_io (with_name n all) in
      let ih = counts_from n all (e ∷ seen) es ks in
      elim (Bool-cases (str_eq e.name n)) [
        | inl hit ↦
            let ih' : Counted n later v false (with_name n es) = rw hit at ih in
            rw hit (
              subst
                (λ m.
                  Counted n
                    (push
                      (mark_entry is_k8s_io (verdict is_k8s_io (with_name m all))
                        (is_none (with_name m seen)) e)
                      later)
                    v (is_none (with_name n seen)) (e ∷ with_name n es))
                (sym ((eq_iff e.name n).0 hit))
                (marked n v (is_none (with_name n seen)) e (with_name n es) later hit k ih'.0
                  ih'.1))
        | inr other ↦
            let ih' : Counted n later v (is_none (with_name n seen)) (with_name n es) =
              rw other at ih in
            let s =
              skipped n (verdict is_k8s_io (with_name e.name all)) (is_none (with_name e.name seen))
                e later other in
            rw other (s.0 ∙ ih'.0, s.1 ∙ ih'.1)
      ]

  length-count :
      (es : List PluginEntry)
      → (count_built_in es ≤ length es)
        × (has_built_in is_k8s_io es ≡ ltb 0 (count_built_in es))
        × (has_non_built_in is_k8s_io es ≡ ltb (count_built_in es) (length es))
  length-count [] = (omega arith, refl, refl)
  length-count (e ∷ es) =
      let (le, some, other) = length-count es in
      elim (Bool-cases (is_built_in_group is_k8s_io e.group)) [
        | inl hit ↦ rw hit (ground (arith, le), ground (arith, le), ground (arith, le, other))
        | inr miss ↦ rw miss (ground (arith, le), ground (arith, le, some), ground (arith, le))
      ]

  -- How many of `n` entries of a name, of which `b` are built in, are left, and how many show the
  -- name alone.
  abbrev pub left_of : ℕ → ℕ → ℕ
  left_of n b = if ltb 1 n && n == b then 1 else n

  abbrev pub bare_of : ℕ → ℕ → ℕ
  bare_of n b = if ltb n 2 then n else if n == b then 1 else b

  abbrev Agrees : List PluginEntry → Verdict → Type 0
  Agrees es v =
      (left v true es ≡ left_of (length es) (count_built_in es))
      × (bare v true es ≡ bare_of (length es) (count_built_in es))

  verdict-Agrees : (es : List PluginEntry) → Agrees es (verdict is_k8s_io es)
  unfolding verdict
  verdict-Agrees es =
      let (le, some, other) = length-count es in
      if-cases (Agrees es) (ltb (length es) 2) leave _ (λ h. (ground arith, ground arith))
        (λ many.
          if-cases (Agrees es) (has_built_in is_k8s_io es && has_non_built_in is_k8s_io es)
            qualify_others _
            (λ h.
              (ground (arith, le, some, other, h, many), ground (arith, le, some, other, h, many)))
            (λ h.
              if-cases (Agrees es) (has_built_in is_k8s_io es) keep_first qualify_all
                (λ k. (
                  ground (arith, le, some, other, h, k, many),
                  ground (arith, le, some, other, h, k, many),
                ))
                (λ k. (
                  ground (arith, le, some, other, h, k, many),
                  ground (arith, le, some, other, h, k, many),
                ))))

  pub mark_collisions_lem :
      (n : String) (es : List PluginEntry)
      → AllBare es
      → let all = length (with_name n es) in
        let built_in = count_built_in (with_name n es) in
        (length (with_name n (mark_collisions is_k8s_io es)) ≡ left_of all built_in)
        × (count_bare n (mark_collisions is_k8s_io es) ≡ bare_of all built_in)
  unfolding mark_collisions
  mark_collisions_lem n es h =
      let (l, b) = counts_from n es [] es h in
      let (k, c) = verdict-Agrees (with_name n es) in (l ∙ k, b ∙ c)

  -- At most one entry of the picker shows a name alone, where at most one of the name is built in.
  pub mark_collisions-le :
      (n : String) (es : List PluginEntry)
      → AllBare es
      → count_built_in (with_name n es) ≤ 1
      → count_bare n (mark_collisions is_k8s_io es) ≤ 1
  mark_collisions-le n es h k =
      subst (λ c. c ≤ 1) (sym (mark_collisions_lem n es h).1) (ground (arith, k))

-- ===== src/Search/Shown.antt =====
-- The pattern that is shown is the one that was compiled last without an error.
use aku.Base.{◌≡◌, refl, sym, String, none, some, str_eq, str_append, eq_iff, Bool-cases, inl, inr}
use aku.Search.{
  SearchState, SearchMode, Compiled, expression, refused, clear, active, display_pattern, compiled,
  compile,
}

module _ {Re Err : Type 0} (regexp : String → Compiled Re Err) where
  -- Where `Compile` gives no error, `DisplayPattern` is then the pattern, the empty one too.
  pub display_pattern-compile :
      (pattern : String) (mode : SearchMode) (s : SearchState Re)
      → (compile regexp pattern mode s).1 ≡ none
      → display_pattern (compile regexp pattern mode s).0 ≡ pattern
  unfolding compile display_pattern active clear
  display_pattern-compile pattern mode s = elim (Bool-cases (str_eq pattern "")) [
    | inl empty ↦ rw empty (λ _. sym ((eq_iff pattern "").0 empty))
    | inr given ↦ rw given (go (regexp (str_append "(?i)" pattern)))
  ]
    where
      go :
          (answer : Compiled Re Err)
          → (compiled regexp pattern mode s answer).1 ≡ none
          → display_pattern (compiled regexp pattern mode s answer).0 ≡ pattern
      go (refused e) h = cc
      go (expression re) h = refl

  -- Where `Compile` gives an error, nothing changes.
  pub compile-kept :
      (pattern : String) (mode : SearchMode) (s : SearchState Re) (e : Err)
      → (compile regexp pattern mode s).1 ≡ some e
      → (compile regexp pattern mode s).0 ≡ s
  unfolding compile
  compile-kept pattern mode s e = elim (Bool-cases (str_eq pattern "")) [
    | inl empty ↦ rw empty (λ h. cc)
    | inr given ↦ rw given (go (regexp (str_append "(?i)" pattern)))
  ]
    where
      go :
          (answer : Compiled Re Err)
          → (compiled regexp pattern mode s answer).1 ≡ some e
          → (compiled regexp pattern mode s answer).0 ≡ s
      go (refused d) h = refl
      go (expression re) h = cc

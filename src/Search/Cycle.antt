-- ===== src/Search/Cycle.antt =====
-- Moving among the matches goes round, and the two directions undo one another.
use native.Mathlib.Nat.{mod-lt, mod-eq_of_lt, mod-add-mod, add-mod_right}
use aku.Base.{
  ℕ, zero, suc, ◌+◌, ◌-◌, ◌%◌, ◌<◌, ◌≡◌, sym, ap, ◌∙◌, Bool, false, ◌==◌, arith, if◌then◌else◌,
}
use aku.Search.{SearchState, next_idx, prev_idx}

some_match : (n : ℕ) → 0 < n → (n == 0) ≡ false
some_match n h = ground arith

forth_back : (c n : ℕ) → c < n → ((c + 1) % n + n - 1) % n ≡ c
forth_back c n h =
    ap (λ k. k % n) {x = (c + 1) % n + n - 1} {y = (c + 1) % n + (n - 1)} (omega arith)
    ∙ mod-add-mod (c + 1) n (n - 1)
    ∙ ap (λ k. k % n) {x = c + 1 + (n - 1)} {y = c + n} (omega arith)
    ∙ add-mod_right c n
    ∙ mod-eq_of_lt h

back_forth : (c n : ℕ) → c < n → ((c + n - 1) % n + 1) % n ≡ c
back_forth c n h =
    mod-add-mod (c + n - 1) n 1
    ∙ ap (λ k. k % n) {x = c + n - 1 + 1} {y = c + n} (omega arith)
    ∙ add-mod_right c n
    ∙ mod-eq_of_lt h

module _ {Re : Type 0} where
  abbrev at : ℕ → SearchState Re → SearchState Re
  at i s = record s { current_idx = i }

  next_idx-inside :
      (s : SearchState Re)
      → 0 < s.match_count
      → next_idx s
        ≡ (at ((s.current_idx + 1) % s.match_count) s, (s.current_idx + 1) % s.match_count)
  unfolding next_idx
  next_idx-inside s h =
      ap
        (λ (b : Bool).
          if b
          then (s, 0)
          else (at ((s.current_idx + 1) % s.match_count) s, (s.current_idx + 1) % s.match_count))
        (some_match s.match_count h)

  prev_idx-inside :
      (s : SearchState Re)
      → 0 < s.match_count
      → prev_idx s ≡ (
        at ((s.current_idx + s.match_count - 1) % s.match_count) s,
        (s.current_idx + s.match_count - 1) % s.match_count,
      )
  unfolding prev_idx
  prev_idx-inside s h =
      ap
        (λ (b : Bool). if b then (s, 0) else (
          at ((s.current_idx + s.match_count - 1) % s.match_count) s,
          (s.current_idx + s.match_count - 1) % s.match_count,
        ))
        (some_match s.match_count h)

  -- `NextIdx`, called `n` times.
  abbrev pub next_times : ℕ → SearchState Re → SearchState Re
  next_times zero s = s
  next_times (suc n) s = next_times n (next_idx s).0

  -- After `n` calls of `NextIdx` the index has moved by `n`, round the matches.
  pub current_idx-next_times :
      (n : ℕ) (s : SearchState Re)
      → s.current_idx < s.match_count
      → (next_times n s).current_idx ≡ (s.current_idx + n) % s.match_count
  current_idx-next_times zero s inside =
      sym (ap (λ k. k % s.match_count) {x = s.current_idx + 0} (omega arith) ∙ mod-eq_of_lt inside)
  current_idx-next_times (suc n) s inside =
      let some_room : 0 < s.match_count = omega arith in
      let i = (s.current_idx + 1) % s.match_count in
      ap (λ (p : SearchState Re × ℕ). (next_times n p.0).current_idx) (next_idx-inside s some_room)
      ∙ current_idx-next_times n (at i s) (mod-lt (s.current_idx + 1) some_room)
      ∙ mod-add-mod (s.current_idx + 1) s.match_count n
      ∙ ap (λ k. k % s.match_count) {x = s.current_idx + 1 + n} {y = s.current_idx + suc n}
          (omega arith)

  -- Inside the matches `PrevIdx` undoes `NextIdx`, and `NextIdx` undoes `PrevIdx`.
  pub next-prev :
      (s : SearchState Re)
      → s.current_idx < s.match_count
      → ((prev_idx (next_idx s).0).1 ≡ s.current_idx)
        × ((next_idx (prev_idx s).0).1 ≡ s.current_idx)
  next-prev s inside =
      let some_room : 0 < s.match_count = omega arith in
      let i = (s.current_idx + 1) % s.match_count in
      let j = (s.current_idx + s.match_count - 1) % s.match_count in
      (
        ap (λ (p : SearchState Re × ℕ). (prev_idx p.0).1) (next_idx-inside s some_room)
            ∙ ap (λ (p : SearchState Re × ℕ). p.1) (prev_idx-inside (at i s) some_room)
            ∙ forth_back s.current_idx s.match_count inside,
        ap (λ (p : SearchState Re × ℕ). (next_idx p.0).1) (prev_idx-inside s some_room)
            ∙ ap (λ (p : SearchState Re × ℕ). p.1) (next_idx-inside (at j s) some_room)
            ∙ back_forth s.current_idx s.match_count inside,
      )

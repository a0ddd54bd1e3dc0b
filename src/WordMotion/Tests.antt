-- ===== src/WordMotion/Tests.antt =====
-- The theorems on an image reference.
use aku.Base.{ℕ, ◌≡◌, refl, List, [], ◌∷◌, arith, ltb, leb, ◌&&◌, pos, ◌<◌, ◌≤◌, ◌⊎◌}
use aku.WordMotion.{Unicode, next_word_boundary, prev_word_boundary, same_at}
use aku.WordMotion.Boundary.{Joined, Parted, next_word_boundary_lem}

-- Letters are 10 and more, digits less than 10, 99 is punctuation.
abbrev small : Unicode ℕ
small = record { is_letter = λ r. leb 10 r && ltb r 99; is_digit = λ r. ltb r 10 }

-- Like `nginx:1.25`.
abbrev image : List ℕ
image = 23 ∷ 16 ∷ 18 ∷ 23 ∷ 33 ∷ 99 ∷ 1 ∷ 99 ∷ 2 ∷ 5 ∷ []

motion_test :
    (next_word_boundary small image 0 ≡ 5)
    × (next_word_boundary small image 8 ≡ 10)
    × (prev_word_boundary small image 10 ≡ pos 8)
unfolding next_word_boundary aku.WordMotion.next_loop same_at prev_word_boundary
motion_test = (refl, refl, refl)

next_word_boundary_lem_example :
    let r = next_word_boundary small image 0 in
    (0 < r)
    × (r ≤ 10)
    × ((i : ℕ) → 0 < i → i < r → Joined small image i)
    × ((r ≡ 10) ⊎ Parted small image r)
next_word_boundary_lem_example = next_word_boundary_lem small image 0 (omega arith)

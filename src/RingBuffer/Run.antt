-- ===== src/RingBuffer/Run.antt =====
-- Runs of `Append`: the buffer keeps the last lines that were added.
use aku.Base.{
  ℕ, ◌+◌, ◌-◌, ◌≤◌, ◌≡◌, refl, ap, ◌∙◌, List, [], ◌∷◌, ◌++◌, String, arith, length, last_n, ℤ, pos,
  length-append, length-last_n, adds, adds-eq-last_n, map, take_all,
}
use aku.RingBuffer.{DualRingBuffer, clamp_capacity, new, append, copy_slice, raw_all, colored_all}
use aku.RingBuffer.View.{length-cells}
use aku.RingBuffer.Inv.{IsValid, new-IsValid, append-IsValid}
use aku.RingBuffer.Slice.{oldest, shown, copies}
use aku.RingBuffer.Refine.{Lines, lines, add_line, append_refines}

pub record Line : Type 0 where
  pub raw : String
  pub colored : String
  pub stripped : String
  pub width : ℤ

-- A client's calls of `Append`, in order.
abbrev pub append_all : DualRingBuffer → List Line → DualRingBuffer
append_all d [] = d
append_all d (l ∷ ls) = append_all (append d l.raw l.colored l.stripped l.width) ls

abbrev add_lines : ℕ → Lines → List Line → Lines
add_lines cap l [] = l
add_lines cap l (x ∷ xs) = add_lines cap (add_line cap l x.raw x.colored x.stripped x.width) xs

append_all_refines :
    (ls : List Line) {d : DualRingBuffer}
    → IsValid d
    → lines (append_all d ls) ≡ add_lines d.capacity (lines d) ls
unfolding append
append_all_refines [] v = refl
append_all_refines (l ∷ ls) {d} v =
    append_all_refines ls (append-IsValid l.raw l.colored l.stripped l.width v)
    ∙ ap (λ t. add_lines d.capacity t ls) (append_refines l.raw l.colored l.stripped l.width v)

add_lines-parts :
    (cap : ℕ) (ls : List Line) (l : Lines)
    → add_lines cap l ls ≡ record {
      raw = adds cap l.raw (map (λ x. x.raw) ls);
      colored = adds cap l.colored (map (λ x. x.colored) ls);
      stripped = adds cap l.stripped (map (λ x. x.stripped) ls);
      widths = adds cap l.widths (map (λ x. x.width) ls);
      dropped = (add_lines cap l ls).dropped;
    }
add_lines-parts cap [] l = refl
add_lines-parts cap (x ∷ xs) l =
    add_lines-parts cap xs (add_line cap l x.raw x.colored x.stripped x.width)

dropped-add_lines :
    (cap : ℕ) (ls : List Line) (l : Lines)
    → length l.raw ≤ cap
    → (add_lines cap l ls).dropped ≡ l.dropped + (length l.raw + length ls - cap)
dropped-add_lines cap [] l h = omega arith
dropped-add_lines cap (x ∷ xs) l h = omega (
  arith,
  dropped-add_lines cap xs (add_line cap l x.raw x.colored x.stripped x.width),
  length-last_n cap (l.raw ++ x.raw ∷ []),
  length-append l.raw (x.raw ∷ []),
)

-- A buffer shows, after any calls of `Append`, the last `capacity` of the lines that it showed and
-- those that were added, in order, and has counted each line that went.
pub append_all-last_n :
    (ls : List Line) {d : DualRingBuffer}
    → IsValid d
    → lines (append_all d ls) ≡ record {
      raw = last_n d.capacity ((lines d).raw ++ map (λ x. x.raw) ls);
      colored = last_n d.capacity ((lines d).colored ++ map (λ x. x.colored) ls);
      stripped = last_n d.capacity ((lines d).stripped ++ map (λ x. x.stripped) ls);
      widths = last_n d.capacity ((lines d).widths ++ map (λ x. x.width) ls);
      dropped = d.dropped + (d.count + length ls - d.capacity);
    }
append_all-last_n ls {d} v =
    append_all_refines ls v ∙ add_lines-parts d.capacity ls (lines d) ∙ (λ i. record {
      raw = adds-eq-last_n d.capacity (lines d).raw (map (λ x. x.raw) ls) (small d.raw "") i;
      colored =
          adds-eq-last_n d.capacity (lines d).colored (map (λ x. x.colored) ls) (small d.colored "")
            i;
      stripped =
          adds-eq-last_n d.capacity (lines d).stripped (map (λ x. x.stripped) ls)
            (small d.stripped "") i;
      widths =
          adds-eq-last_n d.capacity (lines d).widths (map (λ x. x.width) ls)
            (small d.widths (pos 0)) i;
      dropped = counted i;
    })
  where
    small : {A : Type 0} (arr : List A) (z : A) → length (shown d arr z) ≤ d.capacity
    small arr z = omega (arith, length-cells arr d.capacity z (oldest d) d.count, v.count_in)

    counted :
        (add_lines d.capacity (lines d) ls).dropped ≡ d.dropped + (d.count + length ls - d.capacity)
    counted =
        dropped-add_lines d.capacity ls (lines d) (small d.raw "")
        ∙ ap (λ k. d.dropped + (k + length ls - d.capacity))
            (length-cells d.raw d.capacity "" (oldest d) d.count)

append_all-IsValid : (ls : List Line) {d : DualRingBuffer} → IsValid d → IsValid (append_all d ls)
append_all-IsValid [] v = v
append_all-IsValid (l ∷ ls) v =
    append_all-IsValid ls (append-IsValid l.raw l.colored l.stripped l.width v)

-- `RawAll` and `ColoredAll` return every line that is shown.
pub all-eq-lines :
    {d : DualRingBuffer}
    → IsValid d
    → (raw_all d ≡ (lines d).raw) × (colored_all d ≡ (lines d).colored)
unfolding raw_all colored_all copy_slice
all-eq-lines {d} v = (
  copies d d.raw "" v v.raw_full (pos 0) (pos d.count)
      ∙ take_all (d.count - 0) (lines d).raw
          (omega (arith, length-cells d.raw d.capacity "" (oldest d) d.count)),
  copies d d.colored "" v v.colored_full (pos 0) (pos d.count)
      ∙ take_all (d.count - 0) (lines d).colored
          (omega (arith, length-cells d.colored d.capacity "" (oldest d) d.count)),
)

-- `RawAll` and `ColoredAll` of a new buffer that was filled return the last lines added, at most
-- as many as the capacity asked for, or 1 if that was below 1; `dropped` counts the others.
pub all_lines_lem :
    (capacity : ℤ) (ls : List Line)
    → let d = append_all (new capacity) ls in
      (raw_all d ≡ last_n (clamp_capacity capacity) (map (λ x. x.raw) ls))
      × (colored_all d ≡ last_n (clamp_capacity capacity) (map (λ x. x.colored) ls))
      × (d.dropped ≡ length ls - clamp_capacity capacity)
unfolding new
all_lines_lem capacity ls =
    let v = new-IsValid capacity in
    let all = all-eq-lines (append_all-IsValid ls v) in
    let kept = append_all-last_n ls v in
    (
      all.0 ∙ ap (λ l. l.raw) kept,
      all.1 ∙ ap (λ l. l.colored) kept,
      ap (λ l. l.dropped) kept ∙ omega arith,
    )

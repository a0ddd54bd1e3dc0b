-- ===== src/RingBuffer/Tests.antt =====
-- Runs of the ring buffer, and the theorems at a buffer that has gone round.
use aku.Base.{◌≡◌, refl, List, [], ◌∷◌, String, arith, pos, negsuc}
use aku.RingBuffer.{
  DualRingBuffer, new, append, raw_get, raw_slice, raw_all, copy_slice, colored_get, stripped_get,
  width_get, colored_slice, stripped_slice, width_slice,
}
use aku.RingBuffer.Inv.{IsValid}
use aku.RingBuffer.Refine.{lines, add_line, append_refines}
use aku.RingBuffer.Update.{readers_lem}
use aku.RingBuffer.Run.{Line, append_all, append_all-last_n}

abbrev line : String → Line
line s = record { raw = s; colored = s; stripped = s; width = pos 1 }

-- Capacity 2, after three lines.
abbrev gone_round : DualRingBuffer
gone_round = record {
  raw = "c" ∷ "b" ∷ [];
  colored = "c" ∷ "b" ∷ [];
  stripped = "c" ∷ "b" ∷ [];
  widths = pos 1 ∷ pos 1 ∷ [];
  head = 1;
  count = 2;
  capacity = 2;
  dropped = 1;
}

abbrev three : List Line
three = line "a" ∷ line "b" ∷ line "c" ∷ []

three_lines : append_all (new (pos 2)) three ≡ gone_round
unfolding new append
three_lines = refl

gone_round-all : raw_all gone_round ≡ "b" ∷ "c" ∷ []
unfolding raw_all copy_slice
gone_round-all = refl

gone_round-slice : raw_slice gone_round (negsuc 4) (pos 1) ≡ "b" ∷ []
unfolding raw_slice copy_slice
gone_round-slice = refl

gone_round-IsValid : IsValid gone_round
gone_round-IsValid = omega arith

append_refines_example :
    lines (append gone_round "d" "d" "d" (pos 1))
    ≡ add_line 2 (lines gone_round) "d" "d" "d" (pos 1)
append_refines_example = append_refines "d" "d" "d" (pos 1) gone_round-IsValid

readers_lem_example :
    (raw_get gone_round (pos 0) ≡ "b")
    × (colored_get gone_round (pos 0) ≡ "b")
    × (stripped_get gone_round (pos 0) ≡ "b")
    × (width_get gone_round (pos 0) ≡ pos 1)
    × (raw_slice gone_round (pos 0) (pos 9) ≡ "b" ∷ "c" ∷ [])
    × (colored_slice gone_round (pos 0) (pos 9) ≡ "b" ∷ "c" ∷ [])
    × (stripped_slice gone_round (pos 0) (pos 9) ≡ "b" ∷ "c" ∷ [])
    × (width_slice gone_round (pos 0) (pos 9) ≡ pos 1 ∷ pos 1 ∷ [])
readers_lem_example = readers_lem (pos 0) (pos 9) gone_round-IsValid

append_all-last_n_example : lines (append_all gone_round three) ≡ record {
  raw = "b" ∷ "c" ∷ [];
  colored = "b" ∷ "c" ∷ [];
  stripped = "b" ∷ "c" ∷ [];
  widths = pos 1 ∷ pos 1 ∷ [];
  dropped = 4;
}
append_all-last_n_example = append_all-last_n three gone_round-IsValid

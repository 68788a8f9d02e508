-- ===== src/Image/Tests.antt =====
-- Runs of the image operations, and the theorems at a concrete image.
use microbit_dal.Prelude.{◌+◌, ◌-◌, ◌≡◌, false, arith, ltb, if◌then◌else◌, ℕ, refl, inr}
use microbit_dal.Prelude.Int.{pos, negsuc}
use microbit_dal.Image.{copy, Bytes, Image, shift_left, shift_right, shift_up, shift_down, paste}
use microbit_dal.Image.Pixels.{pixel}
use microbit_dal.Image.Shifts.{Shifts, shifts_lem, shift_left_lem}
use microbit_dal.Image.Paste.{paste_lem}

-- Two rows of three pixels: 1 2 3 above 4 5 6.
abbrev two_rows : Image
two_rows = record { width = 3; height = 2; bytes = λ i. i + 1 }

abbrev dot : Image
dot = record { width = 2; height = 1; bytes = λ i. 9 }

paste_lem_example : pixel 3 (paste dot (negsuc 0) (pos 1) false two_rows).0.bytes 0 1 ≡ 9
paste_lem_example = paste_lem dot (negsuc 0) (pos 1) two_rows 0 1 (omega arith) (omega arith)

shifts_lem_example :
    Shifts
      (pos 1)
      two_rows
      (λ x y. if ltb x 1 then 0 else pixel 3 two_rows.bytes (x - 1) y)
      (shift_right (pos 1) two_rows)
    × Shifts
        (pos 1)
        two_rows
        (λ x y. if ltb (y + 1) 2 then pixel 3 two_rows.bytes x (y + 1) else 0)
        (shift_up (pos 1) two_rows)
    × Shifts
        (pos 1)
        two_rows
        (λ x y. if ltb y 1 then 0 else pixel 3 two_rows.bytes x (y - 1))
        (shift_down (pos 1) two_rows)
shifts_lem_example = shifts_lem (pos 1) two_rows

-- A memcpy that copies as if its regions did not overlap.
abbrev memcpy_copy : Bytes → ℕ → ℕ → ℕ → Bytes
memcpy_copy b d s n = copy b d b s n

shift_left_lem_example :
    Shifts
      (pos 2)
      two_rows
      (λ x y. if ltb (x + 2) 3 then pixel 3 two_rows.bytes (x + 2) y else 0)
      (shift_left memcpy_copy (pos 2) two_rows)
shift_left_lem_example =
    shift_left_lem memcpy_copy (λ b d s n i h. refl) (pos 2) two_rows (inr (omega arith))

-- ===== src/Display/Tests.antt =====
-- The theorems on the display at concrete texts, maps and images.
use microbit_dal.Prelude.{ℕ, ◌+◌, ◌≤◌, ◌<◌, ◌≡◌, refl, inr, true, false, none, List, [], ◌∷◌, arith}
use microbit_dal.Prelude.Int.{pos}
use microbit_dal.Prelude.Bytes.{copy, Bytes}
use microbit_dal.Image.{Image}
use microbit_dal.Display.{Display, AnimationMode, DisplayMode, Rotation}
use microbit_dal.Display.Protocol.{Step, run, active, run_counts}
use microbit_dal.Display.Render.{
  MatrixMap, Matrix, microbit_matrix_map, render_greyscale, grey_scale_timings, dark,
}
use microbit_dal.Display.Render.Greyscale.{lit_time, greyscale_brighter}

-- Ten columns and five rows of growing bytes.
abbrev ramp : Image
ramp = record { width = 10; height = 5; bytes = λ i. i }

abbrev shown : Display
shown = record {
  width = 5;
  height = 5;
  brightness = 255;
  strobe_row = 0;
  rotation = Rotation.rotation_90;
  mode = DisplayMode.black_and_white;
  running = true;
  image = ramp;
  animation_mode = AnimationMode.no_animation;
  animation_delay = 0;
  animation_tick = 0;
  scrolling_text = [];
  scrolling_char = 0;
  scrolling_position = 0;
  printing_text = [];
  printing_char = 0;
  scrolling_image = ramp;
  scrolling_image_position = pos 0;
  scrolling_image_stride = pos 0;
  scrolling_image_rendered = false;
}

-- A font in which each byte is its own place, with the characters from 32 to 126.
abbrev memcpy_copy : Bytes → ℕ → ℕ → ℕ → Bytes
memcpy_copy b d s n = copy b d b s n

abbrev font0 : Bytes
font0 i = i

abbrev hi : List ℕ
hi = 72 ∷ 105 ∷ []

-- Pins 13 to 15 drive the rows, and pins 4 to 12 sink the columns.
abbrev board : MatrixMap
board = microbit_matrix_map 13 4

abbrev off : Matrix
off = record { port = dark; finish = none }

run_counts_example :
    let (d', started, ended) =
      run memcpy_copy font0 126 6
        (Step.print_text_step hi (pos 400) ∷ Step.tick ∷ Step.stop ∷ [])
        shown in
    (active shown.animation_mode + started ≡ ended + active d'.animation_mode)
    × (active d'.animation_mode ≤ 1)
run_counts_example =
    run_counts memcpy_copy font0 126 6
      (Step.print_text_step hi (pos 400) ∷ Step.tick ∷ Step.stop ∷ []) shown refl

greyscale_brighter_example :
    lit_time board 0 0 (render_greyscale board shown 0 grey_scale_timings)
    < lit_time board 0 1 (render_greyscale board shown 0 grey_scale_timings)
greyscale_brighter_example =
    greyscale_brighter board shown 0 1 (inr (omega arith)) (omega arith) (omega arith) (omega arith)
      (omega arith) (omega arith)

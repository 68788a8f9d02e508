-- ===== src/Display/Render.antt =====
-- inc/drivers/MicroBitMatrixMaps.h and the strobing of source/drivers/MicroBitDisplay.cpp: the words
-- that are written to the pins of the LED matrix. A word is the level of each pin. The points of a map lie
-- on the display; past the end of a table the model reads (0, 0).
pub mod Scan
pub mod Greyscale
use microbit_dal.Prelude.{
  Bool, List, ℕ, zero, suc, ◌+◌, ◌-◌, ◌*◌, ◌/◌, ◌%◌, ◌^◌, ◌≤◌, ◌<◌, ◌≡◌, refl, sym, ap, subst, ◌∙◌,
  ◌≢◌, ◌↔◌, ◌⊎◌, inl, inr, true, false, not, ◌&&◌, ◌||◌, Option, none, some, [], ◌∷◌, ◌++◌, map,
  append-nil, append_assoc, arith, ltb, leb, ◌==◌, if◌then◌else◌, ltb→lt, lt→ltb, leb→le, ==_iff,
  Bool-cases, Option-cases, length,
}
use microbit_dal.Prelude.Bytes.{Bytes}
use microbit_dal.Display.{
  Display, Rotation, DisplayMode, DisplayEvent, light_sense, animation_update,
}

-- `MatrixMap`; the pins are numbers.
pub record MatrixMap : Type 0 where
  pub width : ℕ
  pub height : ℕ
  pub rows : ℕ
  pub columns : ℕ
  pub row_start : ℕ
  pub column_start : ℕ
  pub map : ℕ → ℕ × ℕ

abbrev pub point_at : List (ℕ × ℕ) → ℕ → ℕ × ℕ
point_at [] i = (0, 0)
point_at (p ∷ ps) zero = p
point_at (p ∷ ps) (suc i) = point_at ps i

-- `microbitDisplayMap` of MICROBIT_3X9; a column that is not connected reads (NO_CONN, NO_CONN).
abbrev pub microbit_display_map : List (ℕ × ℕ)
microbit_display_map =
    (0, 4)
    ∷ (0, 3)
    ∷ (1, 1)
    ∷ (1, 4)
    ∷ (4, 2)
    ∷ (0, 1)
    ∷ (2, 4)
    ∷ (3, 2)
    ∷ (4, 0)
    ∷ (3, 4)
    ∷ (2, 2)
    ∷ (3, 0)
    ∷ (4, 4)
    ∷ (1, 2)
    ∷ (2, 0)
    ∷ (4, 3)
    ∷ (0, 2)
    ∷ (1, 0)
    ∷ (3, 3)
    ∷ (4, 1)
    ∷ (0, 0)
    ∷ (2, 3)
    ∷ (3, 1)
    ∷ (0, 0)
    ∷ (1, 3)
    ∷ (2, 1)
    ∷ (0, 0)
    ∷ []

-- `microbitMatrixMap`, from the pins that the platform calls p13 and p4.
abbrev pub microbit_matrix_map : ℕ → ℕ → MatrixMap
microbit_matrix_map row1 col1 = record {
  width = 5;
  height = 5;
  rows = 3;
  columns = 9;
  row_start = row1;
  column_start = col1;
  map = point_at microbit_display_map;
}

-- The pixel of the image that a point of the display shows.
abbrev pub rotated : Rotation → ℕ → ℕ → ℕ × ℕ → ℕ × ℕ
rotated Rotation.rotation_0 w h p = p
rotated Rotation.rotation_90 w h p = (w - 1 - p.1, p.0)
rotated Rotation.rotation_180 w h p = (w - 1 - p.0, h - 1 - p.1)
rotated Rotation.rotation_270 w h p = (p.1, h - 1 - p.0)

-- The byte of the image that is shown by column `i` of the row that is strobed.
abbrev pub column_pixel : MatrixMap → Display → ℕ → ℕ
column_pixel m d i =
    let (x, y) = rotated d.rotation d.width d.height (m.map (i * m.rows + d.strobe_row)) in
    d.image.bytes (y * (d.width * 2) + x)

-- `col_data | row_data`, the columns sinking the current of those whose test holds, on the pins of
-- `LEDMatrix`, which are those of the rows and of the columns.
pub port_word : MatrixMap → ℕ → (ℕ → Bool) → ℕ → Bool
port_word m row cols pin =
    (pin == m.row_start + row && ltb row m.rows)
    || (leb m.column_start pin
        && ltb pin (m.column_start + m.columns)
        && not (cols (pin - m.column_start)))

-- The port, and the time in microseconds until `renderFinish`, where that is scheduled.
pub record Matrix : Type 0 where
  pub port : ℕ → Bool
  pub finish : Option ℕ

abbrev pub dark : ℕ → Bool
dark pin = false

-- `renderFinish`
pub render_finish : Matrix → Matrix
render_finish l = record l { port = dark }

-- `render`
pub render : MatrixMap → ℕ → Display → Matrix → Matrix
unfolding render_finish port_word
render m period d l =
    let word = port_word m d.strobe_row (λ i. not (column_pixel m d i == 0)) in
    let written = record l { port = word } in
    let timed = record written { finish = some (d.brightness * 950 / 255 * period) } in
    if d.brightness == 0
    then l
    else if leb d.brightness 1
    then render_finish written
    else if not (d.brightness == 255)
    then timed
    else written

-- `greyScaleTimings`
abbrev pub grey_scale_timings : List ℕ
grey_scale_timings = 1 ∷ 23 ∷ 70 ∷ 163 ∷ 351 ∷ 726 ∷ 1476 ∷ 2976 ∷ []

abbrev pub min : ℕ → ℕ → ℕ
min a b = if ltb a b then a else b

-- Bit `k` of a byte; a mask that is shifted out of its eight bits is 0.
abbrev pub bit : ℕ → ℕ → Bool
bit k v = ltb k 8 && v / 2 ^ k % 2 == 1

-- `renderGreyscale` from the `k`-th timing on: the words that it writes, with the microseconds for
-- which each of them stays on the port; the last one stays there to the next row.
pub render_greyscale : MatrixMap → Display → ℕ → List ℕ → List ((ℕ → Bool) × Option ℕ)
unfolding port_word
render_greyscale m d k [] =
    (port_word m d.strobe_row (λ i. bit k (min (column_pixel m d i) d.brightness)), none) ∷ []
render_greyscale m d k (t ∷ ts) =
    (port_word m d.strobe_row (λ i. bit k (min (column_pixel m d i) d.brightness)), some t)
    ∷ render_greyscale m d (suc k) ts

-- What one tick does: the display, the port in the modes that write it once, the words of a row in
-- greyscale, and the events.
pub record Ticked : Type 0 where
  pub display : Display
  pub matrix : Matrix
  pub greys : List ((ℕ → Bool) × Option ℕ)
  pub events : List DisplayEvent

module _ (memcpy : Bytes → ℕ → ℕ → ℕ → Bytes) (font : Bytes) (ascii_end period : ℕ)
    (m : MatrixMap) where
  -- `renderWithLightSense`
  pub render_with_light_sense : Display → Matrix → Ticked
  unfolding render animation_update
  render_with_light_sense d l =
      let (d', es) = animation_update memcpy font ascii_end period d in
      if d.strobe_row == m.rows + 1
      then record {
        display = record d { strobe_row = 0 };
        matrix = l;
        greys = [];
        events = light_sense ∷ [];
      }
      else record {
        display = record d' { strobe_row = (d'.strobe_row + 1) % 256 };
        matrix = render m period d l;
        greys = [];
        events = es;
      }

  -- The step to the next row
  abbrev pub next_row : Display → Display
  next_row d =
      let row = (d.strobe_row + 1) % 256 in
      record d { strobe_row = if row == m.rows then 0 else row }

  -- `systemTick` of a display that is enabled, by its mode
  pub strobe : DisplayMode → Display → Matrix → Ticked
  unfolding render render_greyscale render_with_light_sense animation_update
  strobe DisplayMode.black_and_white d l =
      let (d', es) = animation_update memcpy font ascii_end period (next_row d) in
      record { display = d'; matrix = render m period (next_row d) l; greys = []; events = es }
  strobe DisplayMode.greyscale d l =
      let (d', es) = animation_update memcpy font ascii_end period (next_row d) in
      record {
        display = d';
        matrix = l;
        greys = render_greyscale m (next_row d) 0 grey_scale_timings;
        events = es;
      }
  strobe DisplayMode.black_and_white_light_sense d l = render_with_light_sense d l

  -- `systemTick`
  pub system_tick : Display → Matrix → Ticked
  unfolding strobe
  system_tick d l =
      if not d.running
      then record { display = d; matrix = l; greys = []; events = [] }
      else strobe d.mode d l

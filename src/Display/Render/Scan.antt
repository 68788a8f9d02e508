-- ===== src/Display/Render/Scan.antt =====
-- The scan of the LED matrix of source/drivers/MicroBitDisplay.cpp: the LEDs that the ticks light.
use microbit_dal.Prelude.{
  Bool, ℕ, zero, suc, ◌+◌, ◌-◌, ◌*◌, ◌%◌, ◌≤◌, ◌<◌, ◌≡◌, ◌⊎◌, true, not, ◌&&◌, arith, ltb, leb,
  ◌==◌, if◌then◌else◌,
}
use microbit_dal.Prelude.Bytes.{Bytes}
use microbit_dal.Display.{Display, no_animation, black_and_white}
use microbit_dal.Display.Render.{rotated, port_word, MatrixMap, Matrix, system_tick}

-- Whether the LED of a row and a column is lit: its row is high and its column is low.
abbrev pub lights : MatrixMap → (ℕ → Bool) → ℕ → ℕ → Bool
lights m word r c = word (m.row_start + r) && not (word (m.column_start + c))

-- The byte of the image that a point of the display shows.
abbrev pub point_pixel : Display → ℕ × ℕ → ℕ
point_pixel d p =
    let (x, y) = rotated d.rotation d.width d.height p in d.image.bytes (y * (d.width * 2) + x)

-- The pins of the rows are not those of the columns.
abbrev pub Apart : MatrixMap → Type 0
Apart m = (m.row_start + m.rows ≤ m.column_start) ⊎ (m.column_start + m.columns ≤ m.row_start)

pub port_word-lights :
    (m : MatrixMap) (s : ℕ) (cols : ℕ → Bool) (r c : ℕ)
    → Apart m
    → s < m.rows
    → r < m.rows
    → c < m.columns
    → lights m (port_word m s cols) r c ≡ (r == s && cols c)
unfolding port_word
port_word-lights m s cols r c a hs hr hc =
    let back : m.column_start + c - m.column_start ≡ c = omega arith in rw back (ground arith)

-- An enabled display in black and white that runs no animation, and is bright enough that
-- `render` does not switch the row off at once.
abbrev pub Idle : Display → Type 0
Idle d =
    (d.running ≡ true)
    × (d.mode ≡ black_and_white)
    × (d.animation_mode ≡ no_animation)
    × (1 < d.brightness)

-- The number of ticks out of `n` after which the LED of row `r` and column `c` is lit.
abbrev pub lightings :
    (Bytes → ℕ → ℕ → ℕ → Bytes) → Bytes → ℕ → ℕ → MatrixMap → ℕ → ℕ → ℕ → Display → Matrix → ℕ
lightings memcpy font ascii_end period m zero r c d l = 0
lightings memcpy font ascii_end period m (suc n) r c d l =
    let t = system_tick memcpy font ascii_end period m d l in
    (if lights m t.matrix.port r c then 1 else 0)
    + lightings memcpy font ascii_end period m n r c t.display t.matrix

-- The row that is strobed after row `s`.
abbrev pub row_after : ℕ → ℕ → ℕ
row_after rows s = if (s + 1) % 256 == rows then 0 else (s + 1) % 256

-- How often `n` steps from row `s` come to row `r`, for at most as many steps as there are rows.
abbrev visits : ℕ → ℕ → ℕ → ℕ → ℕ
visits rows r s n =
    (if ltb s r && leb r (s + n) then 1 else 0)
    + (if leb rows (s + n) && leb r (s + n - rows) then 1 else 0)

-- ===== src/Image.antt =====
-- source/types/MicroBitImage.cpp: bitmaps of one byte for each pixel, row after row.
pub mod Rows
pub mod RowsDown
pub mod Pixels
pub mod Shifts
pub mod Paste
pub mod Glyph
mod Tests
use microbit_dal.Prelude.{
  min, ℕ, zero, suc, ◌+◌, ◌-◌, ◌*◌, ◌/◌, ◌%◌, ◌^◌, ◌≤◌, ◌<◌, ◌≡◌, refl, sym, ap, subst, ◌∙◌, ◌≢◌,
  ◌↔◌, ◌⊎◌, inl, inr, Bool, true, false, not, ◌&&◌, ◌||◌, Option, none, some, List, [], ◌∷◌, ◌++◌,
  map, append-nil, append_assoc, arith, ltb, leb, ◌==◌, if◌then◌else◌, ltb→lt, lt→ltb, leb→le,
  ==_iff, Bool-cases, Option-cases, length,
}
use microbit_dal.Prelude.Int.{ℤ, pos, negsuc}
use microbit_dal.Prelude.Bytes.{Bytes, copy, clear, put}

pub data Status : Type 0 where
  ok invalid_parameter : Status

-- `ImageData`: `data` as a map from offsets. The bytes from `width * height` on are not the image's.
pub record Image : Type 0 where
  pub width : ℕ
  pub height : ℕ
  pub bytes : Bytes

abbrev pub size : Image → ℕ
size im = im.width * im.height

pub clear_image : Image → Image
clear_image im = record im { bytes = clear im.bytes 0 (size im) }

-- Whether an `int16_t` coordinate lies in the range, and the number that it is.
abbrev pub in_range : ℤ → ℕ → Bool
in_range (pos a) n = ltb a n
in_range (negsuc a) n = false

abbrev pub nat_of : ℤ → ℕ
nat_of (pos a) = a
nat_of (negsuc a) = 0

pub set_pixel_value : ℤ → ℤ → ℕ → Image → Image × Status
set_pixel_value x y v im =
    if in_range x im.width && in_range y im.height
    then (record im { bytes = put im.bytes (nat_of y * im.width + nat_of x) v }, ok)
    else (im, invalid_parameter)

-- `none` is MICROBIT_INVALID_PARAMETER.
pub get_pixel_value : ℤ → ℤ → Image → Option ℕ
get_pixel_value x y im =
    if in_range x im.width && in_range y im.height
    then some (im.bytes (nat_of y * im.width + nat_of x))
    else none

-- The row loops of `printImage` and of `paste` without transparency: `rows` times, `n` bytes are
-- copied, and the two pointers go on by their strides.
pub copy_rows : ℕ → ℕ → Bytes → ℕ → ℕ → Bytes → ℕ → ℕ → Bytes
copy_rows zero n out p stride_out inp q stride_in = out
copy_rows (suc rows) n out p stride_out inp q stride_in =
    copy_rows rows n (copy out p inp q n) (p + stride_out) stride_out inp (q + stride_in) stride_in

-- The bitmap that is printed, if it is not NULL, has its own width and height. `width <= 0` is tested for; a height
-- below 1 leaves the loop with no round.
pub print_image : ℤ → ℤ → Option Bytes → Image → Image × Status
unfolding copy_rows
print_image width height none im = (im, invalid_parameter)
print_image width height (some bitmap) im =
    if in_range (pos 0) (nat_of width)
    then (
      record im {
        bytes =
            copy_rows (min (nat_of height) im.height) (min (nat_of width) im.width) im.bytes 0
              im.width bitmap 0 (nat_of width);
      },
      ok,
    )
    else (im, invalid_parameter)

-- One axis of `paste`: how many pixels are copied, and the first one in the source and in the
-- target. `none`: the two ranges do not meet.
pub record Clip : Type 0 where
  pub count : ℕ
  pub source : ℕ
  pub target : ℕ

unfoldable pub clip : ℤ → ℕ → ℕ → Option Clip
clip (pos a) source_extent extent =
    if leb extent a || leb (a + source_extent) 0
    then none
    else some (record { count = min source_extent (extent - a); source = 0; target = a })
clip (negsuc a) source_extent extent =
    if leb source_extent (a + 1)
    then none
    else some (record { count = min (source_extent - (a + 1)) extent; source = a + 1; target = 0 })

-- The inner loop of `paste` with transparency: the bytes, and `pxWritten`.
pub copy_opaque : ℕ → Bytes → ℕ → Bytes → ℕ → ℕ → Bytes × ℕ
copy_opaque zero out p inp q written = (out, written)
copy_opaque (suc n) out p inp q written =
    let step : Bytes × ℕ =
      if inp q == 0 then (out, written) else (put out p (inp q), written + 1) in
    copy_opaque n step.0 (p + 1) inp (q + 1) step.1

pub opaque_rows : ℕ → ℕ → Bytes → ℕ → ℕ → Bytes → ℕ → ℕ → ℕ → Bytes × ℕ
unfolding copy_opaque
opaque_rows zero n out p stride_out inp q stride_in written = (out, written)
opaque_rows (suc rows) n out p stride_out inp q stride_in written =
    let row = copy_opaque n out p inp q written in
    opaque_rows rows n row.0 (p + stride_out) stride_out inp (q + stride_in) stride_in row.1

-- `paste` of an image with a buffer of its own; the number is the result.
pub paste_clipped : Image → Clip → Clip → Bool → Image → Image × ℕ
unfolding copy_rows opaque_rows
paste_clipped image cx cy alpha im =
    let q = cx.source + image.width * cy.source in
    let p = cx.target + im.width * cy.target in
    let opaque = opaque_rows cy.count cx.count im.bytes p im.width image.bytes q image.width 0 in
    if alpha then (record im { bytes = opaque.0 }, opaque.1) else (
      record im {
        bytes = copy_rows cy.count cx.count im.bytes p im.width image.bytes q image.width;
      },
      cy.count * cx.count,
    )

pub paste : Image → ℤ → ℤ → Bool → Image → Image × ℕ
unfolding clip paste_clipped
paste image x y alpha im = elim (clip x image.width im.width) [
  | none ↦ (im, 0)
  | some cx ↦ elim (clip y image.height im.height) [
    | none ↦ (im, 0)
    | some cy ↦ paste_clipped image cx cy alpha im
  ]
]

-- The loops of `shiftLeft` and `shiftRight`, by `n` pixels in rows of `w`. `shiftRight` calls memmove,
-- but `shiftLeft` the C library's memcpy inside the bitmap, also where the regions overlap.
pub left_rows : (Bytes → ℕ → ℕ → ℕ → Bytes) → ℕ → ℕ → ℕ → Bytes → ℕ → Bytes
left_rows memcpy zero w n b p = b
left_rows memcpy (suc rows) w n b p =
    left_rows memcpy rows w n (clear (memcpy b p (p + n) (w - n)) (p + (w - n)) n) (p + w)

pub right_rows : ℕ → ℕ → ℕ → Bytes → ℕ → Bytes
right_rows zero w n b p = b
right_rows (suc rows) w n b p = right_rows rows w n (clear (copy b (p + n) b p (w - n)) p n) (p + w)

-- The loop of `shiftUp` from row `y` on, with `pOut` at `p`; `pIn` is `w * n` bytes further.
pub up_rows : ℕ → ℕ → ℕ → ℕ → Bytes → ℕ → ℕ → Bytes
up_rows zero w h n b p y = b
up_rows (suc rows) w h n b p y =
    up_rows rows w h n (if ltb y (h - n) then copy b p b (p + w * n) w else clear b p w) (p + w)
      (y + 1)

-- A shift by `n`, which is an `int16_t`: refused below 1, and a wipe from the extent on.
abbrev pub shifted : ℤ → ℕ → Image → Bytes → Image × Status
shifted n extent im moved =
    if in_range (pos 0) (nat_of n)
    then (if leb extent (nat_of n) then clear_image im else record im { bytes = moved }, ok)
    else (im, invalid_parameter)

pub shift_left : (Bytes → ℕ → ℕ → ℕ → Bytes) → ℤ → Image → Image × Status
unfolding left_rows clear_image
shift_left memcpy n im =
    shifted n im.width im (left_rows memcpy im.height im.width (nat_of n) im.bytes 0)

pub shift_right : ℤ → Image → Image × Status
unfolding right_rows clear_image
shift_right n im = shifted n im.width im (right_rows im.height im.width (nat_of n) im.bytes 0)

pub shift_up : ℤ → Image → Image × Status
unfolding up_rows clear_image
shift_up n im =
    shifted n im.height im (up_rows im.height im.width im.height (nat_of n) im.bytes 0 0)

-- The loop of `shiftDown`: as in `shiftUp`, from the last row to the first.
pub down_rows : ℕ → ℕ → ℕ → ℕ → Bytes → ℕ → ℕ → Bytes
down_rows zero w h n b p y = b
down_rows (suc rows) w h n b p y =
    down_rows rows w h n (if ltb y (h - n) then copy b p b (p - w * n) w else clear b p w) (p - w)
      (y + 1)

pub shift_down : ℤ → Image → Image × Status
unfolding down_rows clear_image
shift_down n im =
    shifted n im.height im
      (down_rows im.height im.width im.height (nat_of n) im.bytes (im.width * (im.height - 1)) 0)

-- ===== src/Image/Shifts.antt =====
-- The shifts of an image, by what its pixels read afterwards.
use native.Mathlib.Nat.{add_assoc}
use microbit_dal.Prelude.{
  ℕ, ◌+◌, ◌-◌, ◌*◌, ◌≤◌, ◌<◌, ◌≡◌, refl, sym, ap, ◌∙◌, ◌⊎◌, inl, inr, true, false, arith, ltb, leb,
  if◌then◌else◌, leb→le, Bool-cases,
}
use microbit_dal.Prelude.Int.{ℤ, pos}
use microbit_dal.Prelude.Bytes.{CopiesApart, Bytes, clear-hit}
use microbit_dal.Image.{
  Image, Status, ok, invalid_parameter, size, in_range, nat_of, shift_left, shift_right, shift_up,
  shift_down, down_rows, clear_image, shifted, left_rows, right_rows, up_rows,
}
use microbit_dal.Image.RowsDown.{down_rows_lem}
use microbit_dal.Image.Rows.{left_rows_lem, right_rows_lem, up_rows_lem}
use microbit_dal.Image.Pixels.{pixel, offset-lt}

-- A shift by `n`: each pixel becomes what `source` says, or the shift is refused because `n` is
-- not positive, and the image is left as it was.
abbrev pub Shifts : ℤ → Image → (ℕ → ℕ → ℕ) → Image × Status → Type 0
Shifts n im source (im', s) =
    ((0 < nat_of n)
      × (s ≡ ok)
      × ((x y : ℕ) → x < im.width → y < im.height → pixel im.width im'.bytes x y ≡ source x y))
    ⊎ ((nat_of n ≡ 0) × (s ≡ invalid_parameter) × (im' ≡ im))

clear_image-pixel :
    (im : Image) (x y : ℕ)
    → x < im.width
    → y < im.height
    → pixel im.width (clear_image im).bytes x y ≡ 0
unfolding clear_image
clear_image-pixel im x y h k =
    clear-hit im.bytes 0 (size im) (y * im.width + x) (omega arith)
      (omega (arith, offset-lt im.width im.height x y h k))

-- A shift whose loop moves the pixels, and whose wipe agrees with it.
shifted_lem :
    (n : ℤ) (extent : ℕ) (im : Image) (moved : Bytes) (source : ℕ → ℕ → ℕ)
    → ((x y : ℕ) → extent ≤ nat_of n → x < im.width → y < im.height → source x y ≡ 0)
    → ((x y : ℕ)
        → 0 < nat_of n
        → nat_of n < extent
        → x < im.width
        → y < im.height
        → pixel im.width moved x y ≡ source x y)
    → Shifts n im source (shifted n extent im moved)
shifted_lem n extent im moved source wiped by_loop =
    elim (Bool-cases (in_range (pos 0) (nat_of n))) [
      | inr none_or_less ↦ inr (ground arith, rw none_or_less refl, rw none_or_less refl)
      | inl some_pixels ↦
          let positive : 0 < nat_of n = ground arith in
          elim (Bool-cases (leb extent (nat_of n))) [
            | inl all ↦ inl (
              positive,
              rw some_pixels refl,
              λ x y h k.
                  rw (some_pixels, all)
                    (clear_image-pixel im x y h k
                      ∙ sym (wiped x y (leb→le extent (nat_of n) all) h k)),
            )
            | inr part ↦ inl (
              positive,
              rw some_pixels refl,
              λ x y h k. rw (some_pixels, part) (by_loop x y positive (ground arith) h k),
            )
          ]
    ]

-- `shiftLeft` by at least half of the width, where the regions of its memcpy do not overlap, shows
-- at each pixel what was `n` columns to its right, and blank pixels behind the last column; an `n`
-- below 1 is refused.
pub shift_left_lem :
    (memcpy : Bytes → ℕ → ℕ → ℕ → Bytes)
    → CopiesApart memcpy
    → (n : ℤ) (im : Image) → (nat_of n ≡ 0) ⊎ (im.width ≤ nat_of n + nat_of n)
    → Shifts n im
        (λ x y. if ltb (x + nat_of n) im.width then pixel im.width im.bytes (x + nat_of n) y else 0)
        (shift_left memcpy n im)
unfolding shift_left
shift_left_lem memcpy apart n im far =
    shifted_lem n im.width im (left_rows memcpy im.height im.width (nat_of n) im.bytes 0)
      (λ x y. if ltb (x + nat_of n) im.width then pixel im.width im.bytes (x + nat_of n) y else 0)
      (λ x y wide h k. ground arith)
      (λ x y positive inside h k.
        left_rows_lem memcpy apart im.width (nat_of n) (omega arith) (ground arith) im.height
          im.bytes 0 x y (y * im.width + x) h k (omega arith)
        ∙ ap (λ i. if ltb (x + nat_of n) im.width then im.bytes i else 0)
            (add_assoc (y * im.width) x (nat_of n)))

-- `shiftRight` by `n` shows at each pixel what was `n` columns to its left, and blank pixels in
-- the first `n` columns.
shift_right_lem :
    (n : ℤ) (im : Image)
    → Shifts n im
        (λ x y. if ltb x (nat_of n) then 0 else pixel im.width im.bytes (x - nat_of n) y)
        (shift_right n im)
unfolding shift_right
shift_right_lem n im =
    shifted_lem n im.width im (right_rows im.height im.width (nat_of n) im.bytes 0)
      (λ x y. if ltb x (nat_of n) then 0 else pixel im.width im.bytes (x - nat_of n) y)
      (λ x y wide h k. ground arith)
      (λ x y positive inside h k.
        right_rows_lem im.width (nat_of n) (omega arith) im.height im.bytes 0 x y (y * im.width + x)
          h k (omega arith)
        ∙ elim (Bool-cases (ltb x (nat_of n))) [
          | inl blank ↦ rw blank refl
          | inr kept ↦ rw kept (ap im.bytes (ground arith))
        ])

-- `shiftUp` by `n` shows at each pixel what was `n` rows below, and blank pixels in the last
-- `n` rows.
shift_up_lem :
    (n : ℤ) (im : Image)
    → Shifts n im
        (λ x y.
          if ltb (y + nat_of n) im.height then pixel im.width im.bytes x (y + nat_of n) else 0)
        (shift_up n im)
unfolding shift_up
shift_up_lem n im =
    shifted_lem n im.height im (up_rows im.height im.width im.height (nat_of n) im.bytes 0 0)
      (λ x y. if ltb (y + nat_of n) im.height then pixel im.width im.bytes x (y + nat_of n) else 0)
      (λ x y wide h k. ground arith)
      (λ x y positive inside h k.
        let from : y * im.width + x + im.width * nat_of n ≡ (y + nat_of n) * im.width + x =
          grind arith in
        up_rows_lem im.width im.height (nat_of n) im.height im.bytes 0 0 x y (y * im.width + x) h k
          (omega arith)
        ∙ elim (Bool-cases (ltb (y + nat_of n) im.height)) [
          | inl shown ↦
              let same : ltb (0 + y) (im.height - nat_of n) ≡ true = ground arith in
              rw (shown, same) (ap im.bytes from)
          | inr blank ↦
              let same : ltb (0 + y) (im.height - nat_of n) ≡ false = ground arith in
              rw (blank, same) refl
        ])

rows_split : (w y n : ℕ) → n ≤ y → (y - n) * w + w * n ≡ y * w
rows_split w y n h =
    let e : y - n + n ≡ y = omega arith in
    let product : (y - n) * w + w * n ≡ (y - n + n) * w = grind arith in product ∙ ap (λ k. k * w) e

rows_up : (w x y n : ℕ) → n ≤ y → y * w + x - w * n ≡ (y - n) * w + x
rows_up w x y n h =
    let split : (y - n) * w + w * n ≡ y * w = rows_split w y n h in omega (arith, split)

-- `shiftDown` by `n` shows at each pixel what was `n` rows above, and blank pixels in the first
-- `n` rows.
shift_down_lem :
    (n : ℤ) (im : Image)
    → Shifts n im
        (λ x y. if ltb y (nat_of n) then 0 else pixel im.width im.bytes x (y - nat_of n))
        (shift_down n im)
unfolding shift_down
shift_down_lem n im =
    shifted_lem n im.height im
      (down_rows im.height im.width im.height (nat_of n) im.bytes (im.width * (im.height - 1)) 0)
      (λ x y. if ltb y (nat_of n) then 0 else pixel im.width im.bytes x (y - nat_of n))
      (λ x y wide h k. ground arith)
      (λ x y positive inside h k.
        down_rows_lem im.width im.height (nat_of n) im.height im.bytes (im.width * (im.height - 1))
          0 x y (y * im.width + x) refl (omega arith) h k refl
        ∙ elim (Bool-cases (ltb y (nat_of n))) [
          | inl blank ↦ let same : leb (nat_of n) y ≡ false = ground arith in rw (blank, same) refl
          | inr shown ↦
              let same : leb (nat_of n) y ≡ true = ground arith in
              let from : y * im.width + x - im.width * nat_of n ≡ (y - nat_of n) * im.width + x =
                rows_up im.width x y (nat_of n) (leb→le (nat_of n) y same) in
              rw (shown, same) (ap im.bytes from)
        ])

-- A shift shows at each pixel what was `n` columns to the left (`shiftRight`), `n` rows below (`shiftUp`) or `n` rows above (`shiftDown`), and blank pixels
-- where nothing moved in; an `n` below 1 is refused.
pub shifts_lem :
    (n : ℤ) (im : Image)
    → Shifts n im
        (λ x y. if ltb x (nat_of n) then 0 else pixel im.width im.bytes (x - nat_of n) y)
        (shift_right n im)
      × Shifts n im
          (λ x y.
            if ltb (y + nat_of n) im.height then pixel im.width im.bytes x (y + nat_of n) else 0)
          (shift_up n im)
      × Shifts n im
          (λ x y. if ltb y (nat_of n) then 0 else pixel im.width im.bytes x (y - nat_of n))
          (shift_down n im)
shifts_lem n im = (shift_right_lem n im, shift_up_lem n im, shift_down_lem n im)

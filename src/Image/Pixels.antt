-- ===== src/Image/Pixels.antt =====
-- The operations of an image, by what its pixels read afterwards.
use microbit_dal.Prelude.{
  ℕ, suc, ◌+◌, ◌*◌, ◌≤◌, ◌<◌, ◌≡◌, refl, ap, ◌≢◌, ◌⊎◌, inl, inr, true, false, ◌&&◌, some, arith,
  ltb, ◌==◌, if◌then◌else◌, ltb→lt, Bool-cases,
}
use microbit_dal.Prelude.Int.{ℤ, pos, negsuc}
use microbit_dal.Prelude.Bytes.{Bytes, put}
use microbit_dal.Image.{
  Image, Status, ok, invalid_parameter, size, in_range, nat_of, set_pixel_value, get_pixel_value,
}

-- The pixel at column `x` of row `y` in rows of `w`.
abbrev pub pixel : ℕ → Bytes → ℕ → ℕ → ℕ
pixel w b x y = b (y * w + x)

pub row_lt : (w x y x' y' : ℕ) → x < w → y < y' → y * w + x < y' * w + x'
row_lt w x y x' y' h k = let m : suc y * w ≤ y' * w = grind arith in omega (arith, m)

-- Different pixels have different offsets.
offset_injective :
    (w x y x' y' : ℕ) → x < w → x' < w → y * w + x ≡ y' * w + x' → (x ≡ x') × (y ≡ y')
offset_injective w x y x' y' h k e = elim (Bool-cases (ltb y y')) [
  | inl lt ↦ absurd (omega (arith, row_lt w x y x' y' h (ltb→lt y y' lt)))
  | inr ge ↦ elim (Bool-cases (ltb y' y)) [
    | inl gt ↦ absurd (omega (arith, row_lt w x' y' x y k (ltb→lt y' y gt)))
    | inr le ↦
        let same : y ≡ y' = ground arith in
        let rows : y * w ≡ y' * w = ap (λ r. r * w) same in (omega arith, same)
  ]
]

in_range-lt : (x : ℤ) (n : ℕ) → in_range x n ≡ true → nat_of x < n
in_range-lt (pos a) n h = ltb→lt a n h
in_range-lt (negsuc a) n h = cc

pub offset-lt : (w h x y : ℕ) → x < w → y < h → y * w + x < w * h
offset-lt w h x y p q = grind arith

pub put-pixel :
    (w : ℕ) (b : Bytes) (v x y x' y' : ℕ)
    → x < w
    → x' < w
    → pixel w (put b (y * w + x) v) x' y' ≡ (if x' == x && y' == y then v else pixel w b x' y')
unfolding put
put-pixel w b v x y x' y' h k = elim (Bool-cases (x' == x && y' == y)) [
  | inl same ↦
      let cols : x' ≡ x = ground arith in
      let rows : y' ≡ y = ground arith in rw (same, cols, rows) (ground arith)
  | inr apart ↦
      let ne : y' * w + x' ≢ y * w + x = λ e. ground (arith, offset_injective w x' y' x y k h e) in
      rw apart (ground arith)
]

-- What `setPixelValue` does: it writes the one pixel of its position, inside the bitmap, or
-- refuses a position outside the image and leaves the image as it was.
abbrev pub Sets : ℤ → ℤ → ℕ → Image → Image × Status → Type 0
Sets x y v im (im', s) =
    ((in_range x im.width && in_range y im.height ≡ true)
      × (s ≡ ok)
      × (nat_of y * im.width + nat_of x < size im)
      × ((x' y' : ℕ)
          → x' < im.width
          → pixel im.width im'.bytes x' y'
            ≡ (if x' == nat_of x && y' == nat_of y then v else pixel im.width im.bytes x' y')))
    ⊎ ((in_range x im.width && in_range y im.height ≡ false) × (s ≡ invalid_parameter) × (im' ≡ im))

-- `setPixelValue` writes one pixel and no other, or refuses.
set_pixel_value_lem : (x y : ℤ) (v : ℕ) (im : Image) → Sets x y v im (set_pixel_value x y v im)
unfolding set_pixel_value
set_pixel_value_lem x y v im = elim (Bool-cases (in_range x im.width && in_range y im.height)) [
  | inl inside ↦
      let lt_x : nat_of x < im.width = in_range-lt x im.width (ground arith) in
      let lt_y : nat_of y < im.height = in_range-lt y im.height (ground arith) in
      inl (
        inside,
        rw inside refl,
        offset-lt im.width im.height (nat_of x) (nat_of y) lt_x lt_y,
        λ x' y' k. rw inside (put-pixel im.width im.bytes v (nat_of x) (nat_of y) x' y' lt_x k),
      )
  | inr outside ↦ inr (outside, rw outside refl, rw outside refl)
]

-- `getPixelValue` reads back what `setPixelValue` has written.
get-set_pixel_value :
    (x y : ℤ) (v : ℕ) (im : Image)
    → (set_pixel_value x y v im).1 ≡ ok
    → get_pixel_value x y (set_pixel_value x y v im).0 ≡ some v
unfolding get_pixel_value set_pixel_value put
get-set_pixel_value x y v im h = elim (Bool-cases (in_range x im.width && in_range y im.height)) [
  | inl inside ↦ rw inside (ground arith)
  | inr outside ↦ ground arith
]

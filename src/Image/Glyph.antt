-- ===== src/Image/Glyph.antt =====
-- source/types/MicroBitImage.cpp: `print`, which writes the glyph of a character into an image. The
-- characters of the font are a parameter, as a map from offsets to bytes.
use microbit_dal.Prelude.{
  ℕ, zero, suc, ◌+◌, ◌-◌, ◌*◌, ◌/◌, ◌%◌, ◌^◌, ◌≤◌, ◌<◌, ◌≡◌, refl, ap, ◌∙◌, Bool, true, false, ◌&&◌,
  ◌||◌, arith, ltb, leb, ◌==◌, if◌then◌else◌, if-cases,
}
use microbit_dal.Prelude.Bytes.{Bytes, put}
use microbit_dal.Image.{Image, Status, ok, invalid_parameter}
use microbit_dal.Image.Pixels.{put-pixel, pixel}

-- MICROBIT_FONT_WIDTH, MICROBIT_FONT_HEIGHT, MICROBIT_FONT_ASCII_START
abbrev pub font_width : ℕ
font_width = 5

abbrev pub font_height : ℕ
font_height = 5

abbrev pub font_ascii_start : ℕ
font_ascii_start = 32

-- `(v & (0x10 >> col)) ? 255 : 0`
abbrev pub glyph_bit : ℕ → ℕ → ℕ
glyph_bit v col = if v / 2 ^ (4 - col) % 2 == 1 then 255 else 0

-- The inner loop of `print`, from the column `col` on.
pub print_columns : ℕ → ℕ → ℕ → ℕ → ℕ → ℕ → ℕ → Bytes → Bytes
print_columns zero v w h x y col b = b
print_columns (suc n) v w h x y col b =
    print_columns n v w h x y (col + 1)
      (if ltb (x + col) w && ltb y h then put b (y * w + (x + col)) (glyph_bit v col) else b)

-- The outer loop, from the row `row` on; `offset` is that of the row's byte in the font.
pub print_rows : ℕ → Bytes → ℕ → ℕ → ℕ → ℕ → ℕ → ℕ → Bytes → Bytes
unfolding print_columns
print_rows zero font w h x y row offset b = b
print_rows (suc n) font w h x y row offset b =
    print_rows n font w h x y (row + 1) (offset + 1)
      (print_columns font_width (font offset) w h x (y + row) 0 b)

-- `print`, at a position that is not negative.
pub print : Bytes → ℕ → ℕ → ℕ → ℕ → Image → Image × Status
unfolding print_rows
print font ascii_end c x y im =
    if leb im.width x || leb im.height y || ltb c font_ascii_start || ltb ascii_end c
    then (im, invalid_parameter)
    else (
      record im {
        bytes =
            print_rows font_height font im.width im.height x y 0 ((c - font_ascii_start) * 5)
              im.bytes;
      },
      ok,
    )

columns_step :
    (c : Bool) (v w x y col px py : ℕ) (b : Bytes)
    → px < w
    → (c ≡ true → x + col < w)
    → pixel w (if c then put b (y * w + (x + col)) (glyph_bit v col) else b) px py
      ≡ (if c && (px == x + col && py == y) then glyph_bit v col else pixel w b px py)
columns_step true v w x y col px py b h k =
    put-pixel w b (glyph_bit v col) (x + col) y px py (k refl) h
columns_step false v w x y col px py b h k = refl

merge_columns :
    (n w h x y col px py g g' old : ℕ)
    → px < w
    → (px ≡ x + col → g ≡ g')
    → (if (py == y && ltb y h) && (leb (x + (col + 1)) px && ltb px (x + (col + 1) + n))
        then g'
        else if (ltb (x + col) w && ltb y h) && (px == x + col && py == y)
        then g
        else old)
      ≡ (if (py == y && ltb y h) && (leb (x + col) px && ltb px (x + col + suc n)) then g' else old)
merge_columns n w h x y col px py g g' old lt e = ground arith

merge_row :
    (h x y px py g old : ℕ)
    → py < h
    → (if (py == y && ltb y h) && (leb (x + 0) px && ltb px (x + 0 + 5)) then g else old)
      ≡ (if (py == y) && (leb x px && ltb px (x + 5)) then g else old)
merge_row h x y px py g old ht = ground arith

merge_rows :
    (n x y row px py g g₁ g' old : ℕ)
    → (py ≡ y + row → g ≡ g')
    → (y + row < py → g₁ ≡ g')
    → (if (leb (y + (row + 1)) py && ltb py (y + (row + 1) + n)) && (leb x px && ltb px (x + 5))
        then g₁
        else if (py == y + row) && (leb x px && ltb px (x + 5))
        then g
        else old)
      ≡ (if (leb (y + row) py && ltb py (y + row + suc n)) && (leb x px && ltb px (x + 5))
          then g'
          else old)
merge_rows n x y row px py g g₁ g' old e f = ground arith

print_columns_lem :
    (n v w h x y col px py : ℕ) (b : Bytes)
    → px < w
    → pixel w (print_columns n v w h x y col b) px py ≡ (
        if (py == y && ltb y h) && (leb (x + col) px && ltb px (x + col + n))
        then glyph_bit v (px - x)
        else pixel w b px py)
unfolding print_columns
print_columns_lem zero v w h x y col px py b lt = ground arith
print_columns_lem (suc n) v w h x y col px py b lt =
    let inside = ltb (x + col) w && ltb y h in
    let out = if inside then put b (y * w + (x + col)) (glyph_bit v col) else b in
    let same : px ≡ x + col → glyph_bit v col ≡ glyph_bit v (px - x) =
      λ e. ap (glyph_bit v) (omega arith) in
    print_columns_lem n v w h x y (col + 1) px py out lt
    ∙ ap
        (λ r.
          if (py == y && ltb y h) && (leb (x + (col + 1)) px && ltb px (x + (col + 1) + n))
          then glyph_bit v (px - x)
          else r)
        (columns_step inside v w x y col px py b lt (λ e. ground arith))
    ∙ merge_columns n w h x y col px py (glyph_bit v col) (glyph_bit v (px - x)) (pixel w b px py)
        lt same

print_rows_lem :
    (n : ℕ) (font : Bytes) (w h x y row offset px py : ℕ) (b : Bytes)
    → px < w
    → py < h
    → pixel w (print_rows n font w h x y row offset b) px py ≡ (
        if (leb (y + row) py && ltb py (y + row + n)) && (leb x px && ltb px (x + 5))
        then glyph_bit (font (offset + (py - (y + row)))) (px - x)
        else pixel w b px py)
unfolding print_rows
print_rows_lem zero font w h x y row offset px py b lt ht = ground arith
print_rows_lem (suc n) font w h x y row offset px py b lt ht =
    let v = font offset in
    let out = print_columns font_width v w h x (y + row) 0 b in
    let v' = font (offset + 1 + (py - (y + (row + 1)))) in
    let g = glyph_bit v (px - x) in
    let g' = glyph_bit (font (offset + (py - (y + row)))) (px - x) in
    let here : py ≡ y + row → g ≡ g' = λ e. ap (λ k. glyph_bit (font k) (px - x)) (omega arith) in
    print_rows_lem n font w h x y (row + 1) (offset + 1) px py out lt ht
    ∙ ap
        (λ r.
          if (leb (y + (row + 1)) py && ltb py (y + (row + 1) + n)) && (leb x px && ltb px (x + 5))
          then glyph_bit v' (px - x)
          else r)
        (print_columns_lem 5 v w h x (y + row) 0 px py b lt
          ∙ merge_row h x (y + row) px py g (pixel w b px py) ht)
    ∙ merge_rows n x y row px py g (glyph_bit v' (px - x)) g' (pixel w b px py) here
        (λ e. ap (λ k. glyph_bit (font k) (px - x)) (omega arith))

-- `print` of a character of the font, at a position inside the image: each pixel of the five by five
-- cell from there on, as far as it is inside the image, becomes the bit of the glyph, and no other
-- pixel changes.
pub print_lem :
    (font : Bytes) (ascii_end c x y px py : ℕ) (im : Image)
    → font_ascii_start ≤ c
    → c ≤ ascii_end
    → x < im.width
    → y < im.height
    → px < im.width
    → py < im.height
    → pixel im.width (print font ascii_end c x y im).0.bytes px py ≡ (
        if (leb y py && ltb py (y + 5)) && (leb x px && ltb px (x + 5))
        then glyph_bit (font ((c - font_ascii_start) * 5 + (py - y))) (px - x)
        else pixel im.width im.bytes px py)
unfolding print
print_lem font ascii_end c x y px py im lo hi xin yin pxin pyin =
    let good : (leb im.width x || leb im.height y || ltb c font_ascii_start || ltb ascii_end c)
        ≡ false =
      ground arith in
    let start = (c - font_ascii_start) * 5 in
    let printed = print_rows font_height font im.width im.height x y 0 start im.bytes in
    let pick : Bool → Image × Status =
      λ b. if b then (im, invalid_parameter) else (record im { bytes = printed }, ok) in
    ap (λ b. pixel im.width (pick b).0.bytes px py) good
    ∙ print_rows_lem 5 font im.width im.height x y 0 start px py im.bytes pxin pyin
    ∙ ap
        (λ k.
          if (leb k py && ltb py (k + 5)) && (leb x px && ltb px (x + 5))
          then glyph_bit (font (start + (py - k))) (px - x)
          else pixel im.width im.bytes px py)
        (omega arith)

pub print-width :
    (font : Bytes) (ascii_end c x y : ℕ) (im : Image)
    → ((print font ascii_end c x y im).0.width ≡ im.width)
      × ((print font ascii_end c x y im).0.height ≡ im.height)
unfolding print
print-width font ascii_end c x y im =
    let printed =
      print_rows font_height font im.width im.height x y 0 ((c - font_ascii_start) * 5) im.bytes in
    if-cases (λ (r : Image × Status). ((r.0).width ≡ im.width) × ((r.0).height ≡ im.height))
      (leb im.width x || leb im.height y || ltb c font_ascii_start || ltb ascii_end c)
      (im, invalid_parameter) (record im { bytes = printed }, ok) (λ t. (refl, refl))
      (λ f. (refl, refl))

-- ===== src/Image/Paste.antt =====
-- `paste` and `printImage`, by what the pixels read afterwards.
use microbit_dal.Prelude.{
  ℕ, suc, ◌+◌, ◌-◌, ◌*◌, ◌≤◌, ◌<◌, ◌≡◌, refl, sym, ap, ◌∙◌, inl, inr, Bool, true, false, ◌&&◌,
  Option, none, some, arith, ltb, leb, ◌==◌, if◌then◌else◌, leb→le, Bool-cases,
}
use microbit_dal.Prelude.Int.{ℤ, pos, negsuc}
use microbit_dal.Prelude.Bytes.{Bytes}
use microbit_dal.Image.{
  min, print_image, Image, in_range, nat_of, paste, clip, paste_clipped, Clip, copy_rows,
}
use microbit_dal.Image.Rows.{copy_rows_lem, copy_rows_before}
use microbit_dal.Image.Pixels.{pixel, row_lt}

-- Where in a source of `extent` pixels the target's pixel `a` comes from, if the source stands at
-- `x`: at `a - x`, if that is in the source.
abbrev pub source_of : ℤ → ℕ → ℕ → Option ℕ
source_of (pos x) extent a = if leb x a && ltb (a - x) extent then some (a - x) else none
source_of (negsuc x) extent a = if ltb (a + (x + 1)) extent then some (a + (x + 1)) else none

clip-none : (x : ℤ) (se e a : ℕ) → a < e → clip x se e ≡ none → source_of x se a ≡ none
unfolding clip
clip-none (pos x) se e a h k = ground arith
clip-none (negsuc x) se e a h k = ground arith

-- A clipped axis stays inside both ranges, and its pixels are those that the source covers.
clip-some :
    (x : ℤ) (se e a : ℕ) (c : Clip)
    → a < e
    → clip x se e ≡ some c
    → (c.target + c.count ≤ e)
      × (c.source + c.count ≤ se)
      × (source_of x se a ≡ (
          if leb c.target a && ltb (a - c.target) c.count
          then some (c.source + (a - c.target))
          else none))
unfolding clip
clip-some (pos x) se e a c h k = ground arith
clip-some (negsuc x) se e a c h k = ground arith

-- The block copy of `paste`, by the pixel of the target.
module _ (image im : Image) (cx cy : Clip) where
  abbrev first_out : ℕ
  first_out = cx.target + im.width * cy.target

  abbrev first_in : ℕ
  first_in = cx.source + image.width * cy.source

  abbrev block : Bytes
  block = copy_rows cy.count cx.count im.bytes first_out im.width image.bytes first_in image.width

  split_row :
      (y : ℕ) → cy.target ≤ y → y * im.width ≡ cy.target * im.width + (y - cy.target) * im.width
  split_row y h =
      let rows : y ≡ cy.target + (y - cy.target) = omega arith in
      ap (λ r. r * im.width) rows ∙ grind arith

  above-first : (x y : ℕ) → x < im.width → y < cy.target → y * im.width + x < first_out
  above-first x y h k =
      let less : y * im.width + x < cy.target * im.width + 0 =
        row_lt im.width x y 0 cy.target h k in
      grind arith

  split-offset :
      (x y : ℕ)
      → cx.target ≤ x
      → cy.target ≤ y
      → y * im.width + x ≡ first_out + ((y - cy.target) * im.width + (x - cx.target))
  split-offset x y h k = let rows = split_row y k in grind arith

  -- A pixel to the left of the block, seen from the block's last row above it.
  left-offset :
      (x y : ℕ)
      → x < im.width
      → x < cx.target
      → cx.target ≤ im.width
      → cy.target < y
      → y * im.width + x ≡ first_out + ((y - cy.target - 1) * im.width + (im.width - cx.target + x))
  left-offset x y h k fits l =
      let rows = split_row y (omega arith) in
      let step : y - cy.target ≡ suc (y - cy.target - 1) = omega arith in
      let prev : (y - cy.target) * im.width ≡ (y - cy.target - 1) * im.width + im.width =
        ap (λ r. r * im.width) step ∙ grind arith in
      grind arith

  left-first : (x y : ℕ) → x < cx.target → cy.target ≡ y → y * im.width + x < first_out
  left-first x y h e =
      let rows : y * im.width ≡ cy.target * im.width = ap (λ r. r * im.width) (sym e) in grind arith

  block-pixel :
      (x y : ℕ)
      → x < im.width
      → cx.target + cx.count ≤ im.width
      → pixel im.width block x y ≡ (
          if (leb cx.target x && ltb (x - cx.target) cx.count)
            && (leb cy.target y && ltb (y - cy.target) cy.count)
          then pixel image.width image.bytes
              (cx.source + (x - cx.target))
              (cy.source + (y - cy.target))
          else pixel im.width im.bytes x y)
  block-pixel x y h fits = elim (Bool-cases (leb cy.target y)) [
    | inr above ↦
        copy_rows_before cy.count cx.count im.bytes first_out im.width image.bytes first_in
          image.width (y * im.width + x) (above-first x y h (ground arith))
        ∙ ground arith
    | inl below ↦ elim (Bool-cases (leb cx.target x)) [
      | inl right ↦
          copy_rows_lem cy.count cx.count im.bytes first_out im.width image.bytes first_in
            image.width (x - cx.target) (y - cy.target) (y * im.width + x)
            ((cy.source + (y - cy.target)) * image.width + (cx.source + (x - cx.target)))
            (omega arith) (omega arith)
            (split-offset x y (leb→le cx.target x right) (leb→le cy.target y below)) (grind arith)
          ∙ ground arith
      | inr left ↦ elim (Bool-cases (cy.target == y)) [
        | inl first ↦
            copy_rows_before cy.count cx.count im.bytes first_out im.width image.bytes first_in
              image.width (y * im.width + x) (left-first x y (ground arith) (ground arith))
            ∙ ground arith
        | inr next ↦
            copy_rows_lem cy.count cx.count im.bytes first_out im.width image.bytes first_in
              image.width (im.width - cx.target + x) (y - cy.target - 1) (y * im.width + x)
              (first_in + ((y - cy.target - 1) * image.width + (im.width - cx.target + x)))
              (omega arith) (ground arith)
              (left-offset x y h (ground arith) (omega arith) (ground arith)) refl
            ∙ ground arith
      ]
    ]
  ]

-- The pixel that the pasted image shows where the sources of the two axes are `i` and `j`.
abbrev pub shown : Image → Option ℕ → Option ℕ → ℕ → ℕ
shown image none j old = old
shown image (some i) none old = old
shown image (some i) (some j) old = pixel image.width image.bytes i j

shown-if :
    (image : Image) (p q : Bool) (i j old : ℕ)
    → (if p && q then pixel image.width image.bytes i j else old)
      ≡ shown image (if p then some i else none) (if q then some j else none) old
shown-if image true true i j old = refl
shown-if image true false i j old = refl
shown-if image false q i j old = refl

shown-none : (image : Image) (i : Option ℕ) (old : ℕ) → shown image i none old ≡ old
shown-none image none old = refl
shown-none image (some i) old = refl

-- `paste` where the two axes have been clipped.
pasted : Image → Image → Option Clip → Option Clip → Image × ℕ
unfolding paste_clipped
pasted image im none cy = (im, 0)
pasted image im (some cx) none = (im, 0)
pasted image im (some cx) (some cy) = paste_clipped image cx cy false im

paste-pasted :
    (image : Image) (x y : ℤ) (im : Image) (cx cy : Option Clip)
    → clip x image.width im.width ≡ cx
    → clip y image.height im.height ≡ cy
    → paste image x y false im ≡ pasted image im cx cy
unfolding paste pasted
paste-pasted image x y im none cy e f = rw (e, paste) refl
paste-pasted image x y im (some c) none e f = rw (e, f, paste) refl
paste-pasted image x y im (some c) (some d) e f = rw (e, f, paste) refl

paste_clips :
    (image : Image) (x y : ℤ) (im : Image) (a b : ℕ) (cx cy : Option Clip)
    → a < im.width
    → b < im.height
    → clip x image.width im.width ≡ cx
    → clip y image.height im.height ≡ cy
    → pixel im.width (pasted image im cx cy).0.bytes a b
      ≡ shown image
          (source_of x image.width a)
          (source_of y image.height b)
          (pixel im.width im.bytes a b)
unfolding paste_clipped pasted
paste_clips image x y im a b none cy h k e f =
    ap (λ s. shown image s (source_of y image.height b) (pixel im.width im.bytes a b))
      (sym (clip-none x image.width im.width a h e))
paste_clips image x y im a b (some c) none h k e f =
    sym (shown-none image (source_of x image.width a) (pixel im.width im.bytes a b))
    ∙ ap (λ s. shown image (source_of x image.width a) s (pixel im.width im.bytes a b))
        (sym (clip-none y image.height im.height b k f))
paste_clips image x y im a b (some c) (some d) h k e f =
    let cols = clip-some x image.width im.width a c h e in
    let rows = clip-some y image.height im.height b d k f in
    block-pixel image im c d a b h cols.0
    ∙ shown-if image (leb c.target a && ltb (a - c.target) c.count)
        (leb d.target b && ltb (b - d.target) d.count) (c.source + (a - c.target))
        (d.source + (b - d.target)) (pixel im.width im.bytes a b)
    ∙ ap
        (λ s.
          shown image s
            (if leb d.target b && ltb (b - d.target) d.count
              then some (d.source + (b - d.target))
              else none)
            (pixel im.width im.bytes a b))
        (sym cols.2)
    ∙ ap (λ s. shown image (source_of x image.width a) s (pixel im.width im.bytes a b)) (sym rows.2)

-- `paste` without transparency: each pixel of the image becomes the one of the pasted image that
-- covers it, if there is one, and is unchanged if not.
pub paste_lem :
    (image : Image) (x y : ℤ) (im : Image) (a b : ℕ)
    → a < im.width
    → b < im.height
    → pixel im.width (paste image x y false im).0.bytes a b
      ≡ shown image
          (source_of x image.width a)
          (source_of y image.height b)
          (pixel im.width im.bytes a b)
paste_lem image x y im a b h k =
    ap (λ r. pixel im.width r.0.bytes a b)
      (paste-pasted image x y im (clip x image.width im.width) (clip y image.height im.height) refl
        refl)
    ∙ paste_clips image x y im a b (clip x image.width im.width) (clip y image.height im.height) h k
        refl refl

-- `printImage` of a bitmap that is not NULL shows the bitmap where it reaches, and leaves the
-- other pixels as they were. A width below 1 changes nothing.
print_image_lem :
    (width height : ℤ) (bitmap : Bytes) (im : Image) (x y : ℕ)
    → x < im.width
    → y < im.height
    → pixel im.width (print_image width height (some bitmap) im).0.bytes x y ≡ (
        if ltb x (nat_of width) && ltb y (nat_of height)
        then pixel (nat_of width) bitmap x y
        else pixel im.width im.bytes x y)
unfolding print_image
print_image_lem width height bitmap im x y h k =
    elim (Bool-cases (in_range (pos 0) (nat_of width))) [
      | inr no_width ↦ rw no_width (ground arith)
      | inl some_width ↦ rw some_width (
          copy_rows_lem (min (nat_of height) im.height) (min (nat_of width) im.width) im.bytes 0
            im.width bitmap 0 (nat_of width) x y (y * im.width + x) (y * nat_of width + x)
            (omega arith) h (omega arith) (omega arith)
          ∙ ground arith)
    ]

-- ===== src/Image/Rows.antt =====
-- The row loops of the image operations, pixel by pixel.
use microbit_dal.Prelude.{
  ℕ, zero, suc, ◌+◌, ◌-◌, ◌*◌, ◌≤◌, ◌<◌, ◌≡◌, refl, ap, ◌∙◌, ◌⊎◌, inl, inr, false, ◌&&◌, arith, ltb,
  if◌then◌else◌, ltb→lt, Bool-cases,
}
use microbit_dal.Prelude.Bytes.{
  CopiesApart, clear-miss, clear-hit, copy-miss, copy-hit, Bytes, copy, clear,
}
use microbit_dal.Image.{copy_rows, left_rows, right_rows, up_rows}

pub copy_rows_before :
    (rows n : ℕ) (out : Bytes) (p so : ℕ) (inp : Bytes) (q si i : ℕ)
    → i < p
    → copy_rows rows n out p so inp q si i ≡ out i
unfolding copy_rows
copy_rows_before zero n out p so inp q si i h = refl
copy_rows_before (suc rows) n out p so inp q si i h =
    copy_rows_before rows n (copy out p inp q n) (p + so) so inp (q + si) si i (omega arith)
    ∙ copy-miss out p n inp q i (inl h)

copy_first :
    (out inp : Bytes) (p q n x i j : ℕ)
    → i ≡ p + x
    → j ≡ q + x
    → copy out p inp q n i ≡ (if ltb x n then inp j else out i)
copy_first out inp p q n x i j e f = elim (Bool-cases (ltb x n)) [
  | inl inside ↦ rw inside (copy-hit out p n inp q i x j (ltb→lt x n inside) e f)
  | inr outside ↦ rw outside (copy-miss out p n inp q i (inr (ground arith)))
]

-- What a block copy leaves at column `x` of row `y`, counted from where it starts.
pub copy_rows_lem :
    (rows n : ℕ) (out : Bytes) (p so : ℕ) (inp : Bytes) (q si x y i j : ℕ)
    → n ≤ so
    → x < so
    → i ≡ p + (y * so + x)
    → j ≡ q + (y * si + x)
    → copy_rows rows n out p so inp q si i ≡ (if ltb y rows && ltb x n then inp j else out i)
unfolding copy_rows
copy_rows_lem zero n out p so inp q si x y i j h k e f = ground arith
copy_rows_lem (suc rows) n out p so inp q si x zero i j h k e f =
    copy_rows_before rows n (copy out p inp q n) (p + so) so inp (q + si) si i (omega arith)
    ∙ copy_first out inp p q n x i j (omega arith) (omega arith)
    ∙ ground arith
copy_rows_lem (suc rows) n out p so inp q si x (suc y) i j h k e f =
    let ih =
      copy_rows_lem rows n (copy out p inp q n) (p + so) so inp (q + si) si x y i j h k
        (grind arith) (grind arith) in
    ground (arith, ih, copy-miss out p n inp q i (inr (grind arith)))

pub ltb-false : (a b : ℕ) → ltb a b ≡ false → b ≤ a
ltb-false a b h = ground arith

module _ (memcpy : Bytes → ℕ → ℕ → ℕ → Bytes) (apart : CopiesApart memcpy) (w n : ℕ)
    (narrow : n ≤ w) (far : w ≤ n + n) where
  copied : (b : Bytes) (p i : ℕ) → memcpy b p (p + n) (w - n) i ≡ copy b p b (p + n) (w - n) i
  copied b p i = apart b p (p + n) (w - n) i (inl (omega arith))

  left_row : Bytes → ℕ → Bytes
  left_row b p = clear (memcpy b p (p + n) (w - n)) (p + (w - n)) n

  left_row-miss : (b : Bytes) (p i : ℕ) → (i < p) ⊎ (p + w ≤ i) → left_row b p i ≡ b i
  unfolding left_row
  left_row-miss b p i (inl h) =
      clear-miss (memcpy b p (p + n) (w - n)) (p + (w - n)) n i (inl (omega arith))
      ∙ copied b p i
      ∙ copy-miss b p (w - n) b (p + n) i (inl h)
  left_row-miss b p i (inr h) =
      clear-miss (memcpy b p (p + n) (w - n)) (p + (w - n)) n i (inr (omega arith))
      ∙ copied b p i
      ∙ copy-miss b p (w - n) b (p + n) i (inr (omega arith))

  left_row-hit :
      (b : Bytes) (p x i : ℕ)
      → x < w
      → i ≡ p + x
      → left_row b p i ≡ (if ltb (x + n) w then b (i + n) else 0)
  unfolding left_row
  left_row-hit b p x i h e = elim (Bool-cases (ltb (x + n) w)) [
    | inl inside ↦ rw inside (
        clear-miss (memcpy b p (p + n) (w - n)) (p + (w - n)) n i (inl (ground arith))
        ∙ copied b p i
        ∙ copy-hit b p (w - n) b (p + n) i x (i + n) (ground arith) e (omega arith))
    | inr past ↦
        rw past
          (clear-hit (memcpy b p (p + n) (w - n)) (p + (w - n)) n i (ground arith) (omega arith))
  ]

  left_rows_before :
      (rows : ℕ) (b : Bytes) (p i : ℕ) → i < p → left_rows memcpy rows w n b p i ≡ b i
  unfolding left_rows left_row
  left_rows_before zero b p i h = refl
  left_rows_before (suc rows) b p i h =
      left_rows_before rows (left_row b p) (p + w) i (omega arith) ∙ left_row-miss b p i (inl h)

  -- `shiftLeft`: each pixel of the rows is the one `n` columns to its right, or blank.
  pub left_rows_lem :
      (rows : ℕ) (b : Bytes) (p x y i : ℕ)
      → x < w
      → y < rows
      → i ≡ p + (y * w + x)
      → left_rows memcpy rows w n b p i ≡ (if ltb (x + n) w then b (i + n) else 0)
  unfolding left_rows left_row
  left_rows_lem zero b p x y i h k e = absurd (omega arith)
  left_rows_lem (suc rows) b p x zero i h k e =
      left_rows_before rows (left_row b p) (p + w) i (omega arith)
      ∙ left_row-hit b p x i h (omega arith)
  left_rows_lem (suc rows) b p x (suc y) i h k e =
      left_rows_lem rows (left_row b p) (p + w) x y i h (omega arith) (grind arith)
      ∙ ap (λ v. if ltb (x + n) w then v else 0) (left_row-miss b p (i + n) (inr (grind arith)))

module _ (w n : ℕ) (narrow : n ≤ w) where
  right_row : Bytes → ℕ → Bytes
  right_row b p = clear (copy b (p + n) b p (w - n)) p n

  right_row-miss : (b : Bytes) (p i : ℕ) → (i < p) ⊎ (p + w ≤ i) → right_row b p i ≡ b i
  unfolding right_row
  right_row-miss b p i (inl h) =
      clear-miss (copy b (p + n) b p (w - n)) p n i (inl h)
      ∙ copy-miss b (p + n) (w - n) b p i (inl (omega arith))
  right_row-miss b p i (inr h) =
      clear-miss (copy b (p + n) b p (w - n)) p n i (inr (omega arith))
      ∙ copy-miss b (p + n) (w - n) b p i (inr (omega arith))

  right_row-hit :
      (b : Bytes) (p x i : ℕ)
      → x < w
      → i ≡ p + x
      → right_row b p i ≡ (if ltb x n then 0 else b (i - n))
  unfolding right_row
  right_row-hit b p x i h e = elim (Bool-cases (ltb x n)) [
    | inl blank ↦
        rw blank (clear-hit (copy b (p + n) b p (w - n)) p n i (omega arith) (ground arith))
    | inr inside ↦ rw inside (
        clear-miss (copy b (p + n) b p (w - n)) p n i (inr (ground arith))
        ∙ copy-hit b (p + n) (w - n) b p i (x - n) (i - n) (ground arith) (ground arith)
            (ground arith))
  ]

  right_rows_before : (rows : ℕ) (b : Bytes) (p i : ℕ) → i < p → right_rows rows w n b p i ≡ b i
  unfolding right_rows right_row
  right_rows_before zero b p i h = refl
  right_rows_before (suc rows) b p i h =
      right_rows_before rows (right_row b p) (p + w) i (omega arith) ∙ right_row-miss b p i (inl h)

  -- `shiftRight`: each pixel of the rows is the one `n` columns to its left, or blank.
  pub right_rows_lem :
      (rows : ℕ) (b : Bytes) (p x y i : ℕ)
      → x < w
      → y < rows
      → i ≡ p + (y * w + x)
      → right_rows rows w n b p i ≡ (if ltb x n then 0 else b (i - n))
  unfolding right_rows right_row
  right_rows_lem zero b p x y i h k e = absurd (omega arith)
  right_rows_lem (suc rows) b p x zero i h k e =
      right_rows_before rows (right_row b p) (p + w) i (omega arith)
      ∙ right_row-hit b p x i h (omega arith)
  right_rows_lem (suc rows) b p x (suc y) i h k e =
      right_rows_lem rows (right_row b p) (p + w) x y i h (omega arith) (grind arith)
      ∙ elim (Bool-cases (ltb x n)) [
        | inl blank ↦ rw blank refl
        | inr inside ↦ rw inside (right_row-miss b p (i - n) (inr (later (ltb-false x n inside))))
      ]
    where
      later : n ≤ x → p + w ≤ i - n
      later c = grind arith

-- One row of `shiftUp`: row `y` of `h` is taken from `n` rows below, or blank.
module _ (w h n : ℕ) where
  up_row : Bytes → ℕ → ℕ → Bytes
  up_row b p y = if ltb y (h - n) then copy b p b (p + w * n) w else clear b p w

  up_row-miss : (b : Bytes) (p y i : ℕ) → (i < p) ⊎ (p + w ≤ i) → up_row b p y i ≡ b i
  unfolding up_row
  up_row-miss b p y i out = elim (Bool-cases (ltb y (h - n))) [
    | inl inside ↦ rw inside (copy-miss b p w b (p + w * n) i out)
    | inr past ↦ rw past (clear-miss b p w i out)
  ]

  up_row-hit :
      (b : Bytes) (p y x i : ℕ)
      → x < w
      → i ≡ p + x
      → up_row b p y i ≡ (if ltb y (h - n) then b (i + w * n) else 0)
  unfolding up_row
  up_row-hit b p y x i lt e = elim (Bool-cases (ltb y (h - n))) [
    | inl inside ↦ rw inside (copy-hit b p w b (p + w * n) i x (i + w * n) lt e (omega arith))
    | inr past ↦ rw past (clear-hit b p w i (omega arith) (omega arith))
  ]

  up_rows_before : (rows : ℕ) (b : Bytes) (p y i : ℕ) → i < p → up_rows rows w h n b p y i ≡ b i
  unfolding up_rows up_row
  up_rows_before zero b p y i lt = refl
  up_rows_before (suc rows) b p y i lt =
      up_rows_before rows (up_row b p y) (p + w) (y + 1) i (omega arith)
      ∙ up_row-miss b p y i (inl lt)

  -- `shiftUp`: each pixel of the rows is the one `n` rows below, or blank.
  pub up_rows_lem :
      (rows : ℕ) (b : Bytes) (p y x r i : ℕ)
      → x < w
      → r < rows
      → i ≡ p + (r * w + x)
      → up_rows rows w h n b p y i ≡ (if ltb (y + r) (h - n) then b (i + w * n) else 0)
  unfolding up_rows up_row
  up_rows_lem zero b p y x r i lt k e = absurd (omega arith)
  up_rows_lem (suc rows) b p y x zero i lt k e =
      let same : y ≡ y + 0 = omega arith in
      up_rows_before rows (up_row b p y) (p + w) (y + 1) i (omega arith)
      ∙ up_row-hit b p y x i lt (omega arith)
      ∙ ap (λ z. if ltb z (h - n) then b (i + w * n) else 0) same
  up_rows_lem (suc rows) b p y x (suc r) i lt k e =
      let same : y + 1 + r ≡ y + suc r = omega arith in
      up_rows_lem rows (up_row b p y) (p + w) (y + 1) x r i lt (omega arith) (grind arith)
      ∙ ap (λ v. if ltb (y + 1 + r) (h - n) then v else 0)
          (up_row-miss b p y (i + w * n) (inr (grind arith)))
      ∙ ap (λ z. if ltb z (h - n) then b (i + w * n) else 0) same

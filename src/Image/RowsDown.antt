-- ===== src/Image/RowsDown.antt =====
-- The loop of `shiftDown` of source/types/MicroBitImage.cpp, which runs from the last row to the first.
use microbit_dal.Prelude.{
  ℕ, zero, suc, ◌+◌, ◌-◌, ◌*◌, ◌≤◌, ◌<◌, ◌≡◌, refl, ap, ◌∙◌, ◌⊎◌, inl, inr, arith, ltb, leb, ◌==◌,
  if◌then◌else◌, ltb→lt, Bool-cases,
}
use microbit_dal.Prelude.Bytes.{clear-miss, clear-hit, copy-miss, copy-hit, Bytes, copy, clear}
use microbit_dal.Image.{down_rows}

row_above : (w rows : ℕ) → 0 < rows → w * rows ≡ w * (rows - 1) + w
row_above w zero h = absurd (omega (arith, h))
row_above w (suc m) h = let e : suc m - 1 ≡ m = omega arith in rw e (grind arith)

module _ (w h n : ℕ) where
  down_row : Bytes → ℕ → ℕ → Bytes
  down_row b p y = if ltb y (h - n) then copy b p b (p - w * n) w else clear b p w

  down_row-miss : (b : Bytes) (p y i : ℕ) → (i < p) ⊎ (p + w ≤ i) → down_row b p y i ≡ b i
  unfolding down_row
  down_row-miss b p y i out = elim (Bool-cases (ltb y (h - n))) [
    | inl inside ↦ rw inside (copy-miss b p w b (p - w * n) i out)
    | inr past ↦ rw past (clear-miss b p w i out)
  ]

  down_row-hit :
      (b : Bytes) (p y x i : ℕ)
      → x < w
      → i ≡ p + x
      → (y < h - n → w * n ≤ p)
      → down_row b p y i ≡ (if ltb y (h - n) then b (i - w * n) else 0)
  unfolding down_row
  down_row-hit b p y x i lt e room = elim (Bool-cases (ltb y (h - n))) [
    | inl inside ↦
        let enough : w * n ≤ p = room (ltb→lt y (h - n) inside) in
        rw inside (copy-hit b p w b (p - w * n) i x (i - w * n) lt e (omega (arith, enough, e)))
    | inr past ↦ rw past (clear-hit b p w i (omega arith) (omega arith))
  ]

  down_rows_after :
      (rows : ℕ) (b : Bytes) (p y i : ℕ) → p + w ≤ i → down_rows rows w h n b p y i ≡ b i
  unfolding down_rows down_row
  down_rows_after zero b p y i ge = refl
  down_rows_after (suc rows) b p y i ge =
      down_rows_after rows (down_row b p y) (p - w) (y + 1) i (omega (arith, ge))
      ∙ down_row-miss b p y i (inr ge)

  down_rows_done :
      (rows : ℕ) (b : Bytes) (p y i : ℕ)
      → p ≡ w * rows
      → p ≤ i
      → down_rows rows w h n b (p - w) y i ≡ b i
  unfolding down_rows
  down_rows_done zero b p y i e ge = refl
  down_rows_done (suc rows) b p y i e ge =
      let wide : w * suc rows ≡ w * rows + w = grind arith in
      down_rows_after (suc rows) b (p - w) y i (omega (arith, e, wide, ge))

  -- `shiftDown`: each pixel of the rows is the one `n` rows above, or blank.
  pub down_rows_lem :
      (rows : ℕ) (b : Bytes) (p y x r i : ℕ)
      → p ≡ w * (rows - 1)
      → y + rows ≡ h
      → x < w
      → r < rows
      → i ≡ r * w + x
      → down_rows rows w h n b p y i ≡ (if leb n r then b (i - w * n) else 0)
  unfolding down_rows down_row
  down_rows_lem zero b p y x r i at all lt k e = absurd (omega (arith, k))
  down_rows_lem (suc rows) b p y x r i at all lt k e =
      let place : p ≡ w * rows = at ∙ ap (λ k. w * k) (omega arith) in
      elim (Bool-cases (r == rows)) [
        | inl last ↦
            let same : r ≡ rows = ground arith in
            let test : ltb y (h - n) ≡ leb n r = ground arith in
            let here : i ≡ p + x = grind arith in
            down_rows_done rows (down_row b p y) p (y + 1) i place (omega (arith, here))
            ∙ down_row-hit b p y x i lt here (λ k.
              let few : n ≤ rows = omega (arith, k, all) in
              let most : w * n ≤ w * rows = grind arith in omega (arith, most, place))
            ∙ ap (λ t. if t then b (i - w * n) else 0) test
        | inr above ↦
            let inside : r < rows = ground arith in
            down_rows_lem rows (down_row b p y) (p - w) (y + 1) x r i
              (let one_less = row_above w rows (omega (arith, inside)) in
                omega (arith, one_less, place))
              (omega (arith, all)) lt inside e
            ∙ ap (λ v. if leb n r then v else 0)
                (down_row-miss b p y (i - w * n) (
                  inl (
                    let row : suc r * w ≤ rows * w = grind arith in
                    let end : i < w * rows = grind arith in omega (arith, end, place))))
      ]

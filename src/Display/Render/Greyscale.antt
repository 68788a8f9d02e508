-- ===== src/Display/Render/Greyscale.antt =====
-- The greyscale mode: how long each LED of the row that is strobed is lit.
use microbit_dal.Prelude.{
  Bool, ℕ, zero, suc, ◌+◌, ◌-◌, ◌<◌, ◌≡◌, refl, ap, subst, ◌∙◌, inl, inr, true, ◌&&◌, Option, none,
  some, List, [], ◌∷◌, arith, ltb, ◌==◌, if◌then◌else◌, ltb→lt, Bool-cases,
}
use microbit_dal.Display.{Display}
use microbit_dal.Display.Render.{
  MatrixMap, bit, min, column_pixel, render_greyscale, grey_scale_timings,
}
use microbit_dal.Display.Render.Scan.{lights, Apart, port_word-lights}

-- The microseconds for which an LED is lit by the words of one row.
abbrev pub lit_time : MatrixMap → ℕ → ℕ → List ((ℕ → Bool) × Option ℕ) → ℕ
lit_time m r c [] = 0
lit_time m r c ((word, none) ∷ ws) = lit_time m r c ws
lit_time m r c ((word, some t) ∷ ws) = (if lights m word r c then t else 0) + lit_time m r c ws

-- The timings of the bits that are set.
abbrev bits_time : ℕ → List ℕ → ℕ → ℕ
bits_time k [] v = 0
bits_time k (t ∷ ts) v = (if bit k v then t else 0) + bits_time (suc k) ts v

-- The level of a column: its pixel, cut at the brightness of the display.
abbrev pub level : MatrixMap → Display → ℕ → ℕ
level m d c = min (column_pixel m d c) d.brightness

if-both-add :
    (b on : Bool) (t v : ℕ)
    → (if b && on then t else 0) + (if b then v else 0)
      ≡ (if b then (if on then t else 0) + v else 0)
if-both-add b on t v = ground arith

lit_time-render_greyscale :
    (m : MatrixMap) (d : Display) (r c k : ℕ) (ts : List ℕ)
    → Apart m
    → d.strobe_row < m.rows
    → r < m.rows
    → c < m.columns
    → lit_time m r c (render_greyscale m d k ts)
      ≡ (if r == d.strobe_row then bits_time k ts (level m d c) else 0)
unfolding render_greyscale
lit_time-render_greyscale m d r c k [] a hs hr hc = ground arith
lit_time-render_greyscale m d r c k (t ∷ ts) a hs hr hc =
    let cols : ℕ → Bool = λ i. bit k (level m d i) in
    let rest = lit_time-render_greyscale m d r c (suc k) ts a hs hr hc in
    ap (λ b. (if b then t else 0) + lit_time m r c (render_greyscale m d (suc k) ts))
      (port_word-lights m d.strobe_row cols r c a hs hr hc)
    ∙ ap (λ n. (if r == d.strobe_row && cols c then t else 0) + n) rest
    ∙ if-both-add (r == d.strobe_row) (bit k (level m d c)) t (bits_time (suc k) ts (level m d c))

abbrev time : ℕ → ℕ
time v = bits_time 0 grey_scale_timings v

-- Whether each level below `n` is lit for less time than the next.
abbrev rises : ℕ → Bool
rises zero = true
rises (suc n) =
    ltb (bits_time 0 grey_scale_timings n) (bits_time 0 grey_scale_timings (suc n)) && rises n

rises_all : rises 255 ≡ true
rises_all = refl

bits_time-step : (n v : ℕ) → rises n ≡ true → v < n → time v < time (suc v)
bits_time-step zero v h l = absurd (omega (arith, l))
bits_time-step (suc n) v h l = elim (Bool-cases (v == n)) [
  | inl same ↦
      let e : v ≡ n = ground arith in
      let now : ltb (time n) (time (suc n)) ≡ true = ground arith in
      rw e (ltb→lt (time n) (time (suc n)) now)
  | inr other ↦
      let before : rises n ≡ true = ground arith in
      let below : v < n = ground arith in bits_time-step n v before below
]

bits_time-rises : (v k : ℕ) → v + suc k < 256 → time v < time (v + suc k)
bits_time-rises v zero h =
    let below : v < 255 = omega arith in
    let e : v + 1 ≡ suc v = omega arith in rw e (bits_time-step 255 v rises_all below)
bits_time-rises v (suc k) h =
    let below : v + suc k < 256 = omega arith in
    let last : v + suc k < 255 = omega arith in
    let e : v + suc (suc k) ≡ suc (v + suc k) = omega arith in
    let first = bits_time-rises v k below in
    let next = bits_time-step 255 (v + suc k) rises_all last in rw e (omega (arith, first, next))

strobed_time :
    (m : MatrixMap) (d : Display) (c : ℕ)
    → Apart m
    → d.strobe_row < m.rows
    → c < m.columns
    → lit_time m d.strobe_row c (render_greyscale m d 0 grey_scale_timings) ≡ time (level m d c)
strobed_time m d c a hs hc =
    let here : (d.strobe_row == d.strobe_row) ≡ true = ground arith in
    lit_time-render_greyscale m d d.strobe_row c 0 grey_scale_timings a hs hs hc
    ∙ ap (λ b. if b then time (level m d c) else 0) here

-- In greyscale, of two LEDs in the row that is strobed, the one whose pixel is greater, once both are
-- cut at the brightness of the display, is lit for longer. The pins of rows and columns are apart,
-- and the greater level is a byte.
pub greyscale_brighter :
    (m : MatrixMap) (d : Display) (c c' : ℕ)
    → Apart m
    → d.strobe_row < m.rows
    → c < m.columns
    → c' < m.columns
    → min (column_pixel m d c) d.brightness < min (column_pixel m d c') d.brightness
    → min (column_pixel m d c') d.brightness < 256
    → lit_time m d.strobe_row c (render_greyscale m d 0 grey_scale_timings)
      < lit_time m d.strobe_row c' (render_greyscale m d 0 grey_scale_timings)
greyscale_brighter m d c c' a hs hc hc' less byte =
    let v = level m d c in
    let v' = level m d c' in
    let gap : v + suc (v' - suc v) ≡ v' = omega arith in
    let more : time v < time v' =
      subst (λ x. x < 256 → time v < time x) gap (bits_time-rises v (v' - suc v)) byte in
    rw (strobed_time m d c a hs hc, strobed_time m d c' a hs hc') more

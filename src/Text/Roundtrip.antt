-- ===== src/Text/Roundtrip.antt =====
-- `itoa` against a reader of numbers, which is what a decimal number in a string means.
use microbit_dal.Prelude.{
  ℕ, zero, suc, ◌+◌, ◌-◌, ◌*◌, ◌%◌, ◌^◌, ◌≤◌, ◌<◌, ◌≡◌, inr, sym, ap, ◌∙◌, true, false, ◌==◌,
  if◌then◌else◌, arith,
}
use microbit_dal.Prelude.Int.{ℤ, pos, negsuc}
use microbit_dal.Prelude.Bytes.{Bytes, put}
use microbit_dal.Text.{string_reverse, magnitude, digits_loop, finish, itoa, is_digit}
use microbit_dal.Text.Decimal.{
  div10, Written, digits_loop-Written, digits_loop-bound, string_reverse-Reversed, put-here,
  put-below,
}

-- The number that the digits from `o` on stand for, behind a part that stands for `acc`.
abbrev pub read_digits : ℕ → ℕ → ℕ → Bytes → ℕ
read_digits zero o acc s = acc
read_digits (suc fuel) o acc s =
    let rest = read_digits fuel (o + 1) (10 * acc + (s o - 48)) s in
    if is_digit (s o) then rest else acc

-- The number that a string stands for: a minus sign, if any, and digits up to a character that is
-- none.
abbrev pub read_number : Bytes → ℤ
read_number s = if s 0 == 45 then negsuc (read_digits 12 1 0 s - 1) else pos (read_digits 12 0 0 s)

-- The `t` digits of `m` from `o` on, the highest first, and a 0 behind them.
abbrev Shown : ℕ → ℕ → ℕ → Bytes → Type 0
Shown o t m r = ((k : ℕ) → k < t → r (o + k) ≡ div10 (t - 1 - k) m % 10 + 48) × (r (o + t) ≡ 0)

read_digits-Shown :
    (t fuel o acc m : ℕ) (r : Bytes)
    → Shown o t m r
    → acc ≡ div10 t m
    → t < fuel
    → read_digits fuel o acc r ≡ m
read_digits-Shown t zero o acc m r h e lt = absurd (omega arith)
read_digits-Shown zero (suc fuel) o acc m r (digits, end) e lt =
    let here : r o ≡ 0 = ap r (omega arith) ∙ end in
    let stop : is_digit (r o) ≡ false = ground arith in
    ap (λ b. if b then read_digits fuel (o + 1) (10 * acc + (r o - 48)) r else acc) stop ∙ e
read_digits-Shown (suc t) (suc fuel) o acc m r (digits, end) e lt =
    let last : suc t - 1 - 0 ≡ t = omega arith in
    let here : r o ≡ div10 t m % 10 + 48 =
      ap r (omega arith) ∙ digits 0 (omega arith) ∙ ap (λ k. div10 k m % 10 + 48) last in
    let go : is_digit (r o) ≡ true = ground arith in
    ap (λ b. if b then read_digits fuel (o + 1) (10 * acc + (r o - 48)) r else acc) go
    ∙ read_digits-Shown t fuel (o + 1) (10 * acc + (r o - 48)) m r
        (
          (λ k h.
              let e' : suc t - 1 - (k + 1) ≡ t - 1 - k = omega arith in
              ap r (omega arith) ∙ digits (k + 1) (omega arith) ∙ ap (λ j. div10 j m % 10 + 48) e'),
          ap r (omega arith) ∙ end,
        )
        (omega arith) (omega arith)

module _ (m c : ℕ) (s s' : Bytes) (w : Written m 0 s (s', c)) where
  digit : (k : ℕ) → k < c → s' (c - 1 - k) ≡ div10 (c - 1 - k) m % 10 + 48
  digit k h =
      let (some_digit, here, below, all) = w in
      here (c - 1 - k) (omega arith) (omega arith) ∙ ap (λ j. div10 j m % 10 + 48) (omega arith)

  Shown-pos : Shown 0 c m (string_reverse c (put s' c 0))
  Shown-pos =
      let (some_digit, here, below, all) = w in
      let (inside, outside) = string_reverse-Reversed c (put s' c 0) in
      (
        λ k h.
            inside (0 + k) (omega arith) (omega arith)
            ∙ put-below s' c 0 (0 + (c - 1) - (0 + k)) (omega arith)
            ∙ ap s' (omega arith)
            ∙ digit k h,
        ap (string_reverse c (put s' c 0)) (omega arith)
            ∙ outside c (inr (omega arith))
            ∙ put-here s' c 0,
      )

  Shown-neg :
      Shown 1 c m (string_reverse (c + 1) (put (put s' c 45) (c + 1) 0))
      × (string_reverse (c + 1) (put (put s' c 45) (c + 1) 0) 0 ≡ 45)
  Shown-neg =
      let signed = put s' c 45 in
      let ended = put signed (c + 1) 0 in
      let (some_digit, here, below, all) = w in
      let (inside, outside) = string_reverse-Reversed (c + 1) ended in
      (
        (
          (λ k h.
              inside (1 + k) (omega arith) (omega arith)
              ∙ ap ended (omega arith)
              ∙ put-below signed (c + 1) 0 (c - 1 - k) (omega arith)
              ∙ put-below s' c 45 (c - 1 - k) (omega arith)
              ∙ digit k h),
          ap (string_reverse (c + 1) ended) (omega arith)
              ∙ outside (c + 1) (inr (omega arith))
              ∙ put-here signed (c + 1) 0,
        ),
        inside 0 (omega arith) (omega arith)
            ∙ ap ended (omega arith)
            ∙ put-below signed (c + 1) 0 c (omega arith)
            ∙ put-here s' c 45,
      )

  start : 0 ≡ div10 c m
  start = let (some_digit, here, below, all) = w in sym (ap (λ j. div10 j m) (omega arith) ∙ all)

  read_pos : c ≤ 11 → read_number (string_reverse c (put s' c 0)) ≡ pos m
  read_pos h =
      let r = string_reverse c (put s' c 0) in
      let (some_digit, here, below, all) = w in
      let first : r 0 ≡ div10 (c - 1 - 0) m % 10 + 48 = Shown-pos.0 0 (omega arith) in
      let plain : (r 0 == 45) ≡ false = ground arith in
      ap (λ b. if b then negsuc (read_digits 12 1 0 r - 1) else pos (read_digits 12 0 0 r)) plain
      ∙ ap pos (read_digits-Shown c 12 0 0 m r Shown-pos start (omega arith))

  read_neg :
      c ≤ 11 → read_number (string_reverse (c + 1) (put (put s' c 45) (c + 1) 0)) ≡ negsuc (m - 1)
  read_neg h =
      let r = string_reverse (c + 1) (put (put s' c 45) (c + 1) 0) in
      let (shown, first) = Shown-neg in
      let signed : (r 0 == 45) ≡ true = ground arith in
      ap (λ b. if b then negsuc (read_digits 12 1 0 r - 1) else pos (read_digits 12 0 0 r)) signed
      ∙ ap (λ k. negsuc (k - 1)) (read_digits-Shown c 12 1 0 m r shown start (omega arith))

-- The string that `itoa` writes for an `int` stands for that number, whatever the buffer held.
pub read_number-itoa : (n : ℤ) (s : Bytes) → magnitude n ≤ 2 ^ 31 → read_number (itoa n s) ≡ n
unfolding itoa finish
read_number-itoa (pos n) s h =
    let (s', c) = digits_loop 10 n 0 s in
    read_pos n c s s' (digits_loop-Written 10 n 0 s (omega arith))
      (let small = digits_loop-bound 10 n 0 s in omega arith)
read_number-itoa (negsuc n) s h =
    let (s', c) = digits_loop 10 (n + 1) 0 s in
    read_neg (n + 1) c s s' (digits_loop-Written 10 (n + 1) 0 s (omega arith))
      (let small = digits_loop-bound 10 (n + 1) 0 s in omega arith)
    ∙ ap negsuc (omega arith)

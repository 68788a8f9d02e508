-- ===== src/ManagedString/Texts.antt =====
-- What concatenation, substrings and comparison make of the texts of their strings.
use microbit_dal.Prelude.{
  length-drop, ℕ, zero, suc, ◌-◌, ◌%◌, ◌^◌, ◌≤◌, ◌<◌, ◌≡◌, refl, sym, ap, subst, ◌∙◌, ◌↔◌, inl, inr,
  Bool, true, false, ◌||◌, none, some, [], ◌∷◌, ◌++◌, append-nil, arith, ltb, leb, ◌==◌,
  if◌then◌else◌, leb→le, Bool-cases, length,
}
use microbit_dal.Prelude.Int.{ℤ, pos, negsuc, pos_part, neg_part}
use microbit_dal.RefCounted.{State, construct, copy}
use microbit_dal.RefCounted.Counts.{value, count, Counted}
use microbit_dal.RefCounted.Values.{IsValid, values, Succeeds, construct-IsValid, copy-Succeeds}
use microbit_dal.RefCounted.Runs.{bind_some}
use microbit_dal.ManagedString.{
  join, is_zero, ltb_ℤ, take, drop, get_elem?, Text, until_nul, uint16, min_ℤ, init_empty,
  from_buffer, text_of, share_empty, substring, concat, equals,
}

-- A text that has no character 0 in it.
abbrev pub no_nul : Text → Bool
no_nul [] = true
no_nul (zero ∷ cs) = false
no_nul (suc c ∷ cs) = no_nul cs

until_nul_lem : (t : Text) → no_nul t ≡ true → until_nul t ≡ t
until_nul_lem [] h = refl
until_nul_lem (zero ∷ cs) h = cc
until_nul_lem (suc c ∷ cs) h = ap (λ k. suc c ∷ k) (until_nul_lem cs h)

no_nul-drop : (n : ℕ) (t : Text) → no_nul t ≡ true → no_nul (drop n t) ≡ true
no_nul-drop zero t h = h
no_nul-drop (suc n) [] h = refl
no_nul-drop (suc n) (zero ∷ cs) h = cc
no_nul-drop (suc n) (suc c ∷ cs) h = no_nul-drop n cs h

text_of-handle :
    (i : ℕ) (s : State Text) (t : Text)
    → text_of i s ≡ some t
    → (a : ℕ) × (get_elem? s.handles i ≡ some a) × (value (s.memory a) ≡ some t)
text_of-handle i s t e = bind_some (get_elem? s.handles i) (λ a. value (s.memory a)) t e

-- The empty string in flash
abbrev pub InFlash : ℕ → State Text → Type 0
InFlash empty s = s.memory empty ≡ some (record { ref_count = 65535; payload = [] })

-- A state with one more string, in front, that holds a text.
abbrev pub Holds : State Text → Text → State Text → Type 0
Holds s' t s = IsValid s' × (values s' ≡ some t ∷ values s)

init_empty-Holds :
    (empty : ℕ) (s : State Text) → IsValid s → InFlash empty s → Holds (init_empty empty s) [] s
unfolding init_empty
init_empty-Holds empty s v flash = (
  λ q. elim (Bool-cases (q == empty)) [
    | inl here ↦
        let e : q ≡ empty = ground arith in
        let at : s.memory q ≡ some (record { ref_count = 65535; payload = [] }) =
          ap s.memory e ∙ flash in
        subst (λ x. Counted x (count q (empty ∷ s.handles))) (sym at) (inl refl)
    | inr other ↦
        let same : count q (empty ∷ s.handles) ≡ count q s.handles = ground arith in
        subst (λ k. Counted (s.memory q) k) (sym same) (v q)
  ],
  ap (λ x. value x ∷ values s) flash,
)

share_empty_lem :
    (empty : ℕ) (s : State Text) → InFlash empty s → share_empty empty s ≡ some (init_empty empty s)
unfolding init_empty
share_empty_lem empty s flash = rw flash refl

copy-Holds :
    (i : ℕ) (s : State Text) (t : Text)
    → IsValid s
    → length s.handles < 32766
    → text_of i s ≡ some t
    → Succeeds (copy i s) (some t ∷ values s)
copy-Holds i s t v b e =
    let (a, at, same) = text_of-handle i s t e in
    let (s', ok, valid, shown) = copy-Succeeds i a s v b at in
    (s', ok, valid, shown ∙ ap (λ k. k ∷ values s) same)

-- `operator +` makes one more string, which holds the first text with the second behind it; the
-- other strings hold what they held, and the counts are right. There are fewer than 32,766 strings,
-- and the address of the new object is not in use.
concat-Holds :
    (p i j : ℕ) (s : State Text) (t u : Text)
    → IsValid s
    → length s.handles < 32766
    → s.memory p ≡ none
    → text_of i s ≡ some t
    → text_of j s ≡ some u
    → Succeeds (concat p i j s) (some (t ++ u) ∷ values s)
unfolding concat join
concat-Holds p i j s t [] v b free e e' =
    let (s', ok, valid, shown) = copy-Holds i s t v b e in
    (s', rw (e, e') ok, valid, shown ∙ ap (λ k. some k ∷ values s) (sym (append-nil t)))
concat-Holds p i j s [] (c ∷ u) v b free e e' =
    let long : (suc (length u) == 0) ≡ false = ground arith in
    let (s', ok, valid, shown) = copy-Holds j s (c ∷ u) v b e' in
    (s', rw (e, e', long) ok, valid, shown)
concat-Holds p i j s (d ∷ t) (c ∷ u) v b free e e' =
    let long : (suc (length u) == 0) ≡ false = ground arith in
    let long' : (suc (length t) == 0) ≡ false = ground arith in
    let (valid, shown) = construct-IsValid p ((d ∷ t) ++ c ∷ u) s free v in
    (construct p ((d ∷ t) ++ c ∷ u) s, rw (e, e', long, long') refl, valid, shown)

take_nil : (n : ℕ) → take {A = ℕ} n [] ≡ []
take_nil zero = refl
take_nil (suc n) = refl

drop_all : (n : ℕ) (t : Text) → length t ≤ n → drop n t ≡ []
drop_all zero [] h = refl
drop_all zero (c ∷ t) h = absurd (omega (arith, h))
drop_all (suc n) [] h = refl
drop_all (suc n) (c ∷ t) h = drop_all n t (omega arith)

take_all : (n : ℕ) (t : Text) → length t ≤ n → take n t ≡ t
take_all zero [] h = refl
take_all zero (c ∷ t) h = absurd (omega (arith, h))
take_all (suc n) [] h = refl
take_all (suc n) (c ∷ t) h = ap (λ k. c ∷ k) (take_all n t (omega arith))

-- A length that the constructor from a buffer takes: one inside the text, or a negative one.
abbrev Fits : ℤ → ℕ → Type 0
Fits (pos n) len = n ≤ len
Fits (negsuc n) len = n < 2 ^ 15

from_buffer_branch :
    (empty p : ℕ) (str : Text) (n : ℤ) (s : State Text) (b : Bool)
    → no_nul str ≡ true
    → (length str == 0 || ltb (length str) (uint16 n)) ≡ b
    → from_buffer empty p str n s
      ≡ (if b then init_empty empty s else construct p (take (pos_part n) str) s)
unfolding from_buffer init_empty
from_buffer_branch empty p str n s b clean e =
    let made = construct p (take (pos_part n) str) s in
    ap (λ k. if length k == 0 || ltb (length k) (uint16 n) then init_empty empty s else made)
      (until_nul_lem str clean)
    ∙ ap (λ c. if c then init_empty empty s else made) e

from_buffer-Holds :
    (empty p : ℕ) (str : Text) (n : ℤ) (s : State Text)
    → IsValid s
    → InFlash empty s
    → s.memory p ≡ none
    → no_nul str ≡ true
    → length str < 2 ^ 15
    → Fits n (length str)
    → Holds (from_buffer empty p str n s) (take (pos_part n) str) s
from_buffer-Holds empty p str (pos n) s v flash free clean short fits =
    elim (Bool-cases (length str == 0)) [
      | inl nothing ↦
          let none_left : length str ≡ 0 = ground arith in
          let all : n ≡ 0 = omega (arith, fits, none_left) in
          let test : (length str == 0 || ltb (length str) (n % 2 ^ 16)) ≡ true = ground arith in
          subst (λ k. Holds (from_buffer empty p str (pos n) s) (take k str) s) (sym all)
            (subst (λ s'. Holds s' [] s)
              (sym (from_buffer_branch empty p str (pos n) s true clean test))
              (init_empty-Holds empty s v flash))
      | inr more ↦
          let test : (length str == 0 || ltb (length str) (n % 2 ^ 16)) ≡ false = ground arith in
          subst (λ s'. Holds s' (take n str) s)
            (sym (from_buffer_branch empty p str (pos n) s false clean test))
            (construct-IsValid p (take n str) s free v)
    ]
from_buffer-Holds empty p str (negsuc n) s v flash free clean short fits =
    let test : (length str == 0 || ltb (length str) (2 ^ 16 - 1 - n)) ≡ true = ground arith in
    subst (λ s'. Holds s' [] s) (sym (from_buffer_branch empty p str (negsuc n) s true clean test))
      (init_empty-Holds empty s v flash)

-- The length that `substring` passes on
clipped :
    (n : ℤ) (str : Text)
    → neg_part n ≤ 2 ^ 15
    → Fits (min_ℤ (pos (length str)) n) (length str)
      × (take (pos_part (min_ℤ (pos (length str)) n)) str ≡ take (pos_part n) str)
clipped (pos n) str h = elim (Bool-cases (ltb_ℤ (pos (length str)) (pos n))) [
  | inl less ↦
      let below : length str ≤ n = ground arith in
      rw less (omega arith, take_all (length str) str (omega arith) ∙ sym (take_all n str below))
  | inr more ↦ let inside : n ≤ length str = ground arith in rw more (inside, refl)
]
clipped (negsuc n) str h =
    let less : ltb_ℤ (pos (length str)) (negsuc n) ≡ false = ground arith in
    rw less (omega (arith, h), refl)

-- `substring` makes one more string, which holds at most `n` characters of the text from its start
-- on, none where `n` is negative or the start lies behind the text; the other strings hold what
-- they held, and the counts are right. The text has no character 0 and fewer than 2^15 characters,
-- `n` is not below that of an `int16_t`, the empty string is in flash, and the
-- address of the new object is not in use.
pub substring-Holds :
    (empty p i start : ℕ) (n : ℤ) (s : State Text) (t : Text)
    → IsValid s
    → InFlash empty s
    → s.memory p ≡ none
    → text_of i s ≡ some t
    → no_nul t ≡ true
    → length t < 2 ^ 15
    → neg_part n ≤ 2 ^ 15
    → Succeeds (substring empty p i start n s) (some (take (pos_part n) (drop start t)) ∷ values s)
unfolding substring
substring-Holds empty p i start n s t v flash free e clean short int16 =
    let str = drop start t in
    let size = length-drop start t in
    let (fits, same) = clipped n str int16 in
    let (valid, shown) =
      from_buffer-Holds empty p str (min_ℤ (pos (length str)) n) s v flash free
        (no_nul-drop start t clean) (omega (arith, size)) fits in
    let (valid', shown') = init_empty-Holds empty s v flash in
    elim (Bool-cases (leb (length t) start)) [
      | inl behind ↦
          let gone : str ≡ [] = drop_all start t (leb→le (length t) start behind) in
          (
            init_empty empty s,
            rw (e, behind) (share_empty_lem empty s flash),
            valid',
            shown'
                ∙ ap (λ k. some k ∷ values s)
                    (sym (ap (take (pos_part n)) gone ∙ take_nil (pos_part n))),
          )
      | inr inside ↦ (
        from_buffer empty p str (min_ℤ (pos (length str)) n) s,
        rw (e, inside) (ap (λ k. some (from_buffer empty p str (min_ℤ (pos k) n) s)) (sym size)),
        valid,
        shown ∙ ap (λ k. some k ∷ values s) same,
      )
    ]

is_zero-zero : (x : ℤ) → is_zero x ≡ true → x ≡ pos 0
is_zero-zero (pos n) h = let e : n ≡ 0 = ground arith in ap pos e
is_zero-zero (negsuc n) h = cc

-- `operator ==` on texts without a character 0 is true exactly if they are the same, where `strcmp`
-- is 0 exactly on buffers that start with the same C string.
equals_iff :
    (strcmp : Text → Text → ℤ) (t u : Text)
    → ((a b : Text) → (strcmp a b ≡ pos 0) ↔ (until_nul a ≡ until_nul b))
    → no_nul t ≡ true
    → no_nul u ≡ true
    → (equals strcmp t u ≡ true) ↔ (t ≡ u)
unfolding equals
equals_iff strcmp t u h ht hu = (
  λ e.
      let none_between : is_zero (strcmp t u) ≡ true = ground arith in
      sym (until_nul_lem t ht)
      ∙ (h t u).0 (is_zero-zero (strcmp t u) none_between)
      ∙ until_nul_lem u hu,
  λ e.
      let same : (length t == length u) ≡ true =
        let long : length t ≡ length u = ap length e in ground arith in
      let found : strcmp t u ≡ pos 0 = (h t u).1 (ap until_nul e) in rw (same, found) refl,
)

-- ===== src/ManagedString.antt =====
-- source/types/ManagedString.cpp: a string is a handle on a counted object, whose payload is the
-- text without the 0 at its end. Texts are shorter than 2^15 characters. `empty` is the address of
-- the empty string in flash, and `p` the address that `malloc` returns for a new object.
pub mod Texts
mod Tests
use microbit_dal.Prelude.{
  drop, get_or, take, get_elem?, ℕ, zero, suc, ◌+◌, ◌-◌, ◌*◌, ◌/◌, ◌%◌, ◌^◌, ◌≤◌, ◌<◌, ◌≡◌, refl,
  sym, ap, subst, ◌∙◌, ◌≢◌, ◌↔◌, ◌⊎◌, inl, inr, Bool, true, false, not, ◌&&◌, ◌||◌, Option, none,
  some, List, [], ◌∷◌, ◌++◌, map, append-nil, append_assoc, arith, ltb, leb, ◌==◌, if◌then◌else◌,
  ltb→lt, lt→ltb, leb→le, ==_iff, Bool-cases, Option-cases, length,
}
use microbit_dal.Prelude.Int.{is_zero, pos_part, leb_ℤ, ltb_ℤ, ℤ, pos, negsuc}
use microbit_dal.RefCounted.{State, Object, Memory, construct, copy, incr, store, ◌>>=◌}
use microbit_dal.RefCounted.Counts.{value}

abbrev pub Text : Type 0
Text = List ℕ

-- The C string at the start of a buffer; `length` of it is `strlen`.
abbrev pub until_nul : Text → Text
until_nul [] = []
until_nul (zero ∷ cs) = []
until_nul (suc c ∷ cs) = suc c ∷ until_nul cs

-- An `int16_t` as `uint16_t`
abbrev pub uint16 : ℤ → ℕ
uint16 (pos n) = n % 2 ^ 16
uint16 (negsuc n) = 2 ^ 16 - 1 - n

abbrev pub min_ℤ : ℤ → ℤ → ℤ
min_ℤ a b = if ltb_ℤ a b then a else b

-- `initEmpty`
pub init_empty : ℕ → State Text → State Text
init_empty empty s = record s { handles = empty ∷ s.handles }

-- `initString`, on the characters that stand at `str`
pub init_string : ℕ → Text → State Text → State Text
init_string p str s = construct p (until_nul str) s

-- The constructor from a C string
pub from_c_string : ℕ → ℕ → Text → State Text → State Text
unfolding init_empty init_string
from_c_string empty p str s =
    if length (until_nul str) == 0 then init_empty empty s else init_string p str s

-- The constructor from a buffer and a length
pub from_buffer : ℕ → ℕ → Text → ℤ → State Text → State Text
unfolding init_empty
from_buffer empty p str n s =
    let len = length (until_nul str) in
    if len == 0 || ltb len (uint16 n)
    then init_empty empty s
    else construct p (take (pos_part n) str) s

-- The constructor from two strings
pub join : ℕ → Text → Text → State Text → State Text
join p t u s = construct p (t ++ u) s

-- The text of the string with number `i`
abbrev pub text_of : ℕ → State Text → Option Text
text_of i s = do a ← get_elem? s.handles i; value (s.memory a)

-- The copy constructor on `EmptyString`
abbrev pub share_empty : ℕ → State Text → Option (State Text)
share_empty empty s = do
  m ← incr empty s.memory
  some (record { memory = m; handles = empty ∷ s.handles })

-- `substring`, from a start that is not negative
pub substring : ℕ → ℕ → ℕ → ℕ → ℤ → State Text → Option (State Text)
unfolding from_buffer
substring empty p i start n s = do
  t ← text_of i s
  if leb (length t) start
      then share_empty empty s
      else some (from_buffer empty p (drop start t) (min_ℤ (pos (length t - start)) n) s)

-- `operator +`
pub concat : ℕ → ℕ → ℕ → State Text → Option (State Text)
unfolding join
concat p i j s = do
  t ← text_of i s
  u ← text_of j s
  if length u == 0 then copy i s else if length t == 0 then copy j s else some (join p t u s)

-- `charAt`
pub char_at : ℕ → ℤ → State Text → Option ℕ
char_at i index s = do
  t ← text_of i s
  some (
      if leb_ℤ (pos 0) index && ltb_ℤ index (pos (length t))
      then get_or t (pos_part index) 0
      else 0)

-- `operator ==`, with the `strcmp` of the C library
pub equals : (Text → Text → ℤ) → Text → Text → Bool
equals strcmp t u = length t == length u && is_zero (strcmp t u)

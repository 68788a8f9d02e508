-- ===== src/Text/Tests.antt =====
-- Strings and numbers, and the theorems about them at concrete values.
use microbit_dal.Prelude.{◌≡◌, refl, arith, ◌+◌}
use microbit_dal.Prelude.Int.{pos, negsuc}
use microbit_dal.Prelude.Bytes.{Bytes, put}
use microbit_dal.Text.{string_reverse, itoa}
use microbit_dal.Text.Decimal.{Reversed, string_reverse-Reversed}
use microbit_dal.Text.Roundtrip.{read_number, read_number-itoa}

-- The letters from `a` on.
abbrev letters : Bytes
letters i = i + 97

-- The first character of 300.
itoa-300 : itoa (pos 300) letters 0 ≡ 51
unfolding itoa put
itoa-300 = refl

string_reverse-Reversed_example : Reversed 0 4 letters (string_reverse 5 letters)
string_reverse-Reversed_example = string_reverse-Reversed 5 letters

read_number-itoa_example : read_number (itoa (negsuc 6) letters) ≡ negsuc 6
read_number-itoa_example = read_number-itoa (negsuc 6) letters (omega arith)

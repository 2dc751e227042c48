-- ===== src/Prelude/Numerals.antt =====
-- `str(n)` for a natural number.
use Prim.Native.String.{◌++◌ as str_append}
use project_fifty.Prelude.{ℕ, zero, suc, ◌/◌, ◌%◌, String, true, false, ltb, ◌==◌, if◌then◌else◌}

abbrev digit : ℕ → String
digit n =
    if n == 0
    then "0"
    else if n == 1
    then "1"
    else if n == 2
    then "2"
    else if n == 3
    then "3"
    else if n == 4
    then "4"
    else if n == 5
    then "5"
    else if n == 6
    then "6"
    else if n == 7
    then "7"
    else if n == 8
    then "8"
    else "9"

-- The fuel is the number itself, which has at most as many digits.
unfoldable pub numeral_from : ℕ → ℕ → String
numeral_from zero n = digit n
numeral_from (suc fuel) n = elim (ltb n 10) [
  | true ↦ digit n
  | false ↦ str_append (numeral_from fuel (n / 10)) (digit (n % 10))
]

unfoldable pub str_of : ℕ → String
unfolding numeral_from
str_of n = numeral_from n n

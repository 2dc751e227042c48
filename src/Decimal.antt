-- ===== src/Decimal.antt =====
-- Python's `decimal.Decimal` as the program uses it: finite numbers, the default context with 28
-- significant digits and ROUND_HALF_EVEN, and exact comparisons. A number is `coef / 10 ^ scale`;
-- the sign of a zero and the choice among equal representations are not modelled, nor are the
-- limits of the exponent (10 ^ 999999), infinities and NaN, which the validators refuse.
pub mod Sign
pub mod Precision
pub mod Rounded
use project_fifty.Prelude.{
  ℕ, zero, suc, ◌+◌, ◌-◌, ◌*◌, ◌/◌, ◌%◌, ◌^◌, Bool, true, false, not, ltb, leb, ◌==◌, if◌then◌else◌,
}
use project_fifty.Prelude.Int.{ℤ, pos, negsuc, pos_part, neg_part, sub_ℕ}
use project_fifty.Outcome.{Result, ok, err, decimal_error}

pub record Decimal : Type 0 where
  pub coef : ℤ
  pub scale : ℕ

abbrev pub precision : ℕ
precision = 28

-- The digits of a coefficient; zero has one. The fuel is the number itself.
unfoldable digits_from : ℕ → ℕ → ℕ
digits_from zero n = 1
digits_from (suc fuel) n = elim (ltb n 10) [ true ↦ 1 | false ↦ suc (digits_from fuel (n / 10)) ]

unfoldable pub digit_count : ℕ → ℕ
unfolding digits_from
digit_count n = digits_from n n

-- `n / p` to the nearest whole number, a tie to the even one.
unfoldable pub round_half_even : ℕ → ℕ → ℕ
round_half_even n p =
    if ltb (2 * (n % p)) p
    then n / p
    else if ltb p (2 * (n % p))
    then n / p + 1
    else if n / p % 2 == 0
    then n / p
    else n / p + 1

-- The digits that stay and how many went: where rounding up gives one digit too many, that is a
-- zero, and it goes too.
unfoldable pub shorten : ℕ → ℕ → ℕ × ℕ
unfolding round_half_even
shorten n k =
    if round_half_even n (10 ^ k) == 10 ^ precision
    then (10 ^ (precision - 1), suc k)
    else (round_half_even n (10 ^ k), k)

-- A magnitude rounded to the context's precision, as coefficient and scale.
unfoldable pub fix_magnitude : ℕ → ℕ → ℕ × ℕ
unfolding digit_count shorten
fix_magnitude n s =
    let r = shorten n (digit_count n - precision) in
    if leb (digit_count n) precision then (n, s) else (r.0 * 10 ^ (r.1 - s), s - r.1)

unfoldable pub fix : ℤ → ℕ → Decimal
unfolding fix_magnitude
fix (pos n) s = let m = fix_magnitude n s in record { coef = pos m.0; scale = m.1 }
fix (negsuc n) s = let m = fix_magnitude (suc n) s in record { coef = sub_ℕ 0 m.0; scale = m.1 }

-- The coefficients of two numbers at their common scale.
abbrev pub aligned_pos : Decimal → Decimal → ℕ
aligned_pos a b = pos_part a.coef * 10 ^ (b.scale - a.scale)

abbrev pub aligned_neg : Decimal → Decimal → ℕ
aligned_neg a b = neg_part a.coef * 10 ^ (b.scale - a.scale)

unfoldable pub lt : Decimal → Decimal → Bool
lt a b = ltb (aligned_pos a b + aligned_neg b a) (aligned_pos b a + aligned_neg a b)

unfoldable pub le : Decimal → Decimal → Bool
unfolding lt
le a b = not (lt b a)

-- `==` compares the numbers, so 1.0 == 1.00.
unfoldable pub eq : Decimal → Decimal → Bool
eq a b = aligned_pos a b + aligned_neg b a == aligned_pos b a + aligned_neg a b

unfoldable pub add : Decimal → Decimal → Decimal
unfolding fix
add a b =
    fix (sub_ℕ (aligned_pos a b + aligned_pos b a) (aligned_neg a b + aligned_neg b a))
      (a.scale + (b.scale - a.scale))

unfoldable pub sub : Decimal → Decimal → Decimal
unfolding fix
sub a b =
    fix (sub_ℕ (aligned_pos a b + aligned_neg b a) (aligned_neg a b + aligned_pos b a))
      (a.scale + (b.scale - a.scale))

unfoldable pub mul : Decimal → Decimal → Decimal
unfolding fix
mul a b =
    fix
      (sub_ℕ (pos_part a.coef * pos_part b.coef + neg_part a.coef * neg_part b.coef)
        (pos_part a.coef * neg_part b.coef + neg_part a.coef * pos_part b.coef))
      (a.scale + b.scale)

abbrev magnitude : ℤ → ℕ
magnitude z = pos_part z + neg_part z

-- The quotient of two magnitudes to 29 digits or more; an inexact one is kept off a tie by making
-- its last digit neither 0 nor 5.
unfoldable pub quotient_digits : ℕ → ℕ → ℕ
quotient_digits n d = if n % d == 0 then n / d else if n / d % 5 == 0 then n / d + 1 else n / d

abbrev same_sign : ℤ → ℤ → Bool
same_sign (pos _) (pos _) = true
same_sign (negsuc _) (negsuc _) = true
same_sign _ _ = false

abbrev signed : Bool → ℕ → ℤ
signed same n = if same then pos n else sub_ℕ 0 n

-- `a / b`: the numerator is scaled up so that the quotient has the digits that rounding reads.
unfoldable pub div : Decimal → Decimal → Result Decimal
unfolding fix quotient_digits
div a b =
    let n = magnitude a.coef in
    let d = magnitude b.coef in
    let up = digit_count d + precision + 1 - digit_count n in
    let s = a.scale + up in
    if d == 0
    then err (decimal_error "division by zero")
    else ok (
        fix
          (signed (same_sign a.coef b.coef) (quotient_digits (n * 10 ^ up) d * 10 ^ (b.scale - s)))
          (s - b.scale))

-- `max(a, b)` gives the first of two equal numbers.
unfoldable pub max : Decimal → Decimal → Decimal
unfolding lt
max a b = if lt a b then b else a

-- `min(a, b)` likewise
unfoldable pub min : Decimal → Decimal → Decimal
unfolding lt
min a b = if lt b a then b else a

-- `-a`
unfoldable pub neg : Decimal → Decimal
unfolding fix
neg a = fix (sub_ℕ (neg_part a.coef) (pos_part a.coef)) a.scale

unfoldable pub abs : Decimal → Decimal
unfolding fix
abs a = fix (pos (magnitude a.coef)) a.scale

abbrev pub zero_dec : Decimal
zero_dec = record { coef = pos 0; scale = 0 }

abbrev pub one : Decimal
one = record { coef = pos 1; scale = 0 }

-- ===== src/Decimal/Rounded.antt =====
-- Sums and differences that were rounded: adding zero leaves them, and what is positive stays so.
use project_fifty.Outcome.{ok}
use native.Mathlib.Nat.{lt_of_mul-lt-mul_right}
use project_fifty.Prelude.{
  suc, ℕ, ◌+◌, ◌-◌, ◌*◌, ◌^◌, ◌<◌, ◌≡◌, ◌∙◌, refl, sym, ap, subst, true, false, arith, Bool-cases,
  ◌==◌, inl, inr,
}
use project_fifty.Prelude.Int.{ℤ, pos, negsuc, pos_part, neg_part, sub_ℕ}
use project_fifty.Decimal.{
  magnitude, same_sign, signed, precision, digit_count, quotient_digits, Decimal, fix, lt, add, sub,
  zero_dec, aligned_pos, aligned_neg, div, mul,
}
use project_fifty.Decimal.Sign.{fix-IsNonneg, IsNonneg}
use project_fifty.Decimal.Precision.{pos-mul_pow, fix_magnitude_idem, fix_magnitude-pos}

-- A number that rounding to the context's precision does not change
abbrev pub IsRounded : Decimal → Type 0
IsRounded a = fix a.coef a.scale ≡ a

fix-IsRounded : (z : ℤ) (s : ℕ) → neg_part z ≡ 0 → IsRounded (fix z s)
unfolding fix
fix-IsRounded (pos n) s h =
    ap (λ (m : ℕ × ℕ). record { coef = pos m.0; scale = m.1 }) (fix_magnitude_idem n s)
fix-IsRounded (negsuc n) s h = absurd (omega arith)

pub sub-IsRounded : (a b : Decimal) → lt a b ≡ false → IsRounded (sub a b)
unfolding sub lt
sub-IsRounded a b h =
    fix-IsRounded (sub_ℕ (aligned_pos a b + aligned_neg b a) (aligned_neg a b + aligned_pos b a))
      (a.scale + (b.scale - a.scale)) (ground arith)

padded :
    (z : ℤ) (s : ℕ)
    → neg_part z ≡ 0
    → sub_ℕ
        (0 * 10 ^ (s - 0) + pos_part z * 10 ^ (0 - s))
        (0 * 10 ^ (s - 0) + neg_part z * 10 ^ (0 - s))
      ≡ z
padded (pos n) s h =
    let gone : 0 - s ≡ 0 = omega arith in
    subst (λ t. sub_ℕ (0 * 10 ^ (s - 0) + n * 10 ^ t) (0 * 10 ^ (s - 0) + 0 * 10 ^ t) ≡ pos n)
      (sym gone) (ground arith)
padded (negsuc n) s h = absurd (omega arith)

pub add-zero_dec : (a : Decimal) → IsNonneg a → IsRounded a → add zero_dec a ≡ a
unfolding add
add-zero_dec a h r =
    let same : 0 + (a.scale - 0) ≡ a.scale = omega arith in
    (λ i. fix (padded a.coef a.scale h i) (same i)) ∙ r

abbrev IsPositive : Decimal → Type 0
IsPositive a = (0 < pos_part a.coef) × IsNonneg a

lt→IsPositive : (a : Decimal) → lt zero_dec a ≡ true → IsPositive a
unfolding lt
lt→IsPositive a h = positive a.coef (10 ^ (0 - a.scale)) (ground arith)
  where
    positive :
        (z : ℤ) (p : ℕ) → neg_part z * p < pos_part z * p → (0 < pos_part z) × (neg_part z ≡ 0)
    positive (pos n) p h = (lt_of_mul-lt-mul_right p h, refl)
    positive (negsuc n) p h =
        absurd (let less : suc n < 0 = lt_of_mul-lt-mul_right p h in omega arith)

IsPositive→lt : (a : Decimal) → IsPositive a → lt zero_dec a ≡ true
unfolding lt
IsPositive→lt a h = let more = pos-mul_pow (pos_part a.coef) (0 - a.scale) h.0 in ground arith

fix-IsPositive : (z : ℤ) (s : ℕ) → 0 < pos_part z → IsPositive (fix z s)
unfolding fix
fix-IsPositive (pos n) s h = (fix_magnitude-pos n s h, refl)
fix-IsPositive (negsuc n) s h = absurd (omega arith)

pub add-positive :
    (a b : Decimal) → IsNonneg a → lt zero_dec b ≡ true → lt zero_dec (add a b) ≡ true
unfolding add
add-positive a b h k =
    let (more, b_high) = lt→IsPositive b k in
    let sum = pos-mul_pow (pos_part b.coef) (a.scale - b.scale) more in
    IsPositive→lt (add a b) (
      fix-IsPositive (sub_ℕ (aligned_pos a b + aligned_pos b a) (aligned_neg a b + aligned_neg b a))
        (a.scale + (b.scale - a.scale)) (rw (h, b_high) (ground arith)))

pub sub-zero_dec : (a : Decimal) → IsNonneg a → IsRounded a → sub a zero_dec ≡ a
unfolding sub
sub-zero_dec a h r =
    let same : a.scale + (0 - a.scale) ≡ a.scale = omega arith in
    (λ i. fix (unpadded a.coef a.scale h i) (same i)) ∙ r
  where
    unpadded :
        (z : ℤ) (s : ℕ)
        → neg_part z ≡ 0
        → sub_ℕ
            (pos_part z * 10 ^ (0 - s) + 0 * 10 ^ (s - 0))
            (neg_part z * 10 ^ (0 - s) + 0 * 10 ^ (s - 0))
          ≡ z
    unpadded (pos n) s h =
        let gone : 0 - s ≡ 0 = omega arith in
        subst (λ t. sub_ℕ (n * 10 ^ t + 0 * 10 ^ (s - 0)) (0 * 10 ^ t + 0 * 10 ^ (s - 0)) ≡ pos n)
          (sym gone) (ground arith)
    unpadded (negsuc n) s h = absurd (omega arith)

pub mul-IsRounded : (a b : Decimal) → IsNonneg a → IsNonneg b → IsRounded (mul a b)
unfolding mul
mul-IsRounded a b h k =
    fix-IsRounded
      (sub_ℕ (pos_part a.coef * pos_part b.coef + neg_part a.coef * neg_part b.coef)
        (pos_part a.coef * neg_part b.coef + neg_part a.coef * pos_part b.coef))
      (a.scale + b.scale) (rw (h, k) (ground arith))

pub mul_comm : (a b : Decimal) → mul a b ≡ mul b a
unfolding mul
mul_comm a b =
    let scales : a.scale + b.scale ≡ b.scale + a.scale = omega arith in
    λ i. fix (sub_ℕ (high i) (low i)) (scales i)
  where
    high :
        pos_part a.coef * pos_part b.coef + neg_part a.coef * neg_part b.coef
        ≡ pos_part b.coef * pos_part a.coef + neg_part b.coef * neg_part a.coef
    high = omega arith

    low :
        pos_part a.coef * neg_part b.coef + neg_part a.coef * pos_part b.coef
        ≡ pos_part b.coef * neg_part a.coef + neg_part b.coef * pos_part a.coef
    low = omega arith

signed-same_sign :
    (y z : ℤ) (n : ℕ) → neg_part y ≡ 0 → neg_part z ≡ 0 → neg_part (signed (same_sign y z) n) ≡ 0
signed-same_sign (pos y) (pos z) n h k = refl
signed-same_sign (negsuc y) z n h k = absurd (omega arith)
signed-same_sign (pos y) (negsuc z) n h k = absurd (omega arith)

-- A quotient of a number that is zero or more by a positive one is there, and zero or more.
pub div-IsNonneg :
    (a b : Decimal)
    → IsNonneg a
    → lt zero_dec b ≡ true
    → (d : Decimal) × (div a b ≡ ok d) × IsNonneg d
unfolding div
div-IsNonneg a b h k =
    let (more, high) = lt→IsPositive b k in
    let n = magnitude a.coef in
    let d = magnitude b.coef in
    let up = digit_count d + precision + 1 - digit_count n in
    let s = a.scale + up in
    let z =
      signed (same_sign a.coef b.coef) (quotient_digits (n * 10 ^ up) d * 10 ^ (b.scale - s)) in
    elim (Bool-cases (magnitude b.coef == 0)) [
      | inl zero_div ↦ absurd (ground arith)
      | inr some_div ↦ (
        fix z (s - b.scale),
        rw some_div refl,
        fix-IsNonneg z (s - b.scale) (signed-same_sign a.coef b.coef _ h high),
      )
    ]

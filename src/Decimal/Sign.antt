-- ===== src/Decimal/Sign.antt =====
-- The signs of sums, differences and products: rounding never changes one. With these the code
-- that computes with amounts keeps the arithmetic shut.
use project_fifty.Prelude.{
  ℕ, ◌+◌, ◌-◌, ◌*◌, ◌≤◌, ◌≡◌, refl, inl, inr, true, false, arith, Bool-cases,
}
use project_fifty.Prelude.Int.{ℤ, pos, negsuc, pos_part, neg_part, sub_ℕ}
use project_fifty.Decimal.{Decimal, fix, lt, add, sub, mul, max, zero_dec, aligned_pos, aligned_neg}

-- The number is zero or more.
abbrev pub IsNonneg : Decimal → Type 0
IsNonneg a = neg_part a.coef ≡ 0

pub IsNonneg→lt : (a : Decimal) → IsNonneg a → lt a zero_dec ≡ false
unfolding lt
IsNonneg→lt a h = ground arith

pub lt→IsNonneg : (a : Decimal) → lt a zero_dec ≡ false → IsNonneg a
unfolding lt
lt→IsNonneg a h = ground arith

pub fix-IsNonneg : (z : ℤ) (s : ℕ) → neg_part z ≡ 0 → IsNonneg (fix z s)
unfolding fix
fix-IsNonneg (pos n) s h = refl
fix-IsNonneg (negsuc n) s h = absurd (omega arith)

fix-sub_ℕ : (a b s : ℕ) → b ≤ a → IsNonneg (fix (sub_ℕ a b) s)
fix-sub_ℕ a b s h = fix-IsNonneg (sub_ℕ a b) s (ground arith)

pub add-IsNonneg : (a b : Decimal) → IsNonneg a → IsNonneg b → IsNonneg (add a b)
unfolding add
add-IsNonneg a b h k =
    fix-sub_ℕ (aligned_pos a b + aligned_pos b a) (aligned_neg a b + aligned_neg b a)
      (a.scale + (b.scale - a.scale)) (rw (h, k) (omega arith))

-- A difference, rounded to the context's precision, is zero or more where the first number is not
-- below the second.
pub sub-IsNonneg : (a b : Decimal) → lt a b ≡ false → IsNonneg (sub a b)
unfolding sub lt
sub-IsNonneg a b h =
    fix-sub_ℕ (aligned_pos a b + aligned_neg b a) (aligned_neg a b + aligned_pos b a)
      (a.scale + (b.scale - a.scale)) (ground arith)

pub mul-IsNonneg : (a b : Decimal) → IsNonneg a → IsNonneg b → IsNonneg (mul a b)
unfolding mul
mul-IsNonneg a b h k =
    fix-sub_ℕ (pos_part a.coef * pos_part b.coef + neg_part a.coef * neg_part b.coef)
      (pos_part a.coef * neg_part b.coef + neg_part a.coef * pos_part b.coef) (a.scale + b.scale)
      (rw (h, k) (omega arith))

-- `max(a, 0)` is zero or more.
pub max-IsNonneg : (a : Decimal) → IsNonneg (max a zero_dec)
unfolding max
max-IsNonneg a = elim (Bool-cases (lt a zero_dec)) [
  | inl below ↦ rw below refl
  | inr above ↦ rw above (lt→IsNonneg a above)
]

-- Of two numbers not both are below the other.
pub lt-asym : (a b : Decimal) → lt a b ≡ true → lt b a ≡ false
unfolding lt
lt-asym a b h = ground arith

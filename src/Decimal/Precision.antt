-- ===== src/Decimal/Precision.antt =====
-- Rounding to the context's precision: a number that was rounded is not changed by it again.
use native.Mathlib.Nat.{
  pow-suc, one-le-pow, mul_assoc, mul-lt-mul_of_pos_right, lt_of_mul-lt-mul_right, mul-div_left,
  mul-mod_left, div-lt_iff_lt-mul, le-div_iff_mul-le,
}
use project_fifty.Prelude.{
  ℕ, zero, suc, ◌+◌, ◌-◌, ◌*◌, ◌/◌, ◌^◌, ◌≤◌, ◌<◌, ◌≡◌, ◌∙◌, refl, sym, ap, subst, inl, inr, ltb,
  leb, ◌==◌, Bool-cases, arith,
}
use project_fifty.Decimal.{digits_from, digit_count, round_half_even, shorten, fix_magnitude}

pow-add : (a b : ℕ) → 10 ^ (a + b) ≡ 10 ^ a * 10 ^ b
pow-add zero b = let e : 0 + b ≡ b = omega arith in ap (λ n. 10 ^ n) e ∙ omega arith
pow-add (suc a) b =
    let e : suc a + b ≡ suc (a + b) = omega arith in
    ap (λ n. 10 ^ n) e
    ∙ omega (arith, pow-suc 10 (a + b), ap (λ t. t * 10 ^ b) (pow-suc 10 a), pow-add a b)

digits_from-fits : (fuel n : ℕ) → n ≤ fuel → n < 10 ^ digits_from fuel n
unfolding digits_from
digits_from-fits zero n h = omega arith
digits_from-fits (suc fuel) n h = elim (Bool-cases (ltb n 10)) [
  | inl low ↦ rw (low, digits_from) (ground arith)
  | inr high ↦
      rw (high, digits_from)
        (omega (
          arith,
          pow-suc 10 (digits_from fuel (n / 10)),
          digits_from-fits fuel (n / 10) (ground arith),
        ))
]

digits_from-le : (fuel n d : ℕ) → n ≤ fuel → n < 10 ^ suc d → digits_from fuel n ≤ suc d
unfolding digits_from
digits_from-le zero n d h k = omega arith
digits_from-le (suc fuel) n zero h k = elim (Bool-cases (ltb n 10)) [
  | inl low ↦ rw (low, digits_from) (omega arith)
  | inr high ↦ absurd (ground (arith, pow-suc 10 0))
]
digits_from-le (suc fuel) n (suc d) h k = elim (Bool-cases (ltb n 10)) [
  | inl low ↦ rw (low, digits_from) (omega arith)
  | inr high ↦
      rw (high, digits_from)
        (omega (
          arith,
          digits_from-le fuel (n / 10) d (ground arith) (omega (arith, pow-suc 10 (suc d))),
        ))
]

round_half_even-exact : (x p : ℕ) → 0 < p → round_half_even (x * p) p ≡ x
unfolding round_half_even
round_half_even-exact x p h = rw (mul-mod_left x p, mul-div_left x h) (ground arith)

round_half_even-le : (n p b : ℕ) → 0 < p → n < b * p → round_half_even n p ≤ b
unfolding round_half_even
round_half_even-le n p b h k = ground (arith, (div-lt_iff_lt-mul {k = p} {x = n} {y = b} h).1 k)

div-le-round_half_even : (n p : ℕ) → n / p ≤ round_half_even n p
unfolding round_half_even
div-le-round_half_even n p = ground arith

abbrev limit : ℕ
limit = 10 ^ 28

-- What is left of a number of at most `28 + k` digits has 28 or fewer.
shorten-fits : (n k : ℕ) → n < 10 ^ (28 + k) → (shorten n k).0 < limit
unfolding shorten
shorten-fits n k h =
    let most =
      round_half_even-le n (10 ^ k) limit (one-le-pow k 10 (omega arith))
        (omega (arith, pow-add 28 k)) in
    elim (Bool-cases (round_half_even n (10 ^ k) == limit)) [
      | inl full ↦ rw (full, shorten) (omega arith)
      | inr part ↦ rw (part, shorten) (ground arith)
    ]

shorten-exact : (x k : ℕ) → x < limit → shorten (x * 10 ^ k) k ≡ (x, k)
unfolding shorten
shorten-exact x k h =
    rw (round_half_even-exact x (10 ^ k) (one-le-pow k 10 (omega arith))) (ground arith)

digit_count-le : (n d : ℕ) → n < 10 ^ suc d → digit_count n ≤ suc d
unfolding digit_count
digit_count-le n d h = digits_from-le n n d (omega arith) h

digit_count-fits : (n : ℕ) → n < 10 ^ digit_count n
unfolding digit_count
digit_count-fits n = digits_from-fits n n (omega arith)

fix_magnitude-short : (n s : ℕ) → n < limit → fix_magnitude n s ≡ (n, s)
unfolding fix_magnitude
fix_magnitude-short n s h = ground (arith, digit_count-le n 27 h)

zeros : (q a b : ℕ) → q * 10 ^ (a + b) ≡ q * 10 ^ a * 10 ^ b
zeros q a b = ap (λ n. q * n) (pow-add a b) ∙ sym (mul_assoc q (10 ^ a) (10 ^ b))

-- A number with `j` zeros at its end and few digits before them loses zeros alone.
shorten-zeros :
    (q j k : ℕ)
    → q < limit
    → digit_count (q * 10 ^ j) ≡ 28 + k
    → (x : ℕ) × (q * 10 ^ j ≡ x * 10 ^ k) × (shorten (q * 10 ^ j) k ≡ (x, k))
shorten-zeros q j k h e =
    let below : q * 10 ^ j < 10 ^ suc (27 + j) =
      let same : 28 + j ≡ suc (27 + j) = omega arith in
      omega (
        arith,
        pow-add 28 j,
        ap (λ n. 10 ^ n) same,
        mul-lt-mul_of_pos_right h (one-le-pow j 10 (omega arith)),
      ) in
    let fewer : k ≤ j = omega (arith, digit_count-le (q * 10 ^ j) (27 + j) below) in
    let rest : (j - k) + k ≡ j = omega arith in
    let split : q * 10 ^ j ≡ q * 10 ^ (j - k) * 10 ^ k =
      ap (λ n. q * 10 ^ n) (sym rest) ∙ zeros q (j - k) k in
    let small : q * 10 ^ (j - k) < limit = lt_of_mul-lt-mul_right (10 ^ k) (
      let fits = subst (λ d. q * 10 ^ j < 10 ^ d) e (digit_count-fits (q * 10 ^ j)) in
      omega (arith, pow-add 28 k, split, fits)) in
    (
      q * 10 ^ (j - k),
      split,
      ap (λ n. shorten n k) split ∙ shorten-exact (q * 10 ^ (j - k)) k small,
    )

zeros_kept : (x n k : ℕ) → n ≡ x * 10 ^ k → ◌≡◌ {A = ℕ × ℕ} (x * 10 ^ (k - 0), 0 - k) (n, 0)
zeros_kept x n k h =
    let whole : k - 0 ≡ k = omega arith in
    let none_left : 0 - k ≡ 0 = omega arith in
    let same : x * 10 ^ (k - 0) ≡ n = ap (λ m. x * 10 ^ m) whole ∙ sym h in
    λ i. (same i, none_left i)

-- Zeros at the end alone are not lost.
fix_magnitude-zeros : (q j : ℕ) → q < limit → fix_magnitude (q * 10 ^ j) 0 ≡ (q * 10 ^ j, 0)
unfolding fix_magnitude
fix_magnitude-zeros q j h = elim (Bool-cases (leb (digit_count (q * 10 ^ j)) 28)) [
  | inl short ↦ rw (short, fix_magnitude) refl
  | inr long ↦
      let (x, same, left) = shorten-zeros q j (digit_count (q * 10 ^ j) - 28) h (ground arith) in
      rw (long, fix_magnitude) (rw left (zeros_kept x _ _ same))
]

fix_magnitude-part :
    (q k s : ℕ) → q < limit → fix_magnitude (q * 10 ^ (k - s)) (s - k) ≡ (q * 10 ^ (k - s), s - k)
fix_magnitude-part q k s h = elim (Bool-cases (leb k s)) [
  | inl few ↦
      let gone : k - s ≡ 0 = ground arith in
      let one : q * 10 ^ (k - s) ≡ q = ap (λ n. q * 10 ^ n) gone ∙ omega arith in
      fix_magnitude-short (q * 10 ^ (k - s)) (s - k) (omega arith)
  | inr many ↦
      let gone : s - k ≡ 0 = ground arith in
      subst (λ t. fix_magnitude (q * 10 ^ (k - s)) t ≡ (q * 10 ^ (k - s), t)) (sym gone)
        (fix_magnitude-zeros q (k - s) h)
]

-- A magnitude that was rounded is not changed by rounding it again.
pub fix_magnitude_idem : (n s : ℕ) → let r = fix_magnitude n s in fix_magnitude r.0 r.1 ≡ r
unfolding fix_magnitude
fix_magnitude_idem n s = elim (Bool-cases (leb (digit_count n) 28)) [
  | inl short ↦ rw (short, fix_magnitude) (rw (short, fix_magnitude) refl)
  | inr long ↦
      let k = digit_count n - 28 in
      let same : digit_count n ≡ 28 + k = ground arith in
      let fits = shorten-fits n k (subst (λ d. n < 10 ^ d) same (digit_count-fits n)) in
      rw (long, fix_magnitude) (fix_magnitude-part (shorten n k).0 (shorten n k).1 s fits)
]

shorten-pos : (n k : ℕ) → 10 ^ k ≤ n → 0 < (shorten n k).0
unfolding shorten
shorten-pos n k h =
    let whole =
      (le-div_iff_mul-le {k = 10 ^ k} {x = 1} {y = n} (one-le-pow k 10 (omega arith))).1
        (omega arith) in
    let most = div-le-round_half_even n (10 ^ k) in
    elim (Bool-cases (round_half_even n (10 ^ k) == limit)) [
      | inl full ↦ rw (full, shorten) (omega arith)
      | inr part ↦ rw (part, shorten) (omega arith)
    ]

many_digits : (n k : ℕ) → digit_count n ≡ 28 + suc k → 10 ^ suc k ≤ n
many_digits n k h = elim (Bool-cases (ltb n (10 ^ suc k))) [
  | inl low ↦ absurd (let most = digit_count-le n k (ground arith) in omega arith)
  | inr high ↦ ground arith
]

pub pos-mul_pow : (q j : ℕ) → 0 < q → 0 < q * 10 ^ j
pos-mul_pow q j h = omega (arith, mul-lt-mul_of_pos_right h (one-le-pow j 10 (omega arith)))

-- Rounding leaves no positive number at zero.
pub fix_magnitude-pos : (n s : ℕ) → 0 < n → 0 < (fix_magnitude n s).0
unfolding fix_magnitude
fix_magnitude-pos n s h = elim (Bool-cases (leb (digit_count n) 28)) [
  | inl short ↦ rw (short, fix_magnitude) h
  | inr long ↦
      let k = digit_count n - 29 in
      let one_more : digit_count n - 28 ≡ suc k = ground arith in
      let same : digit_count n ≡ 28 + suc k = ground arith in
      let least = shorten-pos n (suc k) (many_digits n k same) in
      rw (long, fix_magnitude)
        (subst (λ d. 0 < (shorten n d).0 * 10 ^ ((shorten n d).1 - s)) (sym one_more)
          (pos-mul_pow (shorten n (suc k)).0 ((shorten n (suc k)).1 - s) least))
]

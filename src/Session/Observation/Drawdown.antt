-- ===== src/Session/Observation/Drawdown.antt =====
-- `_max_drawdown` never returns a rise, and what it returns is the fall of a value from another one.
use project_fifty.Prelude.{
  ◌≡◌, ◌⊎◌, refl, inl, inr, subst, Bool, true, false, Bool-cases, List, [], ◌∷◌, arith,
  if◌then◌else◌,
}
use project_fifty.Prelude.Int.{ℤ, neg_part, pos, negsuc, pos_part}
use project_fifty.Prelude.Sort.{All}
use project_fifty.Outcome.{ok, >>=-eq-ok, ok_injective}
use project_fifty.Decimal.{Decimal, lt, le, sub, div, zero_dec, one}
use project_fifty.Session.Observation.{drawdown_from, max_drawdown}

abbrev pub IsNonpos : Decimal → Type 0
IsNonpos a = pos_part a.coef ≡ 0

one_part : (z : ℤ) → (pos_part z ≡ 0) ⊎ (neg_part z ≡ 0)
one_part (pos n) = inr refl
one_part (negsuc n) = inl refl

lt-IsNonpos : (a b : Decimal) → lt a b ≡ true → IsNonpos b → IsNonpos a
unfolding lt
lt-IsNonpos a b h k = elim (one_part a.coef) [
  | inl low ↦ low
  | inr high ↦ absurd (let h' = rw (k, high) at h in ground arith)
]

if-holds :
    (Q : Decimal → Type 0) (b : Bool) (x y : Decimal)
    → (b ≡ true → Q x)
    → Q y
    → Q (if b then x else y)
if-holds Q true x y h k = h refl
if-holds Q false x y h k = k

module _ (P : Decimal → Type 0) where
  -- No fall, or the fall to one value from another, of those that satisfy `P`
  abbrev pub IsFall : Decimal → Type 0
  IsFall d =
      (d ≡ zero_dec)
      ⊎ ((nav : Decimal) × (peak : Decimal) × (ratio : Decimal) × P nav
          × P peak
          × (div nav peak ≡ ok ratio)
          × (d ≡ sub ratio one))

  abbrev pub IsDrawdown : Decimal → Type 0
  IsDrawdown d = IsNonpos d × IsFall d

  drawdown_from-IsDrawdown :
      (navs : List Decimal) (peak worst d : Decimal)
      → P peak
      → All P navs
      → IsDrawdown worst
      → drawdown_from peak worst navs ≡ ok d
      → IsDrawdown d
  unfolding drawdown_from
  drawdown_from-IsDrawdown [] peak worst d p ps k h = subst IsDrawdown (ok_injective _ _ h) k
  drawdown_from-IsDrawdown (nav ∷ navs) peak worst d p ps k h =
      let high = if-holds P (lt peak nav) nav peak (λ _. ps.0) p in
      elim (Bool-cases (le (if lt peak nav then nav else peak) zero_dec)) [
        | inl low ↦ drawdown_from-IsDrawdown navs _ worst d high ps.1 k (rw low at h)
        | inr up ↦
            let next = >>=-eq-ok (div nav (if lt peak nav then nav else peak)) _ (rw up at h) in
            drawdown_from-IsDrawdown navs _ _ d high ps.1
              (if-holds IsDrawdown (lt (sub next.0 one) worst) (sub next.0 one) worst
                (λ below. (
                  lt-IsNonpos _ _ below k.0,
                  inr (nav, (if lt peak nav then nav else peak), next.0, ps.0, high, next.1, refl),
                ))
                k)
              next.2
      ]

-- The largest fall is not above zero, and it is zero or the fall to one of the values from another of
-- them: whatever all the values satisfy, those two do.
max_drawdown-IsDrawdown :
    (P : Decimal → Type 0) (nav : Decimal) (navs : List Decimal) (d : Decimal)
    → All P (nav ∷ navs)
    → max_drawdown nav navs ≡ ok d
    → IsDrawdown P d
unfolding max_drawdown
max_drawdown-IsDrawdown P nav navs d ps h =
    drawdown_from-IsDrawdown P (nav ∷ navs) nav zero_dec d ps.0 ps (refl, inl refl) h

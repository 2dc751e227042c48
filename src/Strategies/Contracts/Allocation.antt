-- ===== src/Strategies/Contracts/Allocation.antt =====
-- What the validators of a target portfolio make sure of.
use project_fifty.Prelude.{
  ◌≡◌, Bool, false, true, not, ◌||◌, str_eq, arith, [], ◌∷◌, Bool-cases, inl, inr,
}
use project_fifty.Prelude.Dict.{Dict, values}
use project_fifty.Prelude.Sort.{All}
use project_fifty.Outcome.{Error, ok, raise_if, >>-eq-ok, ok_injective}
use project_fifty.Decimal.{Decimal, add, eq, zero_dec, one}
use project_fifty.Strategies.Contracts.{
  TargetPortfolio, is_outside_unit, validate_weights, validate_target, sum_from,
}

-- Every weight is in [0, 1], and together they are exactly 1.
abbrev pub IsAllocation : TargetPortfolio → Type 0
IsAllocation t =
    All (λ entry. is_outside_unit entry.1 ≡ false) t.weights
    × (is_outside_unit t.cash_weight ≡ false)
    × (eq (add (sum_from zero_dec (values t.weights)) t.cash_weight) one ≡ true)

pub raise_if-eq-ok : (b : Bool) (e : Error) → raise_if b e ≡ ok tt → b ≡ false
raise_if-eq-ok b e h = ground arith

validate_weights-All :
    (weights : Dict Decimal)
    → validate_weights weights ≡ ok tt
    → All (λ entry. is_outside_unit entry.1 ≡ false) weights
unfolding validate_weights
validate_weights-All [] h = tt
validate_weights-All ((symbol, weight) ∷ weights) h =
    let (_, h1) = >>-eq-ok (raise_if (str_eq symbol "") _) _ h in
    let (inside, h2) = >>-eq-ok (raise_if (is_outside_unit weight) _) _ h1 in
    (raise_if-eq-ok _ _ inside, validate_weights-All weights h2)

-- An accepted target is the one that was given, and an allocation.
pub validate_target-IsAllocation :
    (t t' : TargetPortfolio) → validate_target t ≡ ok t' → (t ≡ t') × IsAllocation t
unfolding validate_target
validate_target-IsAllocation t t' h =
    let (weights, h1) = >>-eq-ok (validate_weights t.weights) _ h in
    let (cash, h2) = >>-eq-ok (raise_if (is_outside_unit t.cash_weight) _) _ h1 in
    let (_, h3) = >>-eq-ok (raise_if (is_outside_unit t.confidence) _) _ h2 in
    let total = eq (add (sum_from zero_dec (values t.weights)) t.cash_weight) one in
    let (whole, h4) = >>-eq-ok (raise_if (not total) _) _ h3 in
    let (_, h5) =
      >>-eq-ok
        (raise_if
          ((str_eq t.strategy_id "" || str_eq t.strategy_version "")
            || str_eq t.market_state_hash "")
          _)
        _ h4 in
    (
      ok_injective _ _ h5,
      (
        validate_weights-All t.weights weights,
        raise_if-eq-ok _ _ cash,
        elim (Bool-cases total) [ inl e ↦ e | inr e ↦ absurd (ground arith) ],
      ),
    )

-- ===== src/Strategies/LowFrequency/Held.antt =====
-- The targets of the low-frequency strategy that keep what is held: allocations made for the context
-- that give a weight only to symbols that are held.
use project_fifty.Domain.{Position}
use project_fifty.Strategies.Contracts.{StrategyContext, TargetPortfolio, is_empty, sum_from}
use project_fifty.Decimal.{sub, Decimal, le, one, zero_dec, lt}
use project_fifty.Outcome.{ok_injective, >>=-eq-ok, raise_if, value_error, ◌>>◌, >>-eq-ok, ok}
use project_fifty.Strategies.Rebalance.{validate_match}
use project_fifty.Strategies.Contracts.Allocation.{IsAllocation, validate_target-IsAllocation}
use project_fifty.Prelude.{
  String, ◌≡◌, subst, ap, inl, inr, false, true, eq_refl, eq_iff, arith, [], ◌∷◌, Bool-cases, ◌||◌,
}
use project_fifty.Prelude.Dict.{Dict, lookup, has_key, values}
use project_fifty.Prelude.Sort.{All-weaken, All, sort_by-All, str_le}
use project_fifty.Strategies.LowFrequency.{
  cash_target, preserve_weights, new_target, position_weights, momentum_fields, sorted_positions,
  position_weight,
}

All-has_key : (d : Dict Position) → All (λ entry. has_key entry.0 d ≡ true) d
unfolding has_key lookup
All-has_key [] = tt
All-has_key ((k, v) ∷ d) = (
  ground (arith, eq_iff k k),
  All-weaken d (λ entry h. ground (arith, eq_iff k entry.0)) (All-has_key d),
)

module _ (context : StrategyContext) where
  -- The target is an allocation that was made for the context.
  abbrev pub IsMomentumTarget : TargetPortfolio → Type 0
  IsMomentumTarget t =
      IsAllocation t
      × (lt context.portfolio.nav zero_dec ≡ false → validate_match t context ≡ ok tt)

  pub new_target-IsTarget :
      (weights : Dict Decimal) (cash_weight : Decimal) (t : TargetPortfolio)
      → new_target context weights cash_weight ≡ ok t
      → (weights ≡ t.weights) × IsMomentumTarget t
  unfolding new_target validate_match
  new_target-IsTarget weights cash_weight t h =
      let fields = momentum_fields context weights cash_weight in
      let (same, sound) = validate_target-IsAllocation fields t h in
      (
        ap (λ (x : TargetPortfolio). x.weights) same,
        subst IsMomentumTarget same (
            (
              sound,
              λ nav. ground (arith, eq_refl context.currency, eq_refl context.market_state_hash),
            )),
      )

  -- Only symbols that are held have a weight.
  abbrev pub IsHeldOnly : TargetPortfolio → Type 0
  IsHeldOnly t = All (λ entry. has_key entry.0 context.portfolio.positions ≡ true) t.weights

  pub cash_target-IsHeldOnly :
      (t : TargetPortfolio) → cash_target context ≡ ok t → IsMomentumTarget t × IsHeldOnly t
  unfolding cash_target
  cash_target-IsHeldOnly t h =
      let (empty, sound) = new_target-IsTarget [] one t h in
      (sound, subst (All (λ entry. has_key entry.0 context.portfolio.positions ≡ true)) empty tt)

  position_weights-All :
      (P : String → Type 0) (positions : Dict Position) (weights : Dict Decimal)
      → All (λ entry. P entry.0) positions
      → position_weights context positions ≡ ok weights
      → All (λ entry. P entry.0) weights
  unfolding position_weights
  position_weights-All P [] weights held h =
      subst (All (λ entry. P entry.0)) (ok_injective [] weights h) tt
  position_weights-All P ((symbol, position) ∷ positions) weights held h =
      let (weight, _, h1) = >>=-eq-ok (position_weight context symbol position) _ h in
      let (rest, later, h2) = >>=-eq-ok (position_weights context positions) _ h1 in
      subst (All (λ entry. P entry.0)) (ok_injective ((symbol, weight) ∷ rest) weights h2)
        (held.0, position_weights-All P positions rest held.1 later)

  pub preserve_weights-IsHeldOnly :
      (t : TargetPortfolio) → preserve_weights context ≡ ok t → IsMomentumTarget t × IsHeldOnly t
  unfolding preserve_weights
  preserve_weights-IsHeldOnly t h =
      elim (Bool-cases
        (le context.portfolio.nav zero_dec || is_empty context.portfolio.positions)) [
          | inl idle ↦ cash_target-IsHeldOnly t (ground arith)
          | inr marked ↦
              let (weights, weighed, h1) =
                >>=-eq-ok (position_weights context (sorted_positions context.portfolio.positions))
                  (λ weights.
                    let invested = sum_from zero_dec (values weights) in
                    raise_if (lt one invested) (value_error "current invested weight exceeds 100%")
                    >> new_target context weights (sub one invested))
                  (ground arith) in
              let (_, h2) =
                >>-eq-ok
                  (raise_if (lt one (sum_from zero_dec (values weights)))
                    (value_error "current invested weight exceeds 100%"))
                  _ h1 in
              let (same, sound) = new_target-IsTarget weights _ t h2 in
              (
                sound,
                subst (All (λ entry. has_key entry.0 context.portfolio.positions ≡ true)) same (
                    position_weights-All (λ k. has_key k context.portfolio.positions ≡ true)
                      (sorted_positions context.portfolio.positions) weights
                      (sort_by-All (λ entry. has_key entry.0 context.portfolio.positions ≡ true)
                        (λ a b. str_le a.0 b.0) context.portfolio.positions
                        (All-has_key context.portfolio.positions))
                      weighed),
              )
        ]

-- ===== src/Strategies/SingleMarket/Sound.antt =====
-- The targets of the single-market strategy: what is held between the decisions, and what a decision
-- makes of the signal.
use project_fifty.Strategies.Indicators.{bar_from_end, sma, momentum}
use project_fifty.Prelude.{
  ◌≡◌, ◌⊎◌, refl, sym, subst, inl, inr, false, true, ltb, str_eq, eq_refl, arith, Option, none,
  some, List, [], ◌∷◌, Bool-cases, ap, ◌%◌, ◌≤◌, Bool, ◌<◌, ◌&&◌, ◌||◌,
}
use project_fifty.Prelude.Dict.{Dict, lookup, has_key, lookup_or}
use project_fifty.Prelude.Sort.{All}
use project_fifty.Prelude.Seq.{length}
use project_fifty.Outcome.{
  ok, >>=-eq-ok, Result-cases, >>-eq-ok, ok_injective, or_raise, raise_if, or_raise-some,
}
use project_fifty.Decimal.{Decimal, lt, le, sub, zero_dec, one, div, mul}
use project_fifty.Domain.{Position}
use project_fifty.Strategies.Contracts.{MarketBar, StrategyContext, TargetPortfolio}
use project_fifty.Strategies.Contracts.Allocation.{IsAllocation, validate_target-IsAllocation}
use project_fifty.Strategies.Rebalance.{validate_match}
use project_fifty.Strategies.SingleMarket.{
  SingleMarketTrendConfig, allocate, all_cash, marked_weight, preserve_position, preserve,
  is_risk_on, follow_regime, evaluate_regime, minimum_history, is_scheduled, target_for,
  generate_target, inception_target_for, generate_inception_target, validated_inputs, target_fields,
}

module _ (config : SingleMarketTrendConfig) (context : StrategyContext) where
  -- The target is an allocation to the symbol and cash, made for the context.
  abbrev pub IsTarget : TargetPortfolio → Type 0
  IsTarget t =
      IsAllocation t
      × All (λ entry. str_eq entry.0 config.symbol ≡ true) t.weights
      × (lt context.portfolio.nav zero_dec ≡ false → validate_match t context ≡ ok tt)

  allocate-IsTarget :
      (weights : Dict Decimal) (cash_weight : Decimal) (t : TargetPortfolio)
      → All (λ entry. str_eq entry.0 config.symbol ≡ true) weights
      → allocate context weights cash_weight ≡ ok t
      → (weights ≡ t.weights) × (cash_weight ≡ t.cash_weight) × IsTarget t
  unfolding allocate validate_match
  allocate-IsTarget weights cash_weight t symbols h =
      let fields = target_fields context weights cash_weight in
      let (same, sound) = validate_target-IsAllocation fields t h in
      (
        ap (λ (x : TargetPortfolio). x.weights) same,
        ap (λ (x : TargetPortfolio). x.cash_weight) same,
        subst IsTarget same (
            (
              sound,
              symbols,
              λ nav. ground (arith, eq_refl context.currency, eq_refl context.market_state_hash),
            )),
      )

  -- The weight that the position has at its reference price, and the rest in cash
  abbrev pub IsWeightOf : Position → TargetPortfolio → Type 0
  IsWeightOf position t =
      (price : Decimal) × (weight : Decimal) × (lookup config.symbol context.reference_prices
        ≡ some price)
      × (div (mul position.quantity price) context.portfolio.nav ≡ ok weight)
      × (t.weights ≡ (config.symbol, weight) ∷ [])
      × (t.cash_weight ≡ sub one weight)

  abbrev pub IsCash : TargetPortfolio → Type 0
  IsCash t = (t.weights ≡ []) × (t.cash_weight ≡ one)

  -- What is held stays: cash where there is no position or nothing to divide by, and else the
  -- position's weight.
  abbrev pub IsKept : TargetPortfolio → Type 0
  IsKept t =
      ((lookup config.symbol context.portfolio.positions ≡ none) × IsCash t)
      ⊎ ((le context.portfolio.nav zero_dec ≡ true) × IsCash t)
      ⊎ ((position : Position) × (lookup config.symbol context.portfolio.positions ≡ some position)
          × IsWeightOf position t)

  all_cash-IsCash : (t : TargetPortfolio) → all_cash context ≡ ok t → IsTarget t × IsCash t
  unfolding all_cash
  all_cash-IsCash t h =
      let (empty, whole, sound) = allocate-IsTarget [] one t tt h in (sound, (sym empty, sym whole))

  marked_weight-eq :
      (position : Position) (weight : Decimal)
      → marked_weight config context position ≡ ok weight
      → (price : Decimal) × (lookup config.symbol context.reference_prices ≡ some price)
        × (div (mul position.quantity price) context.portfolio.nav ≡ ok weight)
  unfolding marked_weight
  marked_weight-eq position weight h =
      let (price, priced, h1) =
        >>=-eq-ok (or_raise (lookup config.symbol context.reference_prices) _) _ h in
      let (w, divided, h2) =
        >>=-eq-ok (div (mul position.quantity price) context.portfolio.nav) _ h1 in
      let (_, h3) = >>-eq-ok (raise_if (lt w zero_dec || lt one w) _) _ h2 in
      (
        price,
        or_raise-some (lookup config.symbol context.reference_prices) _ price priced,
        subst (λ x. div (mul position.quantity price) context.portfolio.nav ≡ ok x)
            (ok_injective _ _ h3) divided,
      )

  preserve_position-IsKept :
      (position : Option Position) (t : TargetPortfolio)
      → lookup config.symbol context.portfolio.positions ≡ position
      → preserve_position config context position ≡ ok t
      → IsTarget t × IsKept t
  unfolding preserve_position
  preserve_position-IsKept none t at h =
      let (sound, cash) = all_cash-IsCash t h in (sound, inl (at, cash))
  preserve_position-IsKept (some position) t at h =
      elim (Bool-cases (le context.portfolio.nav zero_dec)) [
        | inl poor ↦
            let (sound, cash) = all_cash-IsCash t (rw poor at h) in (sound, inr (inl (poor, cash)))
        | inr rich ↦
            let (weight, marked, h1) =
              >>=-eq-ok (marked_weight config context position)
                (λ weight. allocate context ((config.symbol, weight) ∷ []) (sub one weight))
                (rw rich at h) in
            let (price, priced, divided) = marked_weight-eq position weight marked in
            let (same, rest, sound) =
              allocate-IsTarget ((config.symbol, weight) ∷ []) (sub one weight) t
                (eq_refl config.symbol, tt) h1 in
            (sound, inr (inr (position, at, (price, weight, priced, divided, sym same, sym rest))))
      ]

  preserve-IsKept : (t : TargetPortfolio) → preserve config context ≡ ok t → IsTarget t × IsKept t
  unfolding preserve
  preserve-IsKept t h =
      preserve_position-IsKept (lookup config.symbol context.portfolio.positions) t refl h

  -- Whether the last close is above the moving average, and the momentum above zero
  abbrev pub IsSignal : List MarketBar → Bool → Bool → Type 0
  IsSignal bars trend rising =
      (latest : MarketBar) × (average : Decimal) × (growth : Decimal) × (bar_from_end 1 bars
        ≡ ok latest)
      × (sma bars config.trend_sma_days ≡ ok average)
      × (momentum config.momentum_days bars ≡ ok growth)
      × (lt average latest.close ≡ trend)
      × (lt zero_dec growth ≡ rising)

  is_risk_on-IsSignal :
      (bars : List MarketBar) (on : Bool)
      → is_risk_on config bars ≡ ok on
      → (trend : Bool) × (rising : Bool) × IsSignal bars trend rising × ((trend && rising) ≡ on)
  unfolding is_risk_on
  is_risk_on-IsSignal bars on h =
      let (latest, last, h1) = >>=-eq-ok (bar_from_end 1 bars) _ h in
      let (average, mean, h2) = >>=-eq-ok (sma bars config.trend_sma_days) _ h1 in
      let (growth, grown, h3) = >>=-eq-ok (momentum config.momentum_days bars) _ h2 in
      (
        lt average latest.close,
        lt zero_dec growth,
        (latest, average, growth, last, mean, grown, refl, refl),
        ok_injective _ _ h3,
      )

  -- With both up a position is kept, and without one everything goes in the symbol; with one of them
  -- not up everything goes in cash.
  abbrev pub IsFollowed : TargetPortfolio → Bool → Type 0
  IsFollowed t true =
      ((has_key config.symbol context.portfolio.positions ≡ true) × IsKept t)
      ⊎ ((has_key config.symbol context.portfolio.positions ≡ false)
          × (t.weights ≡ (config.symbol, one) ∷ []))
  IsFollowed t false = IsCash t

  abbrev pub IsRegime : List MarketBar → TargetPortfolio → Type 0
  IsRegime bars t =
      (trend : Bool) × (rising : Bool) × IsSignal bars trend rising × IsFollowed t (trend && rising)

  follow_regime-IsFollowed :
      (on : Bool) (t : TargetPortfolio)
      → follow_regime config context on ≡ ok t
      → IsTarget t × IsFollowed t on
  unfolding follow_regime
  follow_regime-IsFollowed false t h = all_cash-IsCash t h
  follow_regime-IsFollowed true t h =
      elim (Bool-cases (has_key config.symbol context.portfolio.positions)) [
        | inl held ↦
            let (sound, kept) = preserve-IsKept t (rw held at h) in (sound, inl (held, kept))
        | inr flat ↦
            let (same, _, sound) =
              allocate-IsTarget ((config.symbol, one) ∷ []) zero_dec t (eq_refl config.symbol, tt)
                (rw flat at h) in
            (sound, inr (flat, sym same))
      ]

  evaluate_regime-IsRegime :
      (bars : List MarketBar) (t : TargetPortfolio)
      → evaluate_regime config context bars ≡ ok t
      → IsTarget t × IsRegime bars t
  unfolding evaluate_regime
  evaluate_regime-IsRegime bars t h =
      let (on, signal, h1) = >>=-eq-ok (is_risk_on config bars) (follow_regime config context) h in
      let (trend, rising, seen, same) = is_risk_on-IsSignal bars on signal in
      let (sound, followed) = follow_regime-IsFollowed on t h1 in
      (sound, (trend, rising, seen, subst (IsFollowed t) (sym same) followed))

  -- The number of bars is a multiple of the cadence, and is enough for both lookbacks.
  abbrev pub IsDue : List MarketBar → Type 0
  IsDue bars =
      (length bars % config.rebalance_every_bars ≡ 0)
      × (config.trend_sma_days ≤ length bars)
      × (config.momentum_days < length bars)

  minimum_history-enough :
      (bars : List MarketBar)
      → ltb (length bars) (minimum_history config) ≡ false
      → (config.trend_sma_days ≤ length bars) × (config.momentum_days < length bars)
  unfolding minimum_history
  minimum_history-enough bars h = (ground arith, ground arith)

  minimum_history-short :
      (bars : List MarketBar) → ltb (length bars) (minimum_history config) ≡ true → ¬ IsDue bars
  unfolding minimum_history
  minimum_history-short bars h (due, trend, lookback) = ground arith

  target_for-IsTarget :
      (bars : List MarketBar) (t : TargetPortfolio)
      → target_for config context bars ≡ ok t
      → IsTarget t × ((¬ IsDue bars × IsKept t) ⊎ (IsDue bars × IsRegime bars t))
  unfolding target_for
  target_for-IsTarget bars t h = elim (Bool-cases (ltb (length bars) (minimum_history config))) [
    | inl short ↦
        let (sound, kept) = preserve-IsKept t (rw short at h) in
        (sound, inl (minimum_history-short bars short, kept))
    | inr long ↦ elim (Bool-cases (is_scheduled config bars)) [
      | inr between ↦
          let (sound, kept) = preserve-IsKept t (rw (long, between) at h) in
          (sound, inl ((λ due. absurd (let due' = due.0 in ground arith)), kept))
      | inl scheduled ↦
          let (sound, regime) = evaluate_regime-IsRegime bars t (rw (long, scheduled) at h) in
          let (trend, lookback) = minimum_history-enough bars long in
          (sound, inr ((ground arith, trend, lookback), regime))
    ]
  ]

-- A target that the strategy generates is an allocation of weights in [0, 1] that sum to 1 to the
-- symbol and cash, and, where the net asset value is not negative, what the rebalance policy and
-- the proposal builder accept for the context. Where the number of bars is not a multiple of the
-- cadence or too small for a lookback, what is held is kept: the position's weight at its reference
-- price with the rest in cash, or all cash where there is no position or the net asset value is not
-- positive. Elsewhere everything goes in cash where the last close is not above the moving average
-- or the momentum not above zero, and with both up a position is kept and without one everything
-- goes in the symbol.
pub generate_target-IsTarget :
    (config : SingleMarketTrendConfig) (context : StrategyContext) (t : TargetPortfolio)
    → generate_target config context ≡ ok t
    → let bars = lookup_or [] config.symbol context.history in
      IsTarget config context t
      × ((¬ IsDue config context bars × IsKept config context t)
          ⊎ (IsDue config context bars × IsRegime config context bars t))
unfolding generate_target validated_inputs
generate_target-IsTarget config context t h =
    let (bars, valid, h1) =
      >>=-eq-ok (validated_inputs config context) (target_for config context) h in
    let (_, v1) = >>-eq-ok _ _ valid in
    let (_, v2) = >>-eq-ok _ _ v1 in
    target_for-IsTarget config context (lookup_or [] config.symbol context.history) t
      (subst (λ x. target_for config context x ≡ ok t) (sym (ok_injective _ _ v2)) h1)

-- On a bar of the cadence the inception's target is the strategy's, or both raise the same error.
pub generate_inception_target-generate_target :
    (config : SingleMarketTrendConfig) (context : StrategyContext)
    → ((bars : List MarketBar)
        → validated_inputs config context ≡ ok bars
        → is_scheduled config bars ≡ true)
    → generate_inception_target config context ≡ generate_target config context
unfolding generate_inception_target generate_target inception_target_for target_for
generate_inception_target-generate_target config context scheduled =
    elim (Result-cases (validated_inputs config context)) [
      | inr (e, raised) ↦ rw raised refl
      | inl (bars, valid) ↦ rw (valid, scheduled bars valid) refl
    ]

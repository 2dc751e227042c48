-- ===== src/Strategies/Persistent/Chosen.antt =====
-- The targets of the persistent strategy: who is chosen, how many, and with which weight.
use project_fifty.Prelude.{
  ℕ, suc, String, ◌≡◌, ◌⊎◌, refl, ap, subst, inl, inr, Bool, true, not, ◌&&◌, Bool-cases, contains,
  arith, List, [], ◌∷◌, map,
}
use project_fifty.Prelude.Dict.{Dict}
use project_fifty.Prelude.Sort.{All, All-weaken}
use project_fifty.Prelude.Seq.{length, take, length-take, take-All}
use project_fifty.Outcome.{ok, >>=-eq-ok}
use project_fifty.Decimal.{Decimal, le, eq, sub, div, max, min, zero_dec, one}
use project_fifty.Strategies.Contracts.{StrategyContext, TargetPortfolio, sum_from}
use project_fifty.Strategies.Contracts.Allocation.{validate_target-IsAllocation}
use project_fifty.Strategies.Indicators.{decimal_of}
use project_fifty.Strategies.Baseline.{RegimeState, risk_budget, hundredths}
use project_fifty.Strategies.Baseline.Signals.{SignalBreakdown, detect_regime}
use project_fifty.Strategies.Baseline.Target.{
  technical_fields, technical_cash, technical_target, signals_of, keep_signals, rank_signals,
  scores_of,
}
use project_fifty.Strategies.Baseline.Target.Selected.{
  IsScored, AreWeighed, IsWeighing, keep_signals-All, rank_signals-All, signals_of-All,
  technical_target-IsWeighing, technical_cash-IsWeighing,
}
use project_fifty.Strategies.Persistent.{
  PersistentBaselineConfig, is_incumbent, symbols_of, select_persistent, equal_weights,
  persistent_target_in, persistent_target, retained_signals,
}
use project_fifty.Strategies.Persistent.Few.{
  AreFew, fill_slots-AreFew, challenge_all-AreFew, rank_signals-AreFew,
}

-- Every weight is the budget's equal part.
abbrev pub AreEqual : Decimal → TargetPortfolio → Type 0
AreEqual budget t = All (λ entry. div budget (decimal_of (length t.weights)) ≡ ok entry.1) t.weights

abbrev weights_of : Decimal → List SignalBreakdown → Dict Decimal
weights_of weight items = map (λ (chosen : SignalBreakdown). (chosen.symbol, weight)) items

weights_of-AreWeighed :
    (P : SignalBreakdown → Type 0) (weight : Decimal) (items : List SignalBreakdown)
    → All P items
    → AreWeighed P (weights_of weight items)
weights_of-AreWeighed P weight [] h = tt
weights_of-AreWeighed P weight (item ∷ items) h =
    ((item, refl, h.0), weights_of-AreWeighed P weight items h.1)

length-weights_of :
    (weight : Decimal) (items : List SignalBreakdown)
    → length (weights_of weight items) ≡ length items
unfolding length
length-weights_of weight [] = refl
length-weights_of weight (item ∷ items) = ap suc (length-weights_of weight items)

weights_of-All :
    (Q : Decimal → Type 0) (weight : Decimal) (items : List SignalBreakdown)
    → Q weight
    → All (λ entry. Q entry.1) (weights_of weight items)
weights_of-All Q weight [] h = tt
weights_of-All Q weight (item ∷ items) h = (h, weights_of-All Q weight items h)

module _ (P : SignalBreakdown → Type 0) (n : ℕ) (version : String) (context : StrategyContext)
    (budget : Decimal) where
  -- Few signals with `P` get the budget in equal parts.
  abbrev pub IsEqualWeighing : TargetPortfolio → Type 0
  IsEqualWeighing t = IsWeighing P n t × AreEqual budget t

  pub technical_cash-IsEqualWeighing :
      (confidence : Decimal) (t : TargetPortfolio)
      → technical_cash version context confidence ≡ ok t
      → IsEqualWeighing t
  unfolding technical_cash technical_target
  technical_cash-IsEqualWeighing confidence t h = (
    technical_cash-IsWeighing P n version context confidence t (unfold technical_cash in h),
    subst (AreEqual budget)
        (validate_target-IsAllocation (technical_fields version context [] one confidence) t h).0
        tt,
  )

  pub equal_weights-IsEqualWeighing :
      (items : List SignalBreakdown) (t : TargetPortfolio)
      → AreFew P n items
      → equal_weights version context budget items ≡ ok t
      → IsEqualWeighing t
  unfolding equal_weights
  equal_weights-IsEqualWeighing [] t few h = technical_cash-IsEqualWeighing (hundredths 50) t h
  equal_weights-IsEqualWeighing (item ∷ items) t few h =
      let count = decimal_of (length (item ∷ items)) in
      let (weight, part, h1) = >>=-eq-ok (div budget count) _ h in
      let (average, _, h2) =
        >>=-eq-ok (div (sum_from zero_dec (scores_of (item ∷ items))) count) _ h1 in
      let weights = weights_of weight (item ∷ items) in
      let confidence = min (max average zero_dec) one in
      let many = length-weights_of weight (item ∷ items) in
      let fields = technical_fields version context weights (sub one budget) confidence in
      (
        technical_target-IsWeighing P n version context weights (sub one budget) confidence t
            (weights_of-AreWeighed P weight (item ∷ items) few.0) (rw many few.1) h2,
        subst (AreEqual budget)
            (validate_target-IsAllocation fields t (unfold technical_target in h2)).0
            (weights_of-All (λ w. div budget (decimal_of (length weights)) ≡ ok w) weight
              (item ∷ items) (rw many part)),
      )

-- A signal that the persistent strategy may choose: an incumbent that is good enough to stay, or a
-- symbol that is good enough to enter
abbrev pub IsChoosable : PersistentBaselineConfig → StrategyContext → SignalBreakdown → Type 0
IsChoosable c context item =
    IsScored c.signal_config context item
    × (((is_incumbent context item.symbol ≡ true) × (le c.retention_score item.score ≡ true))
        ⊎ (le c.entry_score item.score ≡ true))

select_persistent-AreFew :
    (c : PersistentBaselineConfig) (context : StrategyContext) (signals : List SignalBreakdown)
    → All (IsScored c.signal_config context) signals
    → AreFew
        (IsChoosable c context)
        c.signal_config.max_positions
        (select_persistent c context signals)
unfolding select_persistent retained_signals
select_persistent-AreFew c context signals scored =
    let n = c.signal_config.max_positions in
    let P = IsChoosable c context in
    let S = IsScored c.signal_config context in
    let stays : SignalBreakdown → Bool =
      λ item. is_incumbent context item.symbol && le c.retention_score item.score in
    let ranked = rank_signals (keep_signals stays signals) in
    let retained = take n ranked in
    let enters : SignalBreakdown → Bool =
      λ item. not (contains item.symbol (symbols_of retained)) && le c.entry_score item.score in
    let challengers = rank_signals (keep_signals enters signals) in
    let kept : AreFew P n retained = (
      take-All P n ranked (
          rank_signals-All P (keep_signals stays signals) (
            All-weaken (keep_signals stays signals) (λ item k. (k.0, inl (ground arith)))
              (keep_signals-All S stays signals scored))),
      length-take n ranked,
    ) in
    let able : All P challengers = rank_signals-All P (keep_signals enters signals) (
      All-weaken (keep_signals enters signals) (λ item k. (k.0, inr (ground arith)))
        (keep_signals-All S enters signals scored)) in
    let filled = fill_slots-AreFew P n retained challengers kept able in
    rank_signals-AreFew P n _ (challenge_all-AreFew P n c.replacement_margin _ _ filled.0 filled.1)

persistent_target_in-IsEqualWeighing :
    (c : PersistentBaselineConfig) (context : StrategyContext) (regime : RegimeState)
    (t : TargetPortfolio)
    → persistent_target_in c context regime ≡ ok t
    → IsEqualWeighing
        (IsChoosable c context)
        c.signal_config.max_positions
        "2.0.0"
        context
        (risk_budget c.signal_config regime)
        t
unfolding persistent_target_in
persistent_target_in-IsEqualWeighing c context regime t h =
    let n = c.signal_config.max_positions in
    let budget = risk_budget c.signal_config regime in
    elim (Bool-cases (eq budget zero_dec)) [
      | inl nothing ↦
          technical_cash-IsEqualWeighing (IsChoosable c context) n "2.0.0" context budget
            (hundredths 90) t (rw nothing at h)
      | inr something ↦
          let (signals, scored, h1) =
            >>=-eq-ok (signals_of c.signal_config context) _ (rw something at h) in
          equal_weights-IsEqualWeighing (IsChoosable c context) n "2.0.0" context budget
            (select_persistent c context signals) t
            (select_persistent-AreFew c context signals
              (signals_of-All c.signal_config context signals scored))
            h1
    ]

-- A target of the persistent strategy is an allocation of weights in [0, 1] that sum to 1. It has at
-- most `max_positions` weights, each the equal part of the regime's budget and each for a symbol that
-- is not the benchmark and is an incumbent with a score from its bars that is at least the retention
-- score, or has one that is at least the entry score.
pub persistent_target-IsEqualWeighing :
    (c : PersistentBaselineConfig) (context : StrategyContext) (t : TargetPortfolio)
    → persistent_target c context ≡ ok t
    → (regime : RegimeState) × (detect_regime c.signal_config context context.benchmark_symbol
        ≡ ok regime)
      × IsEqualWeighing
          (IsChoosable c context)
          c.signal_config.max_positions
          "2.0.0"
          context
          (risk_budget c.signal_config regime)
          t
unfolding persistent_target
persistent_target-IsEqualWeighing c context t h =
    let (regime, detected, h1) =
      >>=-eq-ok (detect_regime c.signal_config context context.benchmark_symbol) _ h in
    (regime, detected, persistent_target_in-IsEqualWeighing c context regime t h1)

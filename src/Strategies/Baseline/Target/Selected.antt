-- ===== src/Strategies/Baseline/Target/Selected.antt =====
-- The targets of the baseline: which symbols get a weight, and how many.
use project_fifty.Prelude.{
  ℕ, suc, ◌∙◌, ◌≤◌, String, ◌≡◌, refl, sym, ap, subst, inl, inr, Bool, true, false, Bool-cases, ltb,
  arith, Option, none, some, List, [], ◌∷◌,
}
use project_fifty.Prelude.Dict.{Dict, lookup_or}
use project_fifty.Prelude.Sort.{All, sort_by-All}
use project_fifty.Prelude.Seq.{length, length-take, take-All}
use project_fifty.Outcome.{ok, >>=-eq-ok, ok_injective}
use project_fifty.Decimal.{Decimal, le, eq, add, sub, mul, div, zero_dec, one}
use project_fifty.Strategies.Contracts.{MarketBar, StrategyContext, TargetPortfolio, sum_from}
use project_fifty.Strategies.Contracts.Allocation.{IsAllocation, validate_target-IsAllocation}
use project_fifty.Strategies.SingleMarket.{is_benchmark}
use project_fifty.Strategies.Indicators.{decimal_of}
use project_fifty.Strategies.Baseline.{BaselineConfig, RegimeState, shock, risk_budget, hundredths}
use project_fifty.Strategies.Baseline.Indicators.{clamp}
use project_fifty.Strategies.Baseline.Signals.{
  SignalBreakdown, measure_bars, breakdown_of, required_bars, score_symbol, detect_regime,
}
use project_fifty.Strategies.Baseline.Target.{
  scores_of, technical_target, technical_cash, technical_fields, add_signal, signals_from,
  signals_of, keep_signals, rank_signals, score_weights, weigh_selected, baseline_target_in,
  baseline_target,
}

pub some_injective : {A : Type 0} (a b : A) → some a ≡ some b → a ≡ b
some_injective a b h = cc

none-some : {A : Type 0} {a : A} → none ≡ some a → ⊥
none-some h = cc

module _ (c : BaselineConfig) (context : StrategyContext) where
  -- A signal is the score of its symbol, which is not the benchmark.
  abbrev pub IsScored : SignalBreakdown → Type 0
  IsScored item =
      (score_symbol c item.symbol (lookup_or [] item.symbol context.history) ≡ ok (some item))
      × (is_benchmark item.symbol context.benchmark_symbol ≡ false)

  score_symbol-symbol :
      (symbol : String) (bars : List MarketBar) (item : SignalBreakdown)
      → score_symbol c symbol bars ≡ ok (some item)
      → item.symbol ≡ symbol
  unfolding score_symbol breakdown_of
  score_symbol-symbol symbol bars item h = elim (Bool-cases (ltb (length bars) (required_bars c))) [
    | inl few ↦ absurd (none-some (ok_injective _ _ (rw few at h)))
    | inr enough ↦
        let (m, _, h1) = >>=-eq-ok (measure_bars c bars) _ (rw enough at h) in
        ap (λ (x : SignalBreakdown). x.symbol) (sym (some_injective _ _ (ok_injective _ _ h1)))
  ]

  add_signal-All :
      (symbol : String) (found : Option SignalBreakdown) (signals : List SignalBreakdown)
      → score_symbol c symbol (lookup_or [] symbol context.history) ≡ ok found
      → is_benchmark symbol context.benchmark_symbol ≡ false
      → All IsScored signals
      → All IsScored (add_signal found signals)
  add_signal-All symbol none signals h other rest = rest
  add_signal-All symbol (some item) signals h other rest = (
    subst
        (λ name.
          (score_symbol c name (lookup_or [] name context.history) ≡ ok (some item))
          × (is_benchmark name context.benchmark_symbol ≡ false))
        (sym (score_symbol-symbol symbol _ item h)) (h, other),
    rest,
  )

  signals_from-All :
      (symbols : List String) (signals : List SignalBreakdown)
      → signals_from c context symbols ≡ ok signals
      → All IsScored signals
  unfolding signals_from
  signals_from-All [] signals h = subst (All IsScored) (ok_injective _ _ h) tt
  signals_from-All (symbol ∷ symbols) signals h =
      elim (Bool-cases (is_benchmark symbol context.benchmark_symbol)) [
        | inl same ↦ signals_from-All symbols signals (rw same at h)
        | inr other ↦
            let (found, first, h1) =
              >>=-eq-ok (score_symbol c symbol (lookup_or [] symbol context.history)) _
                (rw other at h) in
            let (rest, later, h2) = >>=-eq-ok (signals_from c context symbols) _ h1 in
            subst (All IsScored) (ok_injective _ _ h2)
              (add_signal-All symbol found rest first other (signals_from-All symbols rest later))
      ]

  pub signals_of-All :
      (signals : List SignalBreakdown) → signals_of c context ≡ ok signals → All IsScored signals
  unfolding signals_of
  signals_of-All signals h = signals_from-All _ signals h

pub keep_signals-All :
    (P : SignalBreakdown → Type 0) (test : SignalBreakdown → Bool) (signals : List SignalBreakdown)
    → All P signals
    → All (λ item. P item × (test item ≡ true)) (keep_signals test signals)
unfolding keep_signals
keep_signals-All P test [] h = tt
keep_signals-All P test (item ∷ items) h = elim (Bool-cases (test item)) [
  | inl kept ↦ rw kept ((h.0, kept), keep_signals-All P test items h.1)
  | inr left ↦ rw left (keep_signals-All P test items h.1)
]

pub rank_signals-All :
    (P : SignalBreakdown → Type 0) (signals : List SignalBreakdown)
    → All P signals
    → All P (rank_signals signals)
unfolding rank_signals
rank_signals-All P signals h = sort_by-All P _ signals h

-- Every weight is for the symbol of a signal with `P`.
abbrev pub AreWeighed : (SignalBreakdown → Type 0) → Dict Decimal → Type 0
AreWeighed P weights =
    All (λ entry. (item : SignalBreakdown) × (item.symbol ≡ entry.0) × P item) weights

score_weights-AreWeighed :
    (P : SignalBreakdown → Type 0) (budget total allocated : Decimal) (items : List SignalBreakdown)
    (weights : Dict Decimal)
    → All P items
    → score_weights budget total allocated items ≡ ok weights
    → AreWeighed P weights × (length weights ≡ length items)
unfolding score_weights length
score_weights-AreWeighed P budget total allocated [] weights ps h =
    subst (λ ws. AreWeighed P ws × (length ws ≡ 0)) (ok_injective _ _ h) (tt, refl)
score_weights-AreWeighed P budget total allocated (item ∷ []) weights ps h =
    subst (λ ws. AreWeighed P ws × (length ws ≡ 1)) (ok_injective _ _ h)
      (((item, refl, ps.0), tt), refl)
score_weights-AreWeighed P budget total allocated (item ∷ other ∷ items) weights ps h =
    let (weight, _, h1) = >>=-eq-ok (div (mul budget item.score) total) _ h in
    let (rest, later, h2) =
      >>=-eq-ok (score_weights budget total (add allocated weight) (other ∷ items)) _ h1 in
    let (weighed, same) =
      score_weights-AreWeighed P budget total (add allocated weight) (other ∷ items) rest ps.1
        later in
    subst (λ ws. AreWeighed P ws × (length ws ≡ length (item ∷ other ∷ items)))
      (ok_injective _ _ h2) (((item, refl, ps.0), weighed), ap suc same)

module _ (P : SignalBreakdown → Type 0) where
  -- An allocation that gives a weight only to signals with `P`, and to at most so many
  abbrev pub IsWeighing : ℕ → TargetPortfolio → Type 0
  IsWeighing n t = IsAllocation t × AreWeighed P t.weights × (length t.weights ≤ n)

  pub technical_target-IsWeighing :
      (n : ℕ) (version : String) (context : StrategyContext) (weights : Dict Decimal)
      (cash_weight confidence : Decimal) (t : TargetPortfolio)
      → AreWeighed P weights
      → length weights ≤ n
      → technical_target version context weights cash_weight confidence ≡ ok t
      → IsWeighing n t
  unfolding technical_target
  technical_target-IsWeighing n version context weights cash_weight confidence t weighed few h =
      let fields = technical_fields version context weights cash_weight confidence in
      let (same, sound) = validate_target-IsAllocation fields t h in
      subst (IsWeighing n) same (sound, weighed, few)

  pub technical_cash-IsWeighing :
      (n : ℕ) (version : String) (context : StrategyContext) (confidence : Decimal)
      (t : TargetPortfolio)
      → technical_cash version context confidence ≡ ok t
      → IsWeighing n t
  unfolding technical_cash length
  technical_cash-IsWeighing n version context confidence t h =
      technical_target-IsWeighing n version context [] one confidence t tt (omega arith) h

  weigh_selected-IsWeighing :
      (n : ℕ) (context : StrategyContext) (budget : Decimal) (items : List SignalBreakdown)
      (t : TargetPortfolio)
      → All P items
      → length items ≤ n
      → weigh_selected context budget items ≡ ok t
      → IsWeighing n t
  unfolding weigh_selected
  weigh_selected-IsWeighing n context budget [] t ps few h =
      technical_cash-IsWeighing n "1.0.0" context (hundredths 50) t h
  weigh_selected-IsWeighing n context budget (item ∷ items) t ps few h =
      elim (Bool-cases (le (sum_from zero_dec (scores_of (item ∷ items))) zero_dec)) [
        | inl none_left ↦
            technical_cash-IsWeighing n "1.0.0" context (hundredths 50) t (rw none_left at h)
        | inr some_left ↦
            let (weights, weighed, h1) =
              >>=-eq-ok
                (score_weights budget (sum_from zero_dec (scores_of (item ∷ items))) zero_dec
                  (item ∷ items))
                _ (rw some_left at h) in
            let (average, _, h2) =
              >>=-eq-ok
                (div (sum_from zero_dec (scores_of (item ∷ items)))
                  (decimal_of (length (item ∷ items))))
                _ h1 in
            let (all, same) =
              score_weights-AreWeighed P budget _ zero_dec (item ∷ items) weights ps weighed in
            technical_target-IsWeighing n "1.0.0" context weights (sub one budget)
              (clamp average zero_dec one) t all (omega (arith, same, few)) h2
      ]

-- What the selection of the baseline asks of a signal
abbrev pub IsAdmissible : BaselineConfig → StrategyContext → SignalBreakdown → Type 0
IsAdmissible c context item = IsScored c context item × (le c.minimum_score item.score ≡ true)

baseline_target_in-IsWeighing :
    (c : BaselineConfig) (context : StrategyContext) (regime : RegimeState) (t : TargetPortfolio)
    → baseline_target_in c context regime ≡ ok t
    → IsWeighing (IsAdmissible c context) c.max_positions t
unfolding baseline_target_in
baseline_target_in-IsWeighing c context regime t h =
    elim (Bool-cases (eq (risk_budget c regime) zero_dec)) [
      | inl nothing ↦
          technical_cash-IsWeighing _ c.max_positions "1.0.0" context (hundredths 90) t
            (rw nothing at h)
      | inr budget ↦
          let (signals, scored, h1) = >>=-eq-ok (signals_of c context) _ (rw budget at h) in
          weigh_selected-IsWeighing (IsAdmissible c context) c.max_positions context
            (risk_budget c regime) _ t
            (take-All (IsAdmissible c context) c.max_positions _ (
              rank_signals-All (IsAdmissible c context) _ (
                keep_signals-All (IsScored c context) _ signals
                  (signals_of-All c context signals scored))))
            (length-take c.max_positions _) h1
    ]

baseline_target_in-shock :
    (c : BaselineConfig) (context : StrategyContext) (t : TargetPortfolio)
    → baseline_target_in c context shock ≡ ok t
    → t.weights ≡ []
unfolding baseline_target_in risk_budget eq technical_cash technical_target
baseline_target_in-shock c context t h =
    ap (λ (x : TargetPortfolio). x.weights)
      (sym
        (validate_target-IsAllocation (technical_fields "1.0.0" context [] one (hundredths 90)) t
          h).0)

-- A target of the baseline is an allocation of weights in [0, 1] that sum to 1. It has at most
-- `max_positions` weights, each for a symbol that is not the benchmark and whose score from its bars
-- reaches the minimum, and none where the regime is a shock.
pub baseline_target-IsWeighing :
    (c : BaselineConfig) (context : StrategyContext) (t : TargetPortfolio)
    → baseline_target c context ≡ ok t
    → IsWeighing (IsAdmissible c context) c.max_positions t
      × (detect_regime c context context.benchmark_symbol ≡ ok shock → t.weights ≡ [])
unfolding baseline_target
baseline_target-IsWeighing c context t h =
    let (regime, detected, h1) = >>=-eq-ok (detect_regime c context context.benchmark_symbol) _ h in
    (
      baseline_target_in-IsWeighing c context regime t h1,
      λ e. baseline_target_in-shock c context t (
          subst (λ r. baseline_target_in c context r ≡ ok t)
            (ok_injective regime shock (sym detected ∙ e)) h1),
    )

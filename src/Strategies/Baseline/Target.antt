-- ===== src/Strategies/Baseline/Target.antt =====
-- src/project_fifty/strategies/baseline.py: `generate_target`, and what the later versions of the
-- strategy share with it.
pub mod Selected
use project_fifty.Prelude.{
  ℕ, String, Bool, not, ◌||◌, Option, none, some, List, [], ◌∷◌, map, if◌then◌else◌,
}
use project_fifty.Prelude.Dict.{Dict, lookup_or}
use project_fifty.Prelude.Sort.{sort_by, str_le}
use project_fifty.Prelude.Seq.{length, take}
use project_fifty.Outcome.{Result, ok, ◌>>=◌}
use project_fifty.Decimal.{Decimal, le, eq, add, sub, mul, div, zero_dec, one}
use project_fifty.Strategies.Contracts.{StrategyContext, TargetPortfolio, validate_target, sum_from}
use project_fifty.Strategies.Rebalance.{keys}
use project_fifty.Strategies.Indicators.{decimal_of}
use project_fifty.Strategies.SingleMarket.{is_benchmark}
use project_fifty.Strategies.LowFrequency.{ranks_before}
use project_fifty.Strategies.Baseline.{BaselineConfig, risk_budget, hundredths, RegimeState}
use project_fifty.Strategies.Baseline.Indicators.{clamp}
use project_fifty.Strategies.Baseline.Signals.{SignalBreakdown, detect_regime, score_symbol}

-- The fields of every target of the strategy, in each of its versions
abbrev pub technical_fields :
    String → StrategyContext → Dict Decimal → Decimal → Decimal → TargetPortfolio
technical_fields version context weights cash_weight confidence = record {
  as_of = context.as_of;
  currency = context.currency;
  weights = weights;
  cash_weight = cash_weight;
  strategy_id = "regime-aware-technical-baseline";
  strategy_version = version;
  confidence = confidence;
  market_state_hash = context.market_state_hash;
}

-- `TargetPortfolio(...)`
unfoldable pub technical_target :
    String → StrategyContext → Dict Decimal → Decimal → Decimal → Result TargetPortfolio
unfolding validate_target
technical_target version context weights cash_weight confidence =
    validate_target (technical_fields version context weights cash_weight confidence)

-- `_cash_target`
unfoldable pub technical_cash : String → StrategyContext → Decimal → Result TargetPortfolio
unfolding technical_target
technical_cash version context confidence = technical_target version context [] one confidence

abbrev pub add_signal : Option SignalBreakdown → List SignalBreakdown → List SignalBreakdown
add_signal none signals = signals
add_signal (some signal) signals = signal ∷ signals

-- The signals of the symbols that are not the benchmark and have enough bars
unfoldable pub signals_from :
    BaselineConfig → StrategyContext → List String → Result (List SignalBreakdown)
unfolding score_symbol lookup_or
signals_from c context [] = ok []
signals_from c context (symbol ∷ symbols) =
    let rest = signals_from c context symbols in
    if is_benchmark symbol context.benchmark_symbol
    then rest
    else score_symbol c symbol (lookup_or [] symbol context.history) >>= λ signal.
        rest >>= λ signals. ok (add_signal signal signals)

-- `for symbol in sorted(context.reference_prices)`
unfoldable pub signals_of : BaselineConfig → StrategyContext → Result (List SignalBreakdown)
unfolding signals_from sort_by
signals_of c context = signals_from c context (sort_by str_le (keys context.reference_prices))

unfoldable pub keep_signals : (SignalBreakdown → Bool) → List SignalBreakdown → List SignalBreakdown
keep_signals test [] = []
keep_signals test (signal ∷ signals) =
    let rest = keep_signals test signals in if test signal then signal ∷ rest else rest

-- `sort(key=lambda item: (-item.score, item.symbol))`
unfoldable pub rank_signals : List SignalBreakdown → List SignalBreakdown
unfolding sort_by ranks_before
rank_signals signals = sort_by (λ a b. ranks_before (a.symbol, a.score) (b.symbol, b.score)) signals

abbrev pub scores_of : List SignalBreakdown → List Decimal
scores_of signals = map (λ (item : SignalBreakdown). item.score) signals

-- The loop over the selected signals: the last gets what is left of the budget.
unfoldable pub score_weights :
    Decimal → Decimal → Decimal → List SignalBreakdown → Result (Dict Decimal)
score_weights budget total allocated [] = ok []
score_weights budget total allocated (item ∷ []) = ok ((item.symbol, sub budget allocated) ∷ [])
score_weights budget total allocated (item ∷ other ∷ items) =
    div (mul budget item.score) total >>= λ weight.
    score_weights budget total (add allocated weight) (other ∷ items) >>= λ weights.
    ok ((item.symbol, weight) ∷ weights)

-- `generate_target`, from the selected signals
unfoldable pub weigh_selected :
    StrategyContext → Decimal → List SignalBreakdown → Result TargetPortfolio
unfolding technical_cash technical_target score_weights sum_from length clamp
weigh_selected context budget [] = technical_cash "1.0.0" context (hundredths 50)
weigh_selected context budget (item ∷ items) =
    let total = sum_from zero_dec (scores_of (item ∷ items)) in
    if le total zero_dec then technical_cash "1.0.0" context (hundredths 50) else do
      weights ← score_weights budget total zero_dec (item ∷ items)
      average ← div total (decimal_of (length (item ∷ items)))
      technical_target "1.0.0" context weights (sub one budget) (clamp average zero_dec one)

-- `generate_target`, from the regime
unfoldable pub baseline_target_in :
    BaselineConfig → StrategyContext → RegimeState → Result TargetPortfolio
unfolding risk_budget technical_cash signals_of keep_signals rank_signals take weigh_selected
baseline_target_in c context regime =
    let budget = risk_budget c regime in
    if eq budget zero_dec
    then technical_cash "1.0.0" context (hundredths 90)
    else signals_of c context >>= λ signals. weigh_selected context budget (
        take c.max_positions
          (rank_signals (keep_signals (λ item. le c.minimum_score item.score) signals)))

-- `generate_target`
unfoldable pub baseline_target : BaselineConfig → StrategyContext → Result TargetPortfolio
unfolding detect_regime baseline_target_in
baseline_target c context =
    detect_regime c context context.benchmark_symbol >>= baseline_target_in c context

-- ===== src/Strategies/Persistent.antt =====
-- src/project_fifty/strategies/persistent.py: incumbents stay, and a challenger needs an edge.
pub mod Few
pub mod Chosen
pub mod Kept
use project_fifty.Prelude.{
  ◌++◌, ℕ, suc, String, Bool, true, false, not, ◌&&◌, ◌||◌, str_eq, ltb, contains, List, [], ◌∷◌,
  map, if◌then◌else◌,
}
use project_fifty.Prelude.Dict.{Dict, has_key}
use project_fifty.Prelude.Sort.{str_le}
use project_fifty.Prelude.Int.{pos}
use project_fifty.Prelude.Seq.{length, take}
use project_fifty.Outcome.{Result, ok, value_error, raise_if, ◌>>=◌, ◌>>◌}
use project_fifty.Decimal.{Decimal, lt, le, eq, add, sub, div, max, min, zero_dec, one}
use project_fifty.Strategies.Contracts.{StrategyContext, TargetPortfolio, sum_from}
use project_fifty.Strategies.Indicators.{decimal_of}
use project_fifty.Strategies.SingleMarket.{is_benchmark}
use project_fifty.Strategies.Baseline.{
  BaselineConfig, risk_budget, hundredths, minus_one, RegimeState,
}
use project_fifty.Strategies.Baseline.Signals.{SignalBreakdown, detect_regime}
use project_fifty.Strategies.Baseline.Target.{
  technical_target, technical_cash, signals_of, keep_signals, rank_signals, scores_of,
}

pub record PersistentBaselineConfig : Type 0 where
  pub signal_config : BaselineConfig
  pub entry_score : Decimal
  pub retention_score : Decimal
  pub replacement_margin : Decimal

-- `PersistentBaselineConfig(...)`: the fields, if `__post_init__` passes them.
unfoldable pub validate_persistent : PersistentBaselineConfig → Result PersistentBaselineConfig
validate_persistent c = do
  raise_if (lt c.entry_score minus_one || lt one c.entry_score)
      (value_error "entry_score must be in [-1, 1]")
  raise_if (lt c.retention_score minus_one || lt one c.retention_score)
      (value_error "retention_score must be in [-1, 1]")
  raise_if (lt c.entry_score c.retention_score)
      (value_error "retention_score must not exceed entry_score")
  raise_if (lt c.replacement_margin zero_dec || lt (decimal_of 2) c.replacement_margin)
      (value_error "replacement_margin must be in [0, 2]")
  ok c

-- `incumbent_symbols`
unfoldable pub is_incumbent : StrategyContext → String → Bool
unfolding has_key
is_incumbent context symbol =
    has_key symbol context.portfolio.positions && not (is_benchmark symbol context.benchmark_symbol)

abbrev pub symbols_of : List SignalBreakdown → List String
symbols_of signals = map (λ (item : SignalBreakdown). item.symbol) signals

-- The key of an item is below that of the other: `(item.score, item.symbol)`.
unfoldable pub is_weaker : SignalBreakdown → SignalBreakdown → Bool
is_weaker a b = lt a.score b.score || (eq a.score b.score && not (str_le b.symbol a.symbol))

-- `min(selected, key=...)`
unfoldable pub weakest : SignalBreakdown → List SignalBreakdown → SignalBreakdown
unfolding is_weaker
weakest item [] = item
weakest item (other ∷ items) = weakest (if is_weaker other item then other else item) items

-- `selected.remove(item)`; the symbols of a selection differ.
unfoldable pub remove_signal : String → List SignalBreakdown → List SignalBreakdown
remove_signal symbol [] = []
remove_signal symbol (item ∷ items) =
    let rest = remove_signal symbol items in
    if str_eq item.symbol symbol then items else item ∷ rest

-- `while challengers and len(selected) < max_positions`
unfoldable pub fill_slots :
    ℕ → List SignalBreakdown → List SignalBreakdown → List SignalBreakdown × List SignalBreakdown
unfolding length
fill_slots slots selected [] = (selected, [])
fill_slots slots selected (candidate ∷ challengers) =
    let filled = fill_slots slots (selected ++ candidate ∷ []) challengers in
    if ltb (length selected) slots then filled else (selected, candidate ∷ challengers)

-- The body of the loop over the challengers that are left
unfoldable pub challenge : Decimal → SignalBreakdown → List SignalBreakdown → List SignalBreakdown
unfolding weakest remove_signal
challenge margin candidate [] = []
challenge margin candidate (item ∷ items) =
    let weak = weakest item items in
    if lt candidate.score (add weak.score margin)
    then item ∷ items
    else remove_signal weak.symbol (item ∷ items) ++ candidate ∷ []

unfoldable pub challenge_all :
    Decimal → List SignalBreakdown → List SignalBreakdown → List SignalBreakdown
unfolding challenge
challenge_all margin selected [] = selected
challenge_all margin selected (candidate ∷ challengers) =
    challenge_all margin (challenge margin candidate selected) challengers

-- `retained`
unfoldable pub retained_signals :
    PersistentBaselineConfig → StrategyContext → List SignalBreakdown → List SignalBreakdown
unfolding is_incumbent keep_signals rank_signals take
retained_signals c context signals = take c.signal_config.max_positions (
    rank_signals (
      keep_signals (λ item. is_incumbent context item.symbol && le c.retention_score item.score)
        signals))

-- The selection, from all signals
unfoldable pub select_persistent :
    PersistentBaselineConfig → StrategyContext → List SignalBreakdown → List SignalBreakdown
unfolding retained_signals keep_signals rank_signals contains fill_slots challenge_all
select_persistent c context signals =
    let retained = retained_signals c context signals in
    let challengers = rank_signals (
      keep_signals
        (λ item. not (contains item.symbol (symbols_of retained)) && le c.entry_score item.score)
        signals) in
    let (selected, left) = fill_slots c.signal_config.max_positions retained challengers in
    rank_signals (challenge_all c.replacement_margin selected left)

-- `generate_target`, from the selection: equal weights
unfoldable pub equal_weights :
    String → StrategyContext → Decimal → List SignalBreakdown → Result TargetPortfolio
unfolding technical_cash technical_target sum_from length min max
equal_weights version context budget [] = technical_cash version context (hundredths 50)
equal_weights version context budget (item ∷ items) = do
  weight ← div budget (decimal_of (length (item ∷ items)))
  average ← div (sum_from zero_dec (scores_of (item ∷ items))) (decimal_of (length (item ∷ items)))
  technical_target version context
      (map (λ (chosen : SignalBreakdown). (chosen.symbol, weight)) (item ∷ items)) (sub one budget)
      (min (max average zero_dec) one)

-- `generate_target`, from the regime
unfoldable pub persistent_target_in :
    PersistentBaselineConfig → StrategyContext → RegimeState → Result TargetPortfolio
unfolding risk_budget technical_cash signals_of select_persistent equal_weights
persistent_target_in c context regime =
    let budget = risk_budget c.signal_config regime in
    if eq budget zero_dec
    then technical_cash "2.0.0" context (hundredths 90)
    else signals_of c.signal_config context >>= λ signals.
        equal_weights "2.0.0" context budget (select_persistent c context signals)

-- `generate_target`
unfoldable pub persistent_target :
    PersistentBaselineConfig → StrategyContext → Result TargetPortfolio
unfolding detect_regime persistent_target_in
persistent_target c context =
    detect_regime c.signal_config context context.benchmark_symbol
    >>= persistent_target_in c context

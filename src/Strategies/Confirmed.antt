-- ===== src/Strategies/Confirmed.antt =====
-- src/project_fifty/strategies/confirmed.py: entries, exits and replacements that the last bars
-- confirm, with no counter beside the history.
pub mod Windows
pub mod Members
pub mod Chosen
use project_fifty.Prelude.{
  ℕ, suc, ◌-◌, String, Bool, true, false, not, ◌&&◌, ◌||◌, ◌==◌, str_eq, ltb, contains, Option,
  none, some, List, [], ◌∷◌, ◌++◌, if◌then◌else◌,
}
use project_fifty.Prelude.Dict.{Dict, lookup_or}
use project_fifty.Prelude.Sort.{sort_by, str_le}
use project_fifty.Prelude.Seq.{length, take}
use project_fifty.Outcome.{Result, ok, value_error, raise_if, ◌>>=◌, ◌>>◌}
use project_fifty.Decimal.{Decimal, lt, le, eq, add, zero_dec, one}
use project_fifty.Strategies.Contracts.{MarketBar, StrategyContext, TargetPortfolio}
use project_fifty.Strategies.Rebalance.{keys}
use project_fifty.Strategies.Indicators.{decimal_of, bar_from_end}
use project_fifty.Strategies.Baseline.{
  BaselineConfig, risk_budget, hundredths, minus_one, RegimeState,
}
use project_fifty.Strategies.Baseline.Signals.{SignalBreakdown, detect_regime, score_symbol}
use project_fifty.Strategies.Baseline.Target.{technical_cash, signals_of, rank_signals}
use project_fifty.Strategies.Persistent.{
  is_incumbent, symbols_of, weakest, remove_signal, fill_slots, equal_weights,
}

pub record ConfirmedPersistentConfig : Type 0 where
  pub signal_config : BaselineConfig
  pub entry_score : Decimal
  pub retention_score : Decimal
  pub replacement_margin : Decimal
  pub entry_confirmation_bars : ℕ
  pub exit_confirmation_bars : ℕ
  pub replacement_confirmation_bars : ℕ

-- `ConfirmedPersistentConfig(...)`: the fields, if `__post_init__` passes them.
unfoldable pub validate_confirmed : ConfirmedPersistentConfig → Result ConfirmedPersistentConfig
validate_confirmed c = do
  raise_if (lt c.entry_score minus_one || lt one c.entry_score)
      (value_error "entry_score must be in [-1, 1]")
  raise_if (lt c.retention_score minus_one || lt one c.retention_score)
      (value_error "retention_score must be in [-1, 1]")
  raise_if (lt c.entry_score c.retention_score)
      (value_error "retention_score must not exceed entry_score")
  raise_if (lt c.replacement_margin zero_dec || lt (decimal_of 2) c.replacement_margin)
      (value_error "replacement_margin must be in [0, 2]")
  raise_if
      (c.entry_confirmation_bars == 0
        || c.exit_confirmation_bars == 0
        || c.replacement_confirmation_bars == 0)
      (value_error "confirmation bars must be positive")
  ok c

abbrev pub Series : Type 0
Series = List (ℕ × Decimal)

abbrev add_point : ℕ → Decimal → Option Series → Option Series
add_point time score none = none
add_point time score (some series) = some ((time, score) ∷ series)

-- The loop of `_recent_score_series`, with the end of the next window and the windows left
unfoldable pub series_from :
    BaselineConfig → String → List MarketBar → ℕ → ℕ → Result (Option Series)
unfolding score_symbol take bar_from_end
series_from c symbol bars end ℕ.zero = ok (some [])
series_from c symbol bars end (suc left) = score_symbol c symbol (take end bars) >>= λ found.
    elim found [
      | none ↦ ok none
      | some signal ↦ bar_from_end 1 (take end bars) >>= λ last.
          series_from c symbol bars (suc end) left >>= λ rest.
          ok (add_point last.timestamp signal.score rest)
    ]

-- `_recent_score_series`
unfoldable pub recent_score_series :
    BaselineConfig → String → List MarketBar → ℕ → Result (Option Series)
unfolding length series_from
recent_score_series c symbol bars count =
    if ltb (length bars) count
    then ok none
    else series_from c symbol bars (suc (length bars) - count) count

-- `comparison`
pub data Comparison : Type 0 where
  below at_least : Comparison

abbrev meets : Comparison → Decimal → Decimal → Bool
meets below threshold score = lt score threshold
meets at_least threshold score = le threshold score

abbrev all_meet : Comparison → Decimal → Series → Bool
all_meet comparison threshold [] = true
all_meet comparison threshold ((_, score) ∷ series) =
    meets comparison threshold score && all_meet comparison threshold series

abbrev is_met : Comparison → Decimal → Option Series → Bool
is_met comparison threshold none = false
is_met comparison threshold (some series) = all_meet comparison threshold series

-- `_threshold_confirmed`
unfoldable pub threshold_confirmed :
    BaselineConfig → String → List MarketBar → ℕ → Decimal → Comparison → Result Bool
unfolding recent_score_series
threshold_confirmed c symbol bars count threshold comparison =
    recent_score_series c symbol bars count >>= λ series. ok (is_met comparison threshold series)

-- The same times, and the challenger ahead by the margin at each
abbrev is_ahead : Decimal → Series → Series → Bool
is_ahead margin [] [] = true
is_ahead margin ((time, score) ∷ series) ((time', score') ∷ series') =
    time == time' && le (add score' margin) score && is_ahead margin series series'
is_ahead margin _ _ = false

abbrev is_replaced : Decimal → Option Series → Option Series → Bool
is_replaced margin (some series) (some series') = is_ahead margin series series'
is_replaced margin _ _ = false

-- `_replacement_confirmed`
unfoldable pub replacement_confirmed :
    ConfirmedPersistentConfig → StrategyContext → String → String → Result Bool
unfolding recent_score_series lookup_or
replacement_confirmed c context challenger incumbent = do
  series ←
      recent_score_series c.signal_config challenger (lookup_or [] challenger context.history)
        c.replacement_confirmation_bars
  series' ←
      recent_score_series c.signal_config incumbent (lookup_or [] incumbent context.history)
        c.replacement_confirmation_bars
  ok (is_replaced c.replacement_margin series series')

-- `_placeholder_signal`
abbrev pub placeholder_signal : String → Decimal → SignalBreakdown
placeholder_signal symbol score = record {
  symbol = symbol;
  score = score;
  trend = zero_dec;
  short_momentum = zero_dec;
  medium_momentum = zero_dec;
  mean_reversion = zero_dec;
  breakout = zero_dec;
  volume_confirmation = zero_dec;
  volatility_penalty = zero_dec;
}

-- `signals.get(symbol)`
unfoldable pub find_signal : String → List SignalBreakdown → Option SignalBreakdown
find_signal symbol [] = none
find_signal symbol (item ∷ items) =
    let rest = find_signal symbol items in if str_eq item.symbol symbol then some item else rest

module _ (c : ConfirmedPersistentConfig) (context : StrategyContext) where
  -- `_threshold_confirmed` for an exit, and for an entry
  unfoldable pub exit_confirmed : String → Result Bool
  unfolding threshold_confirmed lookup_or
  exit_confirmed symbol =
      threshold_confirmed c.signal_config symbol (lookup_or [] symbol context.history)
        c.exit_confirmation_bars c.retention_score below

  unfoldable pub entry_confirmed : String → Result Bool
  unfolding threshold_confirmed lookup_or
  entry_confirmed symbol =
      threshold_confirmed c.signal_config symbol (lookup_or [] symbol context.history)
        c.entry_confirmation_bars c.entry_score at_least

  -- The body of the loop over the incumbents: the signal that stays, if any
  unfoldable pub keep_incumbent : String → Option SignalBreakdown → Result (Option SignalBreakdown)
  unfolding exit_confirmed
  keep_incumbent symbol none = ok (some (placeholder_signal symbol c.retention_score))
  keep_incumbent symbol (some signal) =
      if le c.retention_score signal.score
      then ok (some signal)
      else exit_confirmed symbol >>= λ confirmed. ok (if confirmed then none else some signal)

  abbrev pub add_kept : Option SignalBreakdown → List SignalBreakdown → List SignalBreakdown
  add_kept none items = items
  add_kept (some item) items = item ∷ items

  unfoldable pub keep_incumbents :
      List SignalBreakdown → List String → Result (List SignalBreakdown)
  unfolding keep_incumbent find_signal
  keep_incumbents signals [] = ok []
  keep_incumbents signals (symbol ∷ symbols) =
      let rest = keep_incumbents signals symbols in
      if is_incumbent context symbol
      then (keep_incumbent symbol (find_signal symbol signals) >>= λ kept.
          rest >>= λ items. ok (add_kept kept items))
      else rest

  -- The loop that collects the challengers
  unfoldable pub confirmed_challengers :
      List SignalBreakdown → List SignalBreakdown → Result (List SignalBreakdown)
  unfolding entry_confirmed is_incumbent contains
  confirmed_challengers selected [] = ok []
  confirmed_challengers selected (signal ∷ signals) =
      let rest = confirmed_challengers selected signals in
      if (is_incumbent context signal.symbol || contains signal.symbol (symbols_of selected))
        || lt signal.score c.entry_score
      then rest
      else entry_confirmed signal.symbol >>= λ confirmed.
          rest >>= λ items. ok (if confirmed then signal ∷ items else items)

  -- The body of the loop over the challengers that are left
  unfoldable pub confirmed_challenge :
      SignalBreakdown → List SignalBreakdown → Result (List SignalBreakdown)
  unfolding replacement_confirmed weakest remove_signal
  confirmed_challenge candidate [] = ok []
  confirmed_challenge candidate (item ∷ items) =
      let weak = weakest item items in
      replacement_confirmed c context candidate.symbol weak.symbol >>= λ confirmed. ok (
        if confirmed
        then remove_signal weak.symbol (item ∷ items) ++ candidate ∷ []
        else item ∷ items)

  unfoldable pub confirmed_challenge_all :
      List SignalBreakdown → List SignalBreakdown → Result (List SignalBreakdown)
  unfolding confirmed_challenge
  confirmed_challenge_all selected [] = ok selected
  confirmed_challenge_all selected (candidate ∷ challengers) =
      confirmed_challenge candidate selected >>= λ next. confirmed_challenge_all next challengers

  -- The selection, from all signals
  unfoldable pub select_confirmed : List SignalBreakdown → Result (List SignalBreakdown)
  unfolding keep_incumbents confirmed_challengers confirmed_challenge_all rank_signals take
      fill_slots sort_by
  select_confirmed signals = do
    kept ← keep_incumbents signals (sort_by str_le (keys context.portfolio.positions))
    let selected = take c.signal_config.max_positions (rank_signals kept)
    challengers ← confirmed_challengers selected signals
    let filled = fill_slots c.signal_config.max_positions selected (rank_signals challengers)
    chosen ← confirmed_challenge_all filled.0 filled.1
    ok (rank_signals chosen)

  -- `generate_target`, from the regime; a version of its own is that of a subclass.
  unfoldable pub confirmed_target_in : String → RegimeState → Result TargetPortfolio
  unfolding risk_budget technical_cash signals_of select_confirmed equal_weights
  confirmed_target_in version regime =
      let budget = risk_budget c.signal_config regime in
      if eq budget zero_dec
      then technical_cash version context (hundredths 90)
      else signals_of c.signal_config context >>= λ signals.
          select_confirmed signals >>= λ selected. equal_weights version context budget selected

  -- `generate_target`
  unfoldable pub confirmed_target : Result TargetPortfolio
  unfolding detect_regime confirmed_target_in
  confirmed_target =
      detect_regime c.signal_config context context.benchmark_symbol >>= confirmed_target_in "3.0.0"

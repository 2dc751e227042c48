-- ===== src/Strategies/LowFrequency.antt =====
-- src/project_fifty/strategies/low_frequency.py: one symbol by momentum, held until another is better
-- by a margin. What the code notes as evidence is left out.
pub mod Candidates
pub mod Held
pub mod Sound
use Prim.Native.String.{◌++◌ as str_append}
use project_fifty.Prelude.{
  ℕ, suc, ◌%◌, String, Bool, true, false, not, ◌&&◌, ◌||◌, str_eq, ltb, ◌==◌, Option, none, some,
  List, [], ◌∷◌, map, if◌then◌else◌,
}
use project_fifty.Prelude.Dict.{Dict, lookup, lookup_or, values}
use project_fifty.Prelude.Sort.{sort_by, str_le}
use project_fifty.Prelude.Seq.{length}
use project_fifty.Outcome.{Result, ok, err, value_error, raise_if, or_raise, ◌>>=◌, ◌>>◌}
use project_fifty.Decimal.{Decimal, lt, le, eq, add, sub, mul, div, neg, zero_dec, one}
use project_fifty.Domain.{Position, PortfolioState}
use project_fifty.Strategies.Contracts.{
  MarketBar, StrategyContext, TargetPortfolio, validate_target, sum_from, is_empty,
}
use project_fifty.Strategies.Rebalance.{keys}
use project_fifty.Strategies.Indicators.{bar_from_end, sma, momentum, half}

pub record LowFrequencyMomentumConfig : Type 0 where
  pub rebalance_every_bars : ℕ
  pub benchmark_sma_days : ℕ
  pub candidate_sma_days : ℕ
  pub momentum_days : ℕ
  pub target_risk_weight : Decimal
  pub replacement_margin : Decimal

-- `LowFrequencyMomentumConfig(...)`: the fields, if `__post_init__` passes them.
unfoldable pub validate_momentum_config :
    LowFrequencyMomentumConfig → Result LowFrequencyMomentumConfig
validate_momentum_config c = do
  raise_if
      (c.rebalance_every_bars == 0
        || c.benchmark_sma_days == 0
        || c.candidate_sma_days == 0
        || c.momentum_days == 0)
      (value_error "M8 lookbacks and cadence must be positive")
  raise_if (not (lt zero_dec c.target_risk_weight && lt c.target_risk_weight one))
      (value_error "target_risk_weight must be finite and in (0, 1)")
  raise_if (not (le zero_dec c.replacement_margin && le c.replacement_margin one))
      (value_error "replacement_margin must be finite and in [0, 1]")
  ok c

-- The fields of every target of the strategy
abbrev pub momentum_fields : StrategyContext → Dict Decimal → Decimal → TargetPortfolio
momentum_fields context weights cash_weight = record {
  as_of = context.as_of;
  currency = context.currency;
  weights = weights;
  cash_weight = cash_weight;
  strategy_id = "low-frequency-momentum-baseline";
  strategy_version = "5.0.0";
  confidence = half;
  market_state_hash = context.market_state_hash;
}

-- `TargetPortfolio(...)`
unfoldable pub new_target : StrategyContext → Dict Decimal → Decimal → Result TargetPortfolio
unfolding validate_target
new_target context weights cash_weight =
    validate_target (momentum_fields context weights cash_weight)

-- `_cash`
unfoldable pub cash_target : StrategyContext → Result TargetPortfolio
unfolding new_target
cash_target context = new_target context [] one

-- `_single_position`
unfoldable pub single_position :
    LowFrequencyMomentumConfig → StrategyContext → String → Result TargetPortfolio
unfolding new_target
single_position config context symbol =
    new_target context ((symbol, config.target_risk_weight) ∷ [])
      (sub one config.target_risk_weight)

-- The weight of a position at its reference price
unfoldable pub position_weight : StrategyContext → String → Position → Result Decimal
unfolding lookup
position_weight context symbol position = do
  price ←
      or_raise (lookup symbol context.reference_prices)
        (value_error (str_append "missing reference price for current position " symbol))
  weight ← div (mul position.quantity price) context.portfolio.nav
  raise_if (lt weight zero_dec || lt one weight)
      (value_error "current position weight escaped [0, 1]")
  ok weight

unfoldable pub position_weights : StrategyContext → Dict Position → Result (Dict Decimal)
unfolding position_weight
position_weights context [] = ok []
position_weights context ((symbol, position) ∷ positions) =
    let rest = position_weights context positions in
    do weight ← position_weight context symbol position; ws ← rest; ok ((symbol, weight) ∷ ws)

-- `sorted(positions.items())`, whose keys differ
abbrev pub sorted_positions : Dict Position → Dict Position
sorted_positions positions = sort_by (λ a b. str_le a.0 b.0) positions

-- `_preserve`
unfoldable pub preserve_weights : StrategyContext → Result TargetPortfolio
unfolding cash_target position_weights new_target sum_from values sort_by
preserve_weights context =
    if le context.portfolio.nav zero_dec || is_empty context.portfolio.positions
    then cash_target context
    else position_weights context (sorted_positions context.portfolio.positions) >>= λ weights.
        let invested = sum_from zero_dec (values weights) in
        raise_if (lt one invested) (value_error "current invested weight exceeds 100%")
        >> new_target context weights (sub one invested)

-- The momentum of a candidate that is eligible, for its bars
unfoldable pub candidate_momentum :
    LowFrequencyMomentumConfig → List MarketBar → Result (Option Decimal)
unfolding bar_from_end sma momentum
candidate_momentum config bars = do
  growth ← momentum config.momentum_days bars
  average ← sma bars config.candidate_sma_days
  latest ← bar_from_end 1 bars
  ok (if lt average latest.close && lt zero_dec growth then some growth else none)

-- `max(days, momentum_days + 1)`
abbrev pub required_history : ℕ → LowFrequencyMomentumConfig → ℕ
required_history days config =
    if ltb days (suc config.momentum_days) then suc config.momentum_days else days

-- The body of the loop over the candidates
unfoldable pub rate_candidate :
    LowFrequencyMomentumConfig → StrategyContext → String → Result (Option Decimal)
unfolding candidate_momentum lookup_or length
rate_candidate config context symbol =
    let bars = lookup_or [] symbol context.history in
    if ltb (length bars) (required_history config.candidate_sma_days config)
    then ok none
    else candidate_momentum config bars

abbrev pub add_rated : String → Option Decimal → Dict Decimal → Dict Decimal
add_rated symbol none rated = rated
add_rated symbol (some growth) rated = (symbol, growth) ∷ rated

-- The loop that fills `eligible`
unfoldable pub eligible_from :
    LowFrequencyMomentumConfig → StrategyContext → String → List String → Result (Dict Decimal)
unfolding rate_candidate
eligible_from config context benchmark [] = ok []
eligible_from config context benchmark (symbol ∷ symbols) =
    let rest = eligible_from config context benchmark symbols in
    if str_eq symbol benchmark
    then rest
    else rate_candidate config context symbol >>= λ rating.
        rest >>= λ rated. ok (add_rated symbol rating rated)

-- `(-item[1], item[0])` of one item is not above that of the other.
unfoldable pub ranks_before : String × Decimal → String × Decimal → Bool
ranks_before a b = lt (neg a.1) (neg b.1) || (eq (neg a.1) (neg b.1) && str_le a.0 b.0)

unfoldable pub without : String → List String → List String
without symbol [] = []
without symbol (k ∷ ks) = let rest = without symbol ks in if str_eq k symbol then rest else k ∷ rest

-- Hold the incumbent or replace it by the challenger
unfoldable pub replace_or_hold :
    LowFrequencyMomentumConfig
    → StrategyContext
    → Dict Decimal
    → String × Decimal
    → List String
    → Result TargetPortfolio
unfolding single_position preserve_weights lookup
replace_or_hold config context eligible challenger [] = single_position config context challenger.0
replace_or_hold config context eligible challenger (incumbent ∷ _) =
    elim (lookup incumbent eligible) [
      | none ↦ single_position config context challenger.0
      | some growth ↦
          if str_eq challenger.0 incumbent
          then preserve_weights context
          else if le (add growth config.replacement_margin) challenger.1
          then single_position config context challenger.0
          else preserve_weights context
    ]

-- The choice among the ranked candidates
unfoldable pub choose_candidate :
    LowFrequencyMomentumConfig
    → StrategyContext
    → String
    → Dict Decimal
    → Dict Decimal
    → Result TargetPortfolio
unfolding replace_or_hold cash_target without sort_by
choose_candidate config context benchmark eligible [] = cash_target context
choose_candidate config context benchmark eligible (challenger ∷ _) =
    replace_or_hold config context eligible challenger
      (sort_by str_le (without benchmark (keys context.portfolio.positions)))

-- `benchmark_close <= benchmark_sma or benchmark_momentum <= _ZERO`
unfoldable pub gate_is_off : LowFrequencyMomentumConfig → List MarketBar → Result Bool
unfolding bar_from_end sma momentum
gate_is_off config bars = do
  growth ← momentum config.momentum_days bars
  average ← sma bars config.benchmark_sma_days
  latest ← bar_from_end 1 bars
  ok (le latest.close average || le growth zero_dec)

-- `generate_target` on a scheduled bar
unfoldable pub select_target :
    LowFrequencyMomentumConfig → StrategyContext → String → Bool → Result TargetPortfolio
unfolding eligible_from choose_candidate cash_target sort_by ranks_before
select_target config context benchmark true = cash_target context
select_target config context benchmark false = do
  eligible ← eligible_from config context benchmark (sort_by str_le (keys context.reference_prices))
  choose_candidate config context benchmark eligible (sort_by ranks_before eligible)

-- `generate_target`, from the benchmark's bars
unfoldable pub momentum_target :
    LowFrequencyMomentumConfig → StrategyContext → String → List MarketBar → Result TargetPortfolio
unfolding preserve_weights gate_is_off select_target length
momentum_target config context benchmark bars =
    if ltb (length bars) (required_history config.benchmark_sma_days config)
    then preserve_weights context
    else if not (length bars % config.rebalance_every_bars == 0)
    then preserve_weights context
    else gate_is_off config bars >>= select_target config context benchmark

-- `generate_target`, from the benchmark's symbol
unfoldable pub low_frequency_target :
    LowFrequencyMomentumConfig → StrategyContext → Option String → Result TargetPortfolio
unfolding preserve_weights momentum_target lookup_or
low_frequency_target config context none = preserve_weights context
low_frequency_target config context (some benchmark) =
    momentum_target config context benchmark (lookup_or [] benchmark context.history)

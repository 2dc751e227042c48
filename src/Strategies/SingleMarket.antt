-- ===== src/Strategies/SingleMarket.antt =====
-- src/project_fifty/strategies/single_market.py: SPY or cash, by trend and momentum. What the code
-- notes as evidence is left out.
pub mod Sound
use project_fifty.Prelude.{
  ℕ, suc, ◌%◌, String, Bool, true, false, not, ◌&&◌, ◌||◌, str_eq, ltb, leb, ◌==◌, Option, none,
  some, List, [], ◌∷◌, if◌then◌else◌,
}
use project_fifty.Prelude.Dict.{Dict, lookup, lookup_or, has_key}
use project_fifty.Prelude.Ascii.{codes, codes_eq, strip_upper}
use project_fifty.Prelude.Seq.{length}
use project_fifty.Outcome.{Result, ok, err, value_error, raise_if, or_raise, ◌>>=◌, ◌>>◌}
use project_fifty.Decimal.{Decimal, lt, le, sub, mul, div, zero_dec, one}
use project_fifty.Domain.{Position, PortfolioState}
use project_fifty.Strategies.Contracts.{
  MarketBar, StrategyContext, TargetPortfolio, validate_target,
}
use project_fifty.Strategies.Indicators.{bar_from_end, sma, momentum, half}

pub record SingleMarketTrendConfig : Type 0 where
  pub symbol : String
  pub rebalance_every_bars : ℕ
  pub trend_sma_days : ℕ
  pub momentum_days : ℕ

abbrev pub default_config : SingleMarketTrendConfig
default_config = record {
  symbol = "SPY";
  rebalance_every_bars = 21;
  trend_sma_days = 200;
  momentum_days = 126;
}

-- `SingleMarketTrendConfig(...)`: the fields, if `__post_init__` passes them.
unfoldable pub validate_trend : SingleMarketTrendConfig → Result SingleMarketTrendConfig
unfolding strip_upper
validate_trend c = do
  raise_if (not (codes_eq (strip_upper c.symbol) (codes "SPY")))
      (value_error "M9 is frozen to SPY only")
  raise_if ((c.rebalance_every_bars == 0 || c.trend_sma_days == 0) || c.momentum_days == 0)
      (value_error "M9 cadence and lookbacks must be positive")
  ok c

-- A position in another symbol
abbrev pub has_other : String → Dict Position → Bool
has_other symbol [] = false
has_other symbol ((k, _) ∷ positions) = not (str_eq k symbol) || has_other symbol positions

-- `context.benchmark_symbol != symbol`
abbrev pub is_benchmark : String → Option String → Bool
is_benchmark symbol none = false
is_benchmark symbol (some benchmark) = str_eq benchmark symbol

-- `_validated_inputs`, without the symbol that it hands back
unfoldable pub validated_inputs :
    SingleMarketTrendConfig → StrategyContext → Result (List MarketBar)
unfolding lookup_or
validated_inputs config context = do
  raise_if (not (is_benchmark config.symbol context.benchmark_symbol))
      (value_error "M9 requires SPY as the benchmark and sole risk instrument")
  raise_if (has_other config.symbol context.portfolio.positions)
      (value_error "M9 encountered a non-SPY position")
  ok (lookup_or [] config.symbol context.history)

-- The fields of every target of the strategy
abbrev pub target_fields : StrategyContext → Dict Decimal → Decimal → TargetPortfolio
target_fields context weights cash_weight = record {
  as_of = context.as_of;
  currency = context.currency;
  weights = weights;
  cash_weight = cash_weight;
  strategy_id = "single-market-trend-baseline";
  strategy_version = "6.0.0";
  confidence = half;
  market_state_hash = context.market_state_hash;
}

-- `TargetPortfolio(...)`
unfoldable pub allocate : StrategyContext → Dict Decimal → Decimal → Result TargetPortfolio
unfolding validate_target
allocate context weights cash_weight = validate_target (target_fields context weights cash_weight)

-- `_cash`
unfoldable pub all_cash : StrategyContext → Result TargetPortfolio
unfolding allocate
all_cash context = allocate context [] one

-- The weight of the position at its reference price
unfoldable pub marked_weight : SingleMarketTrendConfig → StrategyContext → Position → Result Decimal
unfolding lookup
marked_weight config context position = do
  price ←
      or_raise (lookup config.symbol context.reference_prices)
        (value_error "missing SPY reference price for current position")
  weight ← div (mul position.quantity price) context.portfolio.nav
  raise_if (lt weight zero_dec || lt one weight) (value_error "current SPY weight escaped [0, 1]")
  ok weight

-- `_preserve`, from what `positions.get` gives
unfoldable pub preserve_position :
    SingleMarketTrendConfig → StrategyContext → Option Position → Result TargetPortfolio
unfolding all_cash marked_weight allocate
preserve_position config context none = all_cash context
preserve_position config context (some position) =
    if le context.portfolio.nav zero_dec
    then all_cash context
    else marked_weight config context position >>= λ weight.
        allocate context ((config.symbol, weight) ∷ []) (sub one weight)

-- `_preserve`
unfoldable pub preserve : SingleMarketTrendConfig → StrategyContext → Result TargetPortfolio
unfolding preserve_position lookup
preserve config context =
    preserve_position config context (lookup config.symbol context.portfolio.positions)

-- `close > sma and momentum > _ZERO`, for the bars of the symbol
unfoldable pub is_risk_on : SingleMarketTrendConfig → List MarketBar → Result Bool
unfolding bar_from_end sma momentum
is_risk_on config bars = do
  latest ← bar_from_end 1 bars
  average ← sma bars config.trend_sma_days
  growth ← momentum config.momentum_days bars
  ok (lt average latest.close && lt zero_dec growth)

-- What `_evaluate_regime` makes of the regime
unfoldable pub follow_regime :
    SingleMarketTrendConfig → StrategyContext → Bool → Result TargetPortfolio
unfolding preserve allocate all_cash has_key
follow_regime config context false = all_cash context
follow_regime config context true =
    if has_key config.symbol context.portfolio.positions
    then preserve config context
    else allocate context ((config.symbol, one) ∷ []) zero_dec

-- `_evaluate_regime`; `bootstrap` changes only the evidence.
unfoldable pub evaluate_regime :
    SingleMarketTrendConfig → StrategyContext → List MarketBar → Result TargetPortfolio
unfolding is_risk_on follow_regime
evaluate_regime config context bars = is_risk_on config bars >>= follow_regime config context

-- `max(trend_sma_days, momentum_days + 1)`
unfoldable pub minimum_history : SingleMarketTrendConfig → ℕ
minimum_history config =
    if ltb config.trend_sma_days (suc config.momentum_days)
    then suc config.momentum_days
    else config.trend_sma_days

-- A bar on which the strategy decides
abbrev pub is_scheduled : SingleMarketTrendConfig → List MarketBar → Bool
is_scheduled config bars = length bars % config.rebalance_every_bars == 0

-- `generate_target`, once the inputs are valid
unfoldable pub target_for :
    SingleMarketTrendConfig → StrategyContext → List MarketBar → Result TargetPortfolio
unfolding minimum_history preserve evaluate_regime length
target_for config context bars =
    if ltb (length bars) (minimum_history config)
    then preserve config context
    else if is_scheduled config bars
    then evaluate_regime config context bars
    else preserve config context

-- `generate_target`
unfoldable pub generate_target : SingleMarketTrendConfig → StrategyContext → Result TargetPortfolio
unfolding validated_inputs target_for
generate_target config context = validated_inputs config context >>= target_for config context

-- `generate_inception_target`, once the inputs are valid
unfoldable pub inception_target_for :
    SingleMarketTrendConfig → StrategyContext → List MarketBar → Result TargetPortfolio
unfolding minimum_history preserve evaluate_regime length
inception_target_for config context bars =
    if ltb (length bars) (minimum_history config)
    then preserve config context
    else evaluate_regime config context bars

-- `generate_inception_target`
unfoldable pub generate_inception_target :
    SingleMarketTrendConfig → StrategyContext → Result TargetPortfolio
unfolding validated_inputs inception_target_for
generate_inception_target config context =
    validated_inputs config context >>= inception_target_for config context

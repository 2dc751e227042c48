-- ===== src/Strategies/Baseline/Signals.antt =====
-- src/project_fifty/strategies/baseline.py: the regime and the score of a symbol.
use project_fifty.Prelude.{
  ℕ, suc, String, ◌&&◌, ◌||◌, ltb, Option, none, some, List, [], if◌then◌else◌,
}
use project_fifty.Prelude.Int.{pos}
use project_fifty.Prelude.Dict.{lookup_or}
use project_fifty.Prelude.Seq.{length, last_n}
use project_fifty.Outcome.{Result, ok, ◌>>=◌}
use project_fifty.Decimal.{Decimal, lt, le, add, sub, mul, div, zero_dec, one}
use project_fifty.Strategies.Contracts.{MarketBar, StrategyContext}
use project_fifty.Strategies.Indicators.{decimal_of}
use project_fifty.Strategies.Baseline.{
  RegimeState, risk_on, neutral, risk_off, shock, BaselineConfig, hundredths, thousandths,
  minus_hundredths, minus_one,
}
use project_fifty.Strategies.Baseline.Indicators.{
  closes_of, value_from_end, ema, roc, rsi, atr, largest, range_position, volume_ratio, sign, clamp,
}

pub record SignalBreakdown : Type 0 where
  pub symbol : String
  pub score : Decimal
  pub trend : Decimal
  pub short_momentum : Decimal
  pub medium_momentum : Decimal
  pub mean_reversion : Decimal
  pub breakout : Decimal
  pub volume_confirmation : Decimal
  pub volatility_penalty : Decimal

-- What the regime is read from
pub record RegimeReading : Type 0 where
  pub current : Decimal
  pub fast : Decimal
  pub slow : Decimal
  pub drawdown : Decimal
  pub one_bar_return : Decimal
  pub atr_ratio : Decimal

unfoldable pub read_regime : BaselineConfig → List MarketBar → Result RegimeReading
unfolding value_from_end ema largest atr last_n
read_regime c bars = do
  let closes = closes_of bars
  current ← value_from_end 1 closes
  previous ← value_from_end 2 closes
  fast ← ema closes c.regime_fast_period
  slow ← ema closes c.regime_slow_period
  peak ← largest (last_n c.regime_slow_period closes)
  depth ← div current peak
  growth ← div current previous
  range ← atr bars c.atr_period
  ratio ← div range current
  ok (record {
    current = current;
    fast = fast;
    slow = slow;
    drawdown = sub depth one;
    one_bar_return = sub growth one;
    atr_ratio = ratio;
  })

-- The tests of `_detect_regime`, in their order
unfoldable pub classify : RegimeReading → RegimeState
classify r =
    if le r.one_bar_return (minus_hundredths 4)
      || le r.drawdown (minus_hundredths 12)
      || le (hundredths 5) r.atr_ratio
    then shock
    else if le r.drawdown (minus_hundredths 8)
        || (lt r.current r.slow && le r.drawdown (minus_hundredths 5))
    then risk_off
    else if (lt r.fast r.current && lt r.slow r.fast)
        && (lt (minus_hundredths 5) r.drawdown && lt r.atr_ratio (thousandths 35))
    then risk_on
    else neutral

-- `_detect_regime`, from the benchmark's bars
unfoldable pub regime_of_bars : BaselineConfig → List MarketBar → Result RegimeState
unfolding length read_regime classify
regime_of_bars c bars =
    if ltb (length bars) (suc c.regime_slow_period)
    then ok neutral
    else read_regime c bars >>= λ r. ok (classify r)

-- `_detect_regime`, from the benchmark's symbol
unfoldable pub detect_regime : BaselineConfig → StrategyContext → Option String → Result RegimeState
unfolding regime_of_bars lookup_or
detect_regime c context none = ok neutral
detect_regime c context (some benchmark) = regime_of_bars c (lookup_or [] benchmark context.history)

abbrev max_ℕ : ℕ → ℕ → ℕ
max_ℕ a b = if ltb a b then b else a

-- `required` of `_score_symbol`
unfoldable pub required_bars : BaselineConfig → ℕ
required_bars c = max_ℕ c.slow_ema_period (
    max_ℕ (suc c.medium_momentum_lookback) (
      max_ℕ (suc c.rsi_period)
        (max_ℕ (suc c.atr_period) (max_ℕ c.breakout_period (suc c.volume_lookback)))))

-- `_clamp(value)`
abbrev clamp_one : Decimal → Decimal
clamp_one value = clamp value minus_one one

-- The weighted sum of `_score_symbol`
unfoldable pub weigh : Decimal → Decimal → Decimal → Decimal → Decimal → Decimal → Decimal → Decimal
weigh trend short medium reversion breakout volume penalty =
    sub
      (add
        (add
          (add
            (add (add (mul (hundredths 28) trend) (mul (hundredths 18) short))
              (mul (hundredths 22) medium))
            (mul (hundredths 10) reversion))
          (mul (hundredths 12) breakout))
        (mul (hundredths 10) volume))
      (mul (hundredths 12) penalty)

-- What the components of a score are made of, before they are clamped
pub record Measures : Type 0 where
  pub trend : Decimal
  pub short_momentum : Decimal
  pub medium_momentum : Decimal
  pub mean_reversion : Decimal
  pub range_place : Decimal
  pub volume : Decimal
  pub volatility : Decimal

unfoldable pub measure_bars : BaselineConfig → List MarketBar → Result Measures
unfolding value_from_end ema roc rsi range_position volume_ratio atr
measure_bars c bars = do
  let closes = closes_of bars
  fast ← ema closes c.fast_ema_period
  slow ← ema closes c.slow_ema_period
  cross ← div fast slow
  trend ← div (sub cross one) (hundredths 2)
  short ← roc closes c.short_momentum_lookback
  short_scaled ← div short (hundredths 3)
  medium ← roc closes c.medium_momentum_lookback
  medium_scaled ← div medium (hundredths 8)
  index ← rsi closes c.rsi_period
  reversion ← div (sub (decimal_of 50) index) (decimal_of 30)
  place ← range_position bars c.breakout_period
  volume ← volume_ratio bars c.volume_lookback
  range ← atr bars c.atr_period
  current ← value_from_end 1 closes
  atr_ratio ← div range current
  volatility ← div (sub atr_ratio (thousandths 15)) (hundredths 4)
  ok (record {
    trend = trend;
    short_momentum = short_scaled;
    medium_momentum = medium_scaled;
    mean_reversion = reversion;
    range_place = place;
    volume = volume;
    volatility = volatility;
  })

-- The components of `_score_symbol` and their weighted sum
unfoldable pub breakdown_of : String → Measures → SignalBreakdown
unfolding sign clamp weigh
breakdown_of symbol m =
    let trend = clamp_one m.trend in
    let short = clamp_one m.short_momentum in
    let medium = clamp_one m.medium_momentum in
    let reversion = clamp_one m.mean_reversion in
    let breakout =
      clamp_one (mul (sub m.range_place (record { coef = pos 5; scale = 1 })) (decimal_of 2)) in
    let confirmation = clamp_one (mul (sub m.volume one) (sign medium)) in
    let penalty = clamp m.volatility zero_dec one in
    record {
      symbol = symbol;
      score = clamp_one (weigh trend short medium reversion breakout confirmation penalty);
      trend = trend;
      short_momentum = short;
      medium_momentum = medium;
      mean_reversion = reversion;
      breakout = breakout;
      volume_confirmation = confirmation;
      volatility_penalty = penalty;
    }

-- `_score_symbol`
unfoldable pub score_symbol :
    BaselineConfig → String → List MarketBar → Result (Option SignalBreakdown)
unfolding length required_bars measure_bars breakdown_of
score_symbol c symbol bars =
    if ltb (length bars) (required_bars c)
    then ok none
    else measure_bars c bars >>= λ m. ok (some (breakdown_of symbol m))

-- ===== src/Strategies/Baseline/Indicators.antt =====
-- src/project_fifty/strategies/baseline.py: the indicators.
use project_fifty.Prelude.{ℕ, suc, ltb, leb, List, [], ◌∷◌, map, if◌then◌else◌}
use project_fifty.Prelude.Int.{pos}
use project_fifty.Prelude.Seq.{length, last_n, from_end, take, drop}
use project_fifty.Outcome.{
  Result, ok, err, value_error, index_error, or_raise, raise_if, ◌>>=◌, ◌>>◌,
}
use project_fifty.Decimal.{
  Decimal, lt, le, eq, add, sub, mul, div, max, min, neg, abs, zero_dec, one,
}
use project_fifty.Strategies.Contracts.{MarketBar, sum_from}
use project_fifty.Strategies.Indicators.{decimal_of, bar_from_end}
use project_fifty.Strategies.Baseline.{minus_one}

abbrev pub closes_of : List MarketBar → List Decimal
closes_of bars = map (λ (b : MarketBar). b.close) bars

-- `values[-n]`
unfoldable pub value_from_end : ℕ → List Decimal → Result Decimal
unfolding from_end
value_from_end n values = or_raise (from_end n values) (index_error "list index out of range")

-- `sum(values) / Decimal(n)`
unfoldable pub mean_of : List Decimal → ℕ → Result Decimal
unfolding sum_from
mean_of values n = div (sum_from zero_dec values) (decimal_of n)

-- The loop of `_ema`
unfoldable pub ema_from : Decimal → Decimal → List Decimal → Decimal
ema_from alpha value [] = value
ema_from alpha value (observation ∷ values) =
    ema_from alpha (add (mul observation alpha) (mul value (sub one alpha))) values

-- `_ema`
unfoldable pub ema : List Decimal → ℕ → Result Decimal
unfolding length take drop mean_of ema_from
ema values period = do
  raise_if (ltb (length values) period) (value_error "insufficient values for EMA")
  alpha ← div (decimal_of 2) (decimal_of (suc period))
  seed ← mean_of (take period values) period
  ok (ema_from alpha seed (drop period values))

-- `_roc`
unfoldable pub roc : List Decimal → ℕ → Result Decimal
unfolding length value_from_end
roc values lookback = do
  raise_if (leb (length values) lookback) (value_error "insufficient values for ROC")
  previous ← value_from_end (suc lookback) values
  raise_if (le previous zero_dec) (value_error "ROC reference value must be positive")
  current ← value_from_end 1 values
  ratio ← div current previous
  ok (sub ratio one)

-- Each value less the one before it
unfoldable pub changes_of : List Decimal → List Decimal
changes_of [] = []
changes_of (a ∷ []) = []
changes_of (a ∷ b ∷ values) = sub b a ∷ changes_of (b ∷ values)

-- `_rsi`, from the mean gain and the mean loss
unfoldable pub strength : Decimal → Decimal → Result Decimal
strength gains losses =
    if eq losses zero_dec
    then ok (if lt zero_dec gains then decimal_of 100 else decimal_of 50)
    else if eq gains zero_dec
    then ok zero_dec
    else do
      relative ← div gains losses
      part ← div (decimal_of 100) (add one relative)
      ok (sub (decimal_of 100) part)

-- `_rsi`
unfoldable pub rsi : List Decimal → ℕ → Result Decimal
unfolding length last_n changes_of mean_of strength
rsi values period = do
  raise_if (leb (length values) period) (value_error "insufficient values for RSI")
  let changes = changes_of (last_n (suc period) values)
  gains ← mean_of (map (λ change. max change zero_dec) changes) period
  losses ← mean_of (map (λ change. max (neg change) zero_dec) changes) period
  strength gains losses

-- Each bar's true range, with the close before it
unfoldable pub true_ranges : List MarketBar → List Decimal
true_ranges [] = []
true_ranges (previous ∷ []) = []
true_ranges (previous ∷ bar ∷ bars) =
    max (max (sub bar.high bar.low) (abs (sub bar.high previous.close)))
      (abs (sub bar.low previous.close))
    ∷ true_ranges (bar ∷ bars)

-- `_atr`
unfoldable pub atr : List MarketBar → ℕ → Result Decimal
unfolding length last_n true_ranges mean_of
atr bars period = do
  raise_if (leb (length bars) period) (value_error "insufficient bars for ATR")
  mean_of (true_ranges (last_n (suc period) bars)) period

-- `max(values)` and `min(values)`
abbrev fold_with : (Decimal → Decimal → Decimal) → Decimal → List Decimal → Decimal
fold_with f best [] = best
fold_with f best (value ∷ values) = fold_with f (f best value) values

unfoldable pub largest : List Decimal → Result Decimal
largest [] = err (value_error "max() arg is an empty sequence")
largest (value ∷ values) = ok (fold_with max value values)

unfoldable pub smallest : List Decimal → Result Decimal
smallest [] = err (value_error "min() arg is an empty sequence")
smallest (value ∷ values) = ok (fold_with min value values)

-- `_range_position`
unfoldable pub range_position : List MarketBar → ℕ → Result Decimal
unfolding length last_n largest smallest bar_from_end
range_position bars lookback = do
  raise_if (ltb (length bars) lookback) (value_error "insufficient bars for range position")
  let recent = last_n lookback bars
  high ← largest (map (λ (b : MarketBar). b.high) recent)
  low ← smallest (map (λ (b : MarketBar). b.low) recent)
  last ← bar_from_end 1 recent
  if eq high low
      then ok (record { coef = pos 5; scale = 1 })
      else div (sub last.close low) (sub high low)

-- `_volume_ratio`
unfoldable pub volume_ratio : List MarketBar → ℕ → Result Decimal
unfolding length last_n take mean_of bar_from_end
volume_ratio bars lookback = do
  raise_if (leb (length bars) lookback) (value_error "insufficient bars for volume ratio")
  let prior = take lookback (last_n (suc lookback) bars)
  average ← mean_of (map (λ (b : MarketBar). b.volume) prior) lookback
  last ← bar_from_end 1 bars
  if eq average zero_dec then ok one else div last.volume average

-- `_sign`
unfoldable pub sign : Decimal → Decimal
sign value = if lt zero_dec value then one else if lt value zero_dec then minus_one else zero_dec

-- `_clamp`
unfoldable pub clamp : Decimal → Decimal → Decimal → Decimal
unfolding min max
clamp value lower upper = min (max value lower) upper

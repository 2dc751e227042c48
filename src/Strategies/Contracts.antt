-- ===== src/Strategies/Contracts.antt =====
-- src/project_fifty/strategies/contracts.py: what a strategy reads and returns, with the validators
-- that pydantic runs. The text of an error is that of the first check that fails.
pub mod Sound
pub mod Allocation
use project_fifty.Prelude.{
  ℕ, String, Bool, true, false, not, ◌||◌, ◌&&◌, str_eq, ltb, leb, Option, none, some, List, [],
  ◌∷◌, map,
}
use project_fifty.Prelude.Dict.{Dict, has_key, values}
use project_fifty.Outcome.{Result, ok, err, value_error, raise_if, ◌>>=◌, ◌>>◌}
use project_fifty.Decimal.{Decimal, lt, le, eq, add, max, min, zero_dec, one}
use project_fifty.Domain.{PortfolioState}

pub record MarketBar : Type 0 where
  pub timestamp : ℕ
  pub open_price : Decimal
  pub high : Decimal
  pub low : Decimal
  pub close : Decimal
  pub volume : Decimal

unfoldable pub validate_price : Decimal → Result (Unit {0})
validate_price value =
    raise_if (le value zero_dec) (value_error "OHLC prices must be finite and positive")

-- `MarketBar(...)`: the fields, if the validators pass them.
unfoldable pub validate_bar : MarketBar → Result MarketBar
unfolding validate_price
validate_bar b = do
  validate_price b.open_price
  validate_price b.high
  validate_price b.low
  validate_price b.close
  raise_if (lt b.volume zero_dec) (value_error "volume must be finite and non-negative")
  raise_if (lt b.high (max (max b.open_price b.close) b.low))
      (value_error "high must be greater than or equal to open/close/low")
  raise_if (lt (min (min b.open_price b.close) b.high) b.low)
      (value_error "low must be less than or equal to open/close/high")
  ok b

pub record StrategyContext : Type 0 where
  pub as_of : ℕ
  pub currency : String
  pub portfolio : PortfolioState
  pub reference_prices : Dict Decimal
  pub reference_price_timestamps : Dict ℕ
  pub market_state_hash : String
  pub history : Dict (List MarketBar)
  pub benchmark_symbol : Option String

unfoldable pub validate_reference_prices : Dict Decimal → Result (Unit {0})
validate_reference_prices [] = ok tt
validate_reference_prices ((symbol, price) ∷ prices) =
    let rest = validate_reference_prices prices in
    do
      raise_if (str_eq symbol "") (value_error "reference price symbol must not be empty")
      raise_if (le price zero_dec) (value_error "reference prices must be finite and positive")
      rest

abbrev pub is_empty {ℓ} : {A : Type ℓ} → List A → Bool
is_empty [] = true
is_empty (_ ∷ _) = false

-- Every key of one dict is a key of the other.
unfoldable pub covers {ℓ κ} : {V : Type ℓ} {W : Type κ} → Dict V → Dict W → Bool
unfolding has_key
covers [] other = true
covers ((k, _) ∷ d) other = has_key k other && covers d other

unfoldable pub validate_timestamps : ℕ → List ℕ → Result (Unit {0})
validate_timestamps as_of [] = ok tt
validate_timestamps as_of (timestamp ∷ timestamps) =
    let rest = validate_timestamps as_of timestamps in
    do
      raise_if (ltb as_of timestamp)
          (value_error "reference price timestamp cannot be in the future")
      rest

-- The new bar is not later than the bar before it.
abbrev pub is_late : Option ℕ → ℕ → Bool
is_late none timestamp = false
is_late (some previous) timestamp = leb timestamp previous

unfoldable pub validate_bars : ℕ → Option ℕ → List MarketBar → Result (Unit {0})
validate_bars as_of previous [] = ok tt
validate_bars as_of previous (bar ∷ bars) =
    let rest = validate_bars as_of (some bar.timestamp) bars in
    do
      raise_if (ltb as_of bar.timestamp) (value_error "future bar detected")
      raise_if (is_late previous bar.timestamp) (value_error "history must be strictly increasing")
      rest

unfoldable pub validate_history : ℕ → Dict (List MarketBar) → Result (Unit {0})
unfolding validate_bars
validate_history as_of [] = ok tt
validate_history as_of ((symbol, bars) ∷ history) =
    let rest = validate_history as_of history in do validate_bars as_of none bars; rest

abbrev pub lacks_benchmark : Option String → Dict (List MarketBar) → Bool
lacks_benchmark none history = false
lacks_benchmark (some symbol) history = not (has_key symbol history)

-- `StrategyContext(...)`
unfoldable pub validate_context : StrategyContext → Result StrategyContext
unfolding validate_reference_prices covers validate_timestamps validate_history has_key values
validate_context c = do
  raise_if (is_empty c.reference_prices) (value_error "reference_prices must not be empty")
  validate_reference_prices c.reference_prices
  raise_if (not (str_eq c.currency c.portfolio.currency))
      (value_error "strategy context currency must match portfolio currency")
  raise_if
      (not (
        covers c.reference_prices c.reference_price_timestamps
        && covers c.reference_price_timestamps c.reference_prices))
      (value_error "every reference price must have exactly one timestamp")
  validate_timestamps c.as_of (values c.reference_price_timestamps)
  validate_history c.as_of c.history
  raise_if (lacks_benchmark c.benchmark_symbol c.history)
      (value_error "benchmark_symbol must exist in history")
  ok c

pub record TargetPortfolio : Type 0 where
  pub as_of : ℕ
  pub currency : String
  pub weights : Dict Decimal
  pub cash_weight : Decimal
  pub strategy_id : String
  pub strategy_version : String
  pub confidence : Decimal
  pub market_state_hash : String

-- `value < 0 or value > 1`
unfoldable pub is_outside_unit : Decimal → Bool
is_outside_unit value = lt value zero_dec || lt one value

unfoldable pub validate_weights : Dict Decimal → Result (Unit {0})
unfolding is_outside_unit
validate_weights [] = ok tt
validate_weights ((symbol, weight) ∷ weights) =
    let rest = validate_weights weights in
    do
      raise_if (str_eq symbol "") (value_error "target symbol must not be empty")
      raise_if (is_outside_unit weight)
          (value_error "target weights must be finite and between 0 and 1")
      rest

unfoldable pub sum_from : Decimal → List Decimal → Decimal
sum_from total [] = total
sum_from total (d ∷ ds) = sum_from (add total d) ds

-- `TargetPortfolio(...)`
unfoldable pub validate_target : TargetPortfolio → Result TargetPortfolio
unfolding is_outside_unit validate_weights sum_from values
validate_target t = do
  validate_weights t.weights
  raise_if (is_outside_unit t.cash_weight) (value_error "value must be finite and between 0 and 1")
  raise_if (is_outside_unit t.confidence) (value_error "value must be finite and between 0 and 1")
  raise_if (not (eq (add (sum_from zero_dec (values t.weights)) t.cash_weight) one))
      (value_error "target symbol weights plus cash_weight must equal exactly 1")
  raise_if
      (str_eq t.strategy_id "" || str_eq t.strategy_version "" || str_eq t.market_state_hash "")
      (value_error "strategy identity and market_state_hash are required")
  ok t

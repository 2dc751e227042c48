-- ===== src/Strategies/Indicators.antt =====
-- The indicators that src/project_fifty/strategies/single_market.py and low_frequency.py share, and
-- the target portfolios that both build.
use project_fifty.Prelude.{ℕ, suc, List, map}
use project_fifty.Prelude.Int.{pos}
use project_fifty.Prelude.Seq.{last_n, from_end}
use project_fifty.Outcome.{Result, ok, index_error, or_raise, ◌>>=◌}
use project_fifty.Decimal.{Decimal, sub, div, zero_dec, one}
use project_fifty.Strategies.Contracts.{MarketBar, sum_from}

-- `Decimal(n)`
abbrev pub decimal_of : ℕ → Decimal
decimal_of n = record { coef = pos n; scale = 0 }

-- `bars[-n]`
unfoldable pub bar_from_end : ℕ → List MarketBar → Result MarketBar
unfolding from_end
bar_from_end n bars = or_raise (from_end n bars) (index_error "tuple index out of range")

-- `_sma`
unfoldable pub sma : List MarketBar → ℕ → Result Decimal
unfolding last_n sum_from
sma bars days =
    div (sum_from zero_dec (map (λ (b : MarketBar). b.close) (last_n days bars))) (decimal_of days)

-- `_momentum`
unfoldable pub momentum : ℕ → List MarketBar → Result Decimal
unfolding bar_from_end
momentum days bars = do
  current ← bar_from_end 1 bars
  previous ← bar_from_end (suc days) bars
  ratio ← div current.close previous.close
  ok (sub ratio one)

-- `Decimal("0.50")`
abbrev pub half : Decimal
half = record { coef = pos 50; scale = 2 }

-- ===== src/Tests/Backtests.antt =====
-- Examples for the backtest, with the single-market strategy.
use project_fifty.Backtest.Engine.Ahead.{run_backtest-IsPrefix}
use mathlib.Core.List.{IsPrefix}
use project_fifty.Backtest.History.{History, history_until, bars_at}
use project_fifty.Backtest.Engine.Blind.{opens, IsSameTrade, step-IsSameTrade}
use project_fifty.Backtest.Engine.{
  BacktestResult, run_backtest, BacktestEngine, Books, opening_books, step, decide_at,
}
use project_fifty.Backtest.WalkForward.Windows.{
  IsWindow, evaluate_windows-some, evaluate_windows-IsWindow,
}
use project_fifty.Backtest.Engine.Outcomes.{IsPoint, run_backtest-IsPoint}
use project_fifty.Backtest.WalkForward.{
  evaluate_window, WalkForwardConfig, WalkForwardWindow, evaluate_windows,
}
use project_fifty.Prelude.{ℕ, ◌≡◌, ◌+◌, ◌-◌, refl, false, arith, Option, none, some, List, [], ◌∷◌}
use project_fifty.Prelude.Dict.{lookup_or}
use project_fifty.Prelude.Sort.{All}
use project_fifty.Outcome.{Result, ok, err, ◌>>=◌}
use project_fifty.Decimal.{lt, le, eq, add, sub, mul, div, min, max, zero_dec}
use project_fifty.Tests.Data.{units}
use project_fifty.Strategies.SingleMarket.{SingleMarketTrendConfig, generate_target}
use project_fifty.Strategies.Contracts.{MarketBar, StrategyContext, TargetPortfolio}

abbrev bar : ℕ → ℕ → MarketBar
bar time price = record {
  timestamp = time;
  open_price = units price;
  high = units (price + 1);
  low = units (price - 1);
  close = units price;
  volume = units 1;
}

-- A market that rises and then falls
abbrev history : History
history = ("SPY", bar 10 10 ∷ bar 20 11 ∷ bar 30 12 ∷ bar 40 16 ∷ bar 50 8 ∷ []) ∷ []

abbrev trend : SingleMarketTrendConfig
trend = record { symbol = "SPY"; rebalance_every_bars = 3; trend_sma_days = 2; momentum_days = 1 }

abbrev answer : Unit {0} → StrategyContext → Result (TargetPortfolio × Unit {0})
answer memory context = generate_target trend context >>= λ target. ok (target, memory)

abbrev engine : BacktestEngine (Unit {0})
engine = record {
  strategy = answer;
  state_hash = λ history. "state";
  config = record {
    starting_cash = units 100;
    currency = "USD";
    warmup_bars = 2;
    fee_rate = zero_dec;
    slippage_rate = zero_dec;
  };
  rebalance_policy = none;
}

abbrev value_or {ℓ} : {A : Type ℓ} → A → Result A → A
value_or a (ok b) = b
value_or a (err e) = a

abbrev no_result : BacktestResult
no_result = record {
  starting_nav = zero_dec;
  ending_nav = zero_dec;
  total_return = zero_dec;
  max_drawdown = zero_dec;
  total_costs = zero_dec;
  trade_count = 0;
  points = [];
  total_turnover = zero_dec;
  average_cash_weight = zero_dec;
}

abbrev result : BacktestResult
result = value_or no_result (run_backtest engine tt history "SPY" none)

runs : run_backtest engine tt history "SPY" none ≡ ok result
unfolding run_backtest generate_target lt le div eq add sub mul min max
runs = refl

-- One purchase, at the open after the scheduled bar
trades : result.trade_count ≡ 1
unfolding run_backtest generate_target lt le div eq add sub mul min max
trades = refl

run_backtest-IsPoint_example :
    All (IsPoint none (λ _. Unit {0})) result.points × (lt zero_dec result.max_drawdown ≡ false)
run_backtest-IsPoint_example = run_backtest-IsPoint engine tt history "SPY" none result runs

abbrev early : BacktestResult
early = value_or no_result (run_backtest engine tt (history_until 40 history) "SPY" none)

runs_early : run_backtest engine tt (history_until 40 history) "SPY" none ≡ ok early
unfolding run_backtest generate_target lt le div eq add sub mul min max history_until
runs_early = refl

run_backtest-IsPrefix_example : IsPrefix early.points result.points
run_backtest-IsPrefix_example =
    run_backtest-IsPrefix engine tt history "SPY" none 40 early result runs_early runs

abbrev walk : WalkForwardConfig
walk = record { train_bars = 1; test_bars = 2; step_bars = 1 }

evaluate_windows-some_example :
    (r : Result (List WalkForwardWindow)) × (evaluate_windows engine tt walk history "SPY" ≡ some r)
evaluate_windows-some_example = evaluate_windows-some engine tt walk history "SPY" (omega arith)

abbrev windows_of : Option (Result (List WalkForwardWindow)) → List WalkForwardWindow
windows_of (some (ok ws)) = ws
windows_of _ = []

abbrev windows : List WalkForwardWindow
windows = windows_of (evaluate_windows engine tt walk history "SPY")

evaluates : evaluate_windows engine tt walk history "SPY" ≡ some (ok windows)
unfolding evaluate_windows generate_target lt le div eq add sub mul min max
evaluates = refl

evaluate_windows-IsWindow_example : All IsWindow windows
evaluate_windows-IsWindow_example =
    evaluate_windows-IsWindow engine tt walk history "SPY" windows evaluates

abbrev window : WalkForwardWindow
window =
    value_or (record { test_start = 0; test_end = 0; outcome = no_result })
      (evaluate_window engine tt walk history "SPY" (lookup_or [] "SPY" history) 1)

evaluates_window :
    evaluate_window engine tt walk history "SPY" (lookup_or [] "SPY" history) 1 ≡ ok window
unfolding evaluate_window generate_target lt le div eq add sub mul min max lookup_or
evaluates_window = refl

-- A market whose third bar opens the same and then falls
abbrev bar_down : MarketBar
bar_down = record (bar 30 12) { low = units 5; close = units 6 }

abbrev history_down : History
history_down = ("SPY", bar 10 10 ∷ bar 20 11 ∷ bar_down ∷ []) ∷ []

abbrev opening : Books (Unit {0})
opening = opening_books engine.config tt

abbrev stepped_on : History → Books (Unit {0})
stepped_on market = value_or opening (step engine market "SPY" none 20 30 opening)

steps_up : step engine history "SPY" none 20 30 opening ≡ ok (stepped_on history)
unfolding step decide_at generate_target lt le div eq add sub mul min max
steps_up = refl

steps_down : step engine history_down "SPY" none 20 30 opening ≡ ok (stepped_on history_down)
unfolding step decide_at generate_target lt le div eq add sub mul min max
steps_down = refl

seen_both : history_until 20 history ≡ history_until 20 history_down
unfolding history_until
seen_both = refl

opens_both : opens (bars_at 30 history) ≡ opens (bars_at 30 history_down)
unfolding bars_at
opens_both = refl

step-IsSameTrade_example : IsSameTrade engine (stepped_on history) (stepped_on history_down)
step-IsSameTrade_example =
    step-IsSameTrade engine "SPY" none 20 30 history history_down opening (stepped_on history)
      (stepped_on history_down) seen_both opens_both steps_up steps_down

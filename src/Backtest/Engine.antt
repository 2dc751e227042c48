-- ===== src/Backtest/Engine.antt =====
-- src/project_fifty/backtest/engine.py, `BacktestEngine`. The strategy and what it keeps from one
-- decision to the next are parameters, and so is the hash over the market state.
pub mod Outcomes
pub mod Keep
pub mod Truncate
pub mod Ahead
pub mod Blind
use project_fifty.Backtest.History.{
  latest_bars, check_history, History, dict_map, history_until, bars_at,
}
use project_fifty.Prelude.{
  ℕ, suc, ◌+◌, ◌-◌, String, Bool, true, false, not, ltb, leb, ◌==◌, str_eq, ◌||◌, Option, none,
  some, List, [], ◌∷◌, ◌++◌, map, if◌then◌else◌,
}
use project_fifty.Prelude.Dict.{Dict, lookup, lookup_or, has_key}
use project_fifty.Prelude.Seq.{length, from_end}
use project_fifty.Outcome.{Result, ok, err, value_error, raise_if, ◌>>=◌, ◌>>◌}
use project_fifty.Decimal.{Decimal, lt, add, sub, div, max, min, zero_dec, one}
use project_fifty.Domain.{Position, PortfolioState}
use project_fifty.Strategies.Contracts.{
  MarketBar, StrategyContext, TargetPortfolio, validate_context, is_empty, is_late,
}
use project_fifty.Strategies.Rebalance.{EconomicRebalanceConfig, RebalancePlan, plan}
use project_fifty.Strategies.Indicators.{decimal_of}
use project_fifty.Backtest.Rebalance.{BacktestConfig, Trades, portfolio_state, rebalance}

pub record BacktestPoint : Type 0 where
  pub decision_time : ℕ
  pub execution_time : ℕ
  pub nav : Decimal
  pub cash : Decimal
  pub turnover : Decimal
  pub costs : Decimal
  pub positions : Dict Decimal

pub record BacktestResult : Type 0 where
  pub starting_nav : Decimal
  pub ending_nav : Decimal
  pub total_return : Decimal
  pub max_drawdown : Decimal
  pub total_costs : Decimal
  pub trade_count : ℕ
  pub points : List BacktestPoint
  pub total_turnover : Decimal
  pub average_cash_weight : Decimal

-- `M` is the memory of the strategy.
pub record BacktestEngine (M : Type 0) : Type 0 where
  pub strategy : M → StrategyContext → Result (TargetPortfolio × M)
  pub state_hash : Dict (List MarketBar) → String
  pub config : BacktestConfig
  pub rebalance_policy : Option EconomicRebalanceConfig

-- The variables of the loop
pub record Books (M : Type 0) : Type 0 where
  pub memory : M
  pub cash : Decimal
  pub positions : Dict Position
  pub points : List BacktestPoint
  pub total_costs : Decimal
  pub total_turnover : Decimal
  pub cash_weight_sum : Decimal
  pub trade_count : ℕ
  pub peak_nav : Decimal
  pub max_drawdown : Decimal

unfoldable pub plan_option :
    Option EconomicRebalanceConfig
    → TargetPortfolio
    → StrategyContext
    → Result (Option RebalancePlan)
unfolding plan
plan_option none target context = ok none
plan_option (some policy) target context = plan policy target context >>= λ p. ok (some p)

-- The deepest drawdown with a new net asset value
unfoldable pub deepen : Decimal → Decimal → Decimal → Result Decimal
unfolding lt min
deepen max_drawdown peak_nav nav =
    if lt zero_dec peak_nav
    then (div nav peak_nav >>= λ ratio. ok (min max_drawdown (sub ratio one)))
    else ok max_drawdown

unfoldable pub add_cash_weight : Decimal → PortfolioState → Result Decimal
add_cash_weight total state =
    if lt zero_dec state.nav
    then (div state.cash state.nav >>= λ weight. ok (add total weight))
    else ok total

abbrev pub new_point : ℕ → ℕ → Trades → PortfolioState → BacktestPoint
new_point decision_time execution_time t state = record {
  decision_time = decision_time;
  execution_time = execution_time;
  nav = state.nav;
  cash = state.cash;
  turnover = t.turnover;
  costs = t.costs;
  positions = dict_map (λ (p : Position). p.quantity) state.positions;
}

abbrev pub is_before : ℕ → Option ℕ → Bool
is_before time none = false
is_before time (some start) = ltb time start

abbrev pub nav_of : Decimal → Option BacktestPoint → Decimal
nav_of nav none = nav
nav_of nav (some point) = point.nav

unfoldable pub average : Decimal → List BacktestPoint → Result Decimal
unfolding length
average total [] = ok one
average total (point ∷ points) = div total (decimal_of (length (point ∷ points)))

module _ {M : Type 0} where
  -- What the strategy is shown at a time
  unfoldable pub decision_context :
      BacktestEngine M → History → Option String → ℕ → PortfolioState → Result StrategyContext
  unfolding latest_bars validate_context
  decision_context engine seen benchmark time marked =
      let latest = latest_bars seen in
      validate_context (record {
        as_of = time;
        currency = engine.config.currency;
        portfolio = marked;
        reference_prices = dict_map (λ (b : MarketBar). b.close) latest;
        reference_price_timestamps = dict_map (λ (b : MarketBar). b.timestamp) latest;
        market_state_hash = engine.state_hash seen;
        history = seen;
        benchmark_symbol = benchmark;
      })

  -- The body of the loop from the rebalance on
  unfoldable pub settle :
      BacktestEngine M
      → ℕ
      → ℕ
      → Dict MarketBar
      → TargetPortfolio
      → Option RebalancePlan
      → Books M
      → Result (Books M)
  unfolding portfolio_state rebalance deepen add_cash_weight max
  settle engine decision_time execution_time bars target plan b = do
    let open_prices = dict_map (λ (bar : MarketBar). bar.open_price) bars
    before ← portfolio_state engine.config b.cash b.positions open_prices
    t ← rebalance engine.config b.cash b.positions before.nav target.weights open_prices plan
    after ←
        portfolio_state engine.config t.cash t.positions
          (dict_map (λ (bar : MarketBar). bar.close) bars)
    let peak = max b.peak_nav after.nav
    drawdown ← deepen b.max_drawdown peak after.nav
    cash_weights ← add_cash_weight b.cash_weight_sum after
    ok (record {
      memory = b.memory;
      cash = t.cash;
      positions = t.positions;
      points = b.points ++ new_point decision_time execution_time t after ∷ [];
      total_costs = add b.total_costs t.costs;
      total_turnover = add b.total_turnover t.turnover;
      cash_weight_sum = cash_weights;
      trade_count = b.trade_count + t.count;
      peak_nav = peak;
      max_drawdown = drawdown;
    })

  -- The body of the loop from the execution bars on
  unfoldable pub execute :
      BacktestEngine M
      → String
      → ℕ
      → ℕ
      → Dict MarketBar
      → TargetPortfolio
      → Option RebalancePlan
      → Books M
      → Result (Books M)
  unfolding settle has_key
  execute engine benchmark decision_time execution_time bars target plan b =
      if has_key benchmark bars
      then settle engine decision_time execution_time bars target plan b
      else ok b

  -- The body of the loop from the decision on
  unfoldable pub decide_at :
      BacktestEngine M → History → String → ℕ → ℕ → Books M → Result (Books M)
  unfolding portfolio_state decision_context plan_option execute latest_bars history_until bars_at
  decide_at engine history benchmark decision_time execution_time b = do
    let seen = history_until decision_time history
    marked ←
        portfolio_state engine.config b.cash b.positions
          (dict_map (λ (bar : MarketBar). bar.close) (latest_bars seen))
    context ← decision_context engine seen (some benchmark) decision_time marked
    answer ← engine.strategy b.memory context
    rebalance_plan ← plan_option engine.rebalance_policy answer.0 context
    execute engine benchmark decision_time execution_time (bars_at execution_time history) answer.0
        rebalance_plan (record b { memory = answer.1 })

  -- The body of the loop
  unfoldable pub step :
      BacktestEngine M → History → String → Option ℕ → ℕ → ℕ → Books M → Result (Books M)
  unfolding decide_at latest_bars history_until has_key
  step engine history benchmark start decision_time execution_time b =
      if is_before decision_time start
        || not (has_key benchmark (latest_bars (history_until decision_time history)))
      then ok b
      else decide_at engine history benchmark decision_time execution_time b

  -- The loop: `time` is that of the bar before the given ones.
  unfoldable pub steps :
      BacktestEngine M
      → History
      → String
      → Option ℕ
      → ℕ
      → List MarketBar
      → Books M
      → Result (Books M)
  unfolding step
  steps engine history benchmark start time [] b = ok b
  steps engine history benchmark start time (bar ∷ bars) b =
      step engine history benchmark start time bar.timestamp b
      >>= steps engine history benchmark start bar.timestamp bars

  -- The bars from an index on
  unfoldable pub steps_from :
      BacktestEngine M
      → History
      → String
      → Option ℕ
      → ℕ
      → List MarketBar
      → Books M
      → Result (Books M)
  unfolding steps
  steps_from engine history benchmark start index [] b = ok b
  steps_from engine history benchmark start ℕ.zero (bar ∷ bars) b =
      steps engine history benchmark start bar.timestamp bars b
  steps_from engine history benchmark start (suc index) (bar ∷ bars) b =
      steps_from engine history benchmark start index bars b

  abbrev pub opening_books : BacktestConfig → M → Books M
  opening_books config memory = record {
    memory = memory;
    cash = config.starting_cash;
    positions = [];
    points = [];
    total_costs = zero_dec;
    total_turnover = zero_dec;
    cash_weight_sum = zero_dec;
    trade_count = 0;
    peak_nav = config.starting_cash;
    max_drawdown = zero_dec;
  }

  -- What the loop's variables come to
  unfoldable pub result_of : BacktestConfig → Books M → Result BacktestResult
  unfolding average from_end
  result_of config b = do
    let ending_nav = nav_of config.starting_cash (from_end 1 b.points)
    average_cash_weight ← average b.cash_weight_sum b.points
    ratio ← div ending_nav config.starting_cash
    ok (record {
      starting_nav = config.starting_cash;
      ending_nav = ending_nav;
      total_return = sub ratio one;
      max_drawdown = b.max_drawdown;
      total_costs = b.total_costs;
      trade_count = b.trade_count;
      points = b.points;
      total_turnover = b.total_turnover;
      average_cash_weight = average_cash_weight;
    })

  -- `run`, with the memory of the strategy at its start
  unfoldable pub run_backtest :
      BacktestEngine M → M → History → String → Option ℕ → Result BacktestResult
  unfolding steps_from result_of check_history length lookup_or
  run_backtest engine memory history benchmark start = do
    let bars = lookup_or [] benchmark history
    raise_if (ltb (length bars) (engine.config.warmup_bars + 1))
        (value_error "insufficient benchmark history for backtest")
    check_history history
    b ←
        steps_from engine history benchmark start (engine.config.warmup_bars - 1) bars
          (opening_books engine.config memory)
    result_of engine.config b

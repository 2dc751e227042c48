-- ===== src/Session/Runner.antt =====
-- src/project_fifty/session/runner.py: a cycle of the session over the execution kernel, which shares
-- its ledger. The market's answers, the strategy, the hashes, the uuids and the times are parameters.
pub mod Cycle
pub mod Once
pub mod Repeat
pub mod Bounds
use project_fifty.Strategies.Rebalance.{keys}
use project_fifty.Backtest.History.{dict_map}
use project_fifty.Kernel.Capital.{mark_prices_from}
use project_fifty.Ledger.Events.{Event}
use project_fifty.Strategies.Proposals.{ProposalBuilder}
use project_fifty.Reconcile.{replay_events}
use project_fifty.Prelude.{
  ℕ, suc, String, ◌≡◌, ◌⊎◌, ◌+◌, ◌-◌, ◌≤◌, ◌<◌, refl, sym, ap, subst, inl, inr, false, true, not,
  ◌==◌, ltb, leb, str_eq, eq_refl, eq_iff, arith, Option, none, some, List, [], ◌∷◌, ◌++◌, Bool,
  Bool-cases, Option-cases, ◌||◌, ◌&&◌, if◌then◌else◌, ◌*◌,
}
use project_fifty.Prelude.Dict.{Dict, lookup, lookup_or, insert, erase, has_key}
use project_fifty.Prelude.Sort.{All, sorted_keys}
use project_fifty.Prelude.Seq.{length, from_end}
use project_fifty.Outcome.{
  Result, ok, err, ◌>>=◌, ◌>>◌, >>=-eq-ok, >>-eq-ok, ok_injective, raise_if, Result-cases,
  value_error,
}
use project_fifty.Decimal.{Decimal, lt, le, eq, add, sub, mul, div, min, max, zero_dec, one}
use project_fifty.Domain.{Position, PortfolioState, ExecutionReport}
use project_fifty.Settings.{Settings}
use project_fifty.Strategies.Contracts.{
  MarketBar, StrategyContext, TargetPortfolio, validate_context,
}
use project_fifty.Session.Quotes.{MarketQuote, quote_problem, midpoints, latest_time}

-- A universe: the benchmark, and all symbols with it
pub record MarketUniverse : Type 0 where
  pub benchmark_symbol : String
  pub all_symbols : List String

pub record SessionConfig : Type 0 where
  pub timeframe_seconds : ℕ
  pub history_days : ℕ
  pub history_start : Option ℕ
  pub poll_seconds : ℕ
  pub future_quote_tolerance_seconds : ℕ

-- `SessionConfig(...)`: the fields, if `__post_init__` passes them.
unfoldable pub validate_session : SessionConfig → Result SessionConfig
validate_session c = do
  raise_if (c.timeframe_seconds == 0 || c.history_days == 0 || c.poll_seconds == 0)
      (value_error "session timing values must be positive")
  ok c

pub record SessionCycleResult : Type 0 where
  pub market_open : Bool
  pub decision_bar_time : Option ℕ
  pub market_state_hash : Option String
  pub proposal_count : ℕ
  pub approved_count : ℕ
  pub rejected_count : ℕ
  pub suppressed_count : ℕ
  pub skipped_reason : Option String

-- A result without a decision
abbrev pub idle_result : Bool → Option ℕ → String → SessionCycleResult
idle_result market_open time reason = record {
  market_open = market_open;
  decision_bar_time = time;
  market_state_hash = none;
  proposal_count = 0;
  approved_count = 0;
  rejected_count = 0;
  suppressed_count = 0;
  skipped_reason = some reason;
}

-- What the clock and the market data answer in one cycle; a call may raise.
pub record Market : Type 0 where
  pub is_open : Bool
  pub get_bars : List String → ℕ → ℕ → Result (Dict (List MarketBar))
  pub get_latest_quotes : List String → Result (Dict MarketQuote)

pub record Runner : Type 0 where
  pub settings : Settings
  pub universe : MarketUniverse
  pub strategy : StrategyContext → Result TargetPortfolio
  pub proposal_builder : ProposalBuilder
  pub config : SessionConfig
  pub sha256 : String → String
  pub state_hash : Dict (List MarketBar) → Dict MarketQuote → String

-- `_execution_reports`
unfoldable pub execution_reports : List Event → List ExecutionReport
execution_reports [] = []
execution_reports (Event.broker_execution_report r ∷ events) = r ∷ execution_reports events
execution_reports (_ ∷ events) = execution_reports events

abbrev pub completed_bar : Option ℕ → Event → Option ℕ
completed_bar last (Event.strategy_cycle_completed c) = some c.decision_bar_time
completed_bar last _ = last

unfoldable pub completed_bar_from : Option ℕ → List Event → Option ℕ
completed_bar_from last [] = last
completed_bar_from last (e ∷ events) = completed_bar_from (completed_bar last e) events

-- `_last_completed_bar`: the last of the events, found from the front
unfoldable pub last_completed_bar : List Event → Option ℕ
unfolding completed_bar_from
last_completed_bar events = completed_bar_from none events

-- `_authorized_portfolio_with_fill_marks`
unfoldable pub portfolio_with_fill_marks : Settings → List Event → Result PortfolioState
unfolding execution_reports mark_prices_from replay_events
portfolio_with_fill_marks s events =
    let reports = execution_reports events in
    replay_events s.authorized_starting_cash reports (mark_prices_from [] reports)
      s.account_currency

-- `_authorized_portfolio`
unfoldable pub marked_portfolio : Settings → Dict Decimal → List Event → Result PortfolioState
unfolding execution_reports replay_events
marked_portfolio s marks events =
    replay_events s.authorized_starting_cash (execution_reports events) marks s.account_currency

-- What a cycle comes to before it decides: nothing to do, or the decision's bar and context
pub data Prepared : Type 0 where
  closed : Prepared
  skipped : String → Prepared
  duplicate : ℕ → Prepared
  ready : ℕ → StrategyContext → Prepared

abbrev pub cycle_context :
    Runner
    → ℕ
    → Dict (List MarketBar)
    → Dict MarketQuote
    → Dict Decimal
    → PortfolioState
    → StrategyContext
cycle_context r now history quotes marks portfolio = record {
  as_of = latest_time now quotes;
  currency = r.settings.account_currency;
  portfolio = portfolio;
  reference_prices = marks;
  reference_price_timestamps = dict_map (λ (q : MarketQuote). q.timestamp) quotes;
  market_state_hash = r.state_hash history quotes;
  history = history;
  benchmark_symbol = some r.universe.benchmark_symbol;
}

unfoldable pub prepare_context :
    Runner → List Event → ℕ → Dict (List MarketBar) → ℕ → Dict MarketQuote → Result Prepared
unfolding midpoints marked_portfolio latest_time validate_context
prepare_context r events now history time quotes = do
  marks ← midpoints quotes
  portfolio ← marked_portfolio r.settings marks events
  context ← validate_context (cycle_context r now history quotes marks portfolio)
  ok (Prepared.ready time context)

unfoldable pub prepare_quotes :
    Runner
    → List Event
    → ℕ
    → List String
    → Dict (List MarketBar)
    → ℕ
    → Dict MarketQuote
    → Result Prepared
unfolding quote_problem prepare_context
prepare_quotes r events now symbols history time quotes =
    elim (quote_problem r.settings r.config.future_quote_tolerance_seconds now symbols quotes) [
      | some reason ↦ ok (Prepared.skipped reason)
      | none ↦ prepare_context r events now history time quotes
    ]

abbrev pub same_time : Option ℕ → ℕ → Bool
same_time none time = false
same_time (some other) time = other == time

unfoldable pub prepare_decision :
    Runner
    → Market
    → List Event
    → ℕ
    → List String
    → Dict (List MarketBar)
    → Option MarketBar
    → Result Prepared
unfolding last_completed_bar prepare_quotes
prepare_decision r market events now symbols history none =
    ok (Prepared.skipped "missing_benchmark_history")
prepare_decision r market events now symbols history (some bar) =
    if same_time (last_completed_bar events) bar.timestamp
    then ok (Prepared.duplicate bar.timestamp)
    else market.get_latest_quotes symbols
      >>= prepare_quotes r events now symbols history bar.timestamp

-- The last bar of the benchmark
unfoldable pub benchmark_bar : Runner → Dict (List MarketBar) → Option MarketBar
unfolding lookup_or from_end
benchmark_bar r history = from_end 1 (lookup_or [] r.universe.benchmark_symbol history)

unfoldable pub start_of : SessionConfig → ℕ → ℕ
start_of c end = elim c.history_start [
  | none ↦ end - c.history_days * 86400000000
  | some start ↦ start
]

unfoldable pub prepare_open : Runner → Market → List Event → ℕ → List String → Result Prepared
unfolding start_of benchmark_bar prepare_decision
prepare_open r market events now symbols =
    let end = now - r.config.timeframe_seconds * 1000000 in
    let start = start_of r.config end in
    if leb end start
    then ok (Prepared.skipped "invalid_history_window")
    else market.get_bars symbols start end >>= λ history.
        prepare_decision r market events now symbols history (benchmark_bar r history)

-- The part of `run_cycle` that only reads
unfoldable pub prepare : Runner → Market → ℕ → List Event → Result Prepared
unfolding portfolio_with_fill_marks prepare_open sorted_keys
prepare r market now events =
    if not market.is_open
    then ok Prepared.closed
    else portfolio_with_fill_marks r.settings events >>= λ provisional.
        prepare_open r market events now
          (sorted_keys r.universe.all_symbols (keys provisional.positions))

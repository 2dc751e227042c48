-- ===== src/Lib.antt =====
-- A verification library for Project Fifty, a paper-trading system whose core is an execution kernel
-- between strategies that propose trades and a broker that executes them.
--
-- The parts. A proposal (src/project_fifty/domain/models.py) is handed to `ExecutionKernel`
-- (execution/kernel.py), which writes it to an append-only ledger (ledger/local.py), rebuilds the
-- authorised portfolio from the execution reports that it holds (portfolio/reconcile.py), derives an
-- order, asks the risk engine (risk/engine.py) with the control state (control/state.py and
-- control/persistence.py), and only then calls the broker (brokers/base.py), whose reports move the
-- order through its state machine (execution/state_machine.py) and are written to the ledger. A
-- restart builds a kernel from the ledger alone. Before the kernel, a strategy's target weights become
-- proposals (strategies/contracts.py, rebalance.py and proposal_builder.py); beside it, the session
-- reads open orders and expected holdings from the same ledger (session/runtime_state.py), and runs the
-- cycles that ask the strategy and hand its proposals to the kernel (session/runner.py). The backtest
-- (backtest/engine.py) replays a strategy on past bars without the kernel.
--
-- All paths below are under src/project_fifty/.
--
-- Which file models which part:
--   Prelude     names of the libraries, Boolean tests, sets of strings, and dicts in insertion order
--   Outcome     `Result` for code that returns or raises; `Action` for methods that write state, with
--               what was written before a raise; `Hoare`, rules for what such a method does
--   Decimal     decimal.Decimal with 28 digits and ROUND_HALF_EVEN; `Sign`, signs of results;
--               `Precision` and `Rounded`, numbers that are rounded already
--   Domain      domain/models.py: data, validators, `OrderIntent.create` (`create_intent`)
--   Ledger      ledger/local.py: `open_ledger` is the constructor, `append` and
--               `load_existing_events` the methods; `Events` has the event types with their payloads,
--               `Chain` the hash chain as a predicate, `Durable` restarts, `Tamper` changed files
--   StateMachine  execution/state_machine.py, and `_TERMINAL_ORDER_STATES` of the kernel
--   Control     control/state.py and control/persistence.py; `Restore`, restarts
--   Settings    config/settings.py
--   Risk        risk/engine.py: `evaluate`, its second half as `evaluate_intent`; `Authority`, what an
--               approval grants
--   Reconcile   portfolio/reconcile.py: `replay_events`, its loop as `replay_reports`, the loop's body
--               as `apply_report` and `apply_fill`; `Quantities`, `Fills`, `FirstFill` and `Marks`, what
--               is held without its prices
--   Broker      brokers/base.py, as a record over a type of states; `Simulated`,
--               brokers/simulated/broker.py, with `Settle` and `Refused` for the two ends of a
--               submission, and `Prices`, `Fills`, `Identifiers`, `Replay`, `Follow`, `Rebuild` and
--               `Portfolio` for its reports in the reconciler; `Alpaca`, brokers/alpaca/broker.py over
--               an HTTP client: what the service answers (`Replies`), `submit` and `cancel` as
--               `submit_order` and `cancel_order` (`Orders`), and the account with the guard (`Account`,
--               `Service`, with `Agreement` and `Reading` for what the service answers)
--   Kernel      execution/kernel.py: `State` has the fields and the hydration, `Capital` the cash and
--               the order of a proposal, `Handle` the methods (`Records`, `Cancel` and `Propose`).
--               `Restart` relates the fields to the ledger, `Calls` the proposals to the broker's
--               calls.
--   Strategies  strategies/contracts.py (`Contracts`, with `Sound`), strategies/rebalance.py
--               (`Rebalance`, with `Plan`) and strategies/proposal_builder.py (`Proposals`: the loop of
--               `build_with_plan` is `propose_symbols`; with `Sequence`); `SingleMarket` and
--               `LowFrequency`, the strategies of single_market.py and low_frequency.py, with the
--               indicators of both in `Indicators`, and what a choice is made from in
--               `LowFrequency.Candidates`; `Baseline`, `Persistent`, `Confirmed` and
--               `RegimePersistent`, the four versions of the technical strategy in the files of these
--               names, each `generate_target` as `baseline_target`, `persistent_target` and so on, and
--               the part after `_detect_regime` under the name with `_in`; `Confirmed.Windows`, the last
--               bars of a symbol; `Baseline` has the
--               `Indicators`, the `Signals` of a symbol and the `Target`; `Contracts.Allocation`, what
--               targets are
--   Session     session/runtime_state.py in `RuntimeState`: `pending_orders` and
--               `expected_position_quantities`, with `Agreement` and `Authorized` for the kernel's
--               portfolio and `Simulated` for the simulated broker's; session/runner.py in `Runner`: the
--               part of `run_cycle` that only reads is `prepare`, the rest is in `Cycle`, over the
--               kernel, whose ledger it shares; `Quotes`, `MarketQuote` of market_data/alpaca.py and the
--               runner's checks on quotes; session/observation.py in `Observation`: the loop of `_execution_metrics` is `note_fills`; `Metrics`, the
--               whole; with `Final`, `Repeat`, `Ordered` and `Drawdown` for its parts
--   Backtest    backtest/engine.py: `History`, the bars that a moment reads; `Rebalance`, the trades of a
--               bar; `Engine`, `BacktestEngine.run` as `run_backtest` with the body of its loop as `step`,
--               with `Ahead` for longer histories and `Blind` for what a step sees;
--               `WalkForward`, `WalkForwardEvaluator.evaluate` as `evaluate_windows`
--   Tests       the results below at concrete inputs, and runs of the code
--
-- How code became definitions. A method is a function from the object's state to its result and the
-- state that it leaves, also where it raises. uuid4 and the clock are arguments. The kernel's
-- ledger is the list of its events, which Ledger.Durable relates to the file. The kernel and a
-- ledger-backed control state write to one ledger. What pydantic writes with `model_dump` is taken
-- to come back from `model_validate`, and sha256 over the JSON text is a parameter of Ledger.
--
-- Bounds and fuel. `Decimal.digits_from` counts digits on fuel, which is the number itself; a number
-- has at most as many digits as its value; so does `Numerals.str_of`. The loop of
-- `Backtest.WalkForward` has a round of fuel for each bar of the benchmark and one more. All other loops
-- run over lists. A number that rounding carries to 29 digits loses its last zero. Times are microseconds since the epoch, so the
-- staleness test is exact where the code compares a float of seconds.
--
-- Not modelled: infinities and NaN, which the validators refuse, the limits of a decimal's exponent
-- and the sign of a zero; fields that no modelled code reads (`created_at`, a portfolio's `as_of`,
-- `message`, `detail`, `evidence`, the `reason` text of a mode change); reading the environment; texts
-- outside ASCII where the code changes their case; HTTP itself and the log of its requests, reading and writing the text of a decimal (a parameter of
-- Broker.Alpaca), the Alpaca market data, the hash over the market state, the opportunity scanner m11 and the
-- files m6 to m9 that name a strategy for a campaign, `run_until_close` without a limit, the research modules and the scripts.
pub mod Prelude
pub mod Outcome
pub mod Decimal
pub mod Domain
pub mod StateMachine
pub mod Ledger
pub mod Control
pub mod Settings
pub mod Risk
pub mod Reconcile
pub mod Broker
pub mod Kernel
pub mod Tests
pub mod Strategies
pub mod Session
pub mod Backtest

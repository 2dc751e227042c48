-- ===== src/Backtest/WalkForward.antt =====
-- src/project_fifty/backtest/engine.py, `WalkForwardEvaluator`. The memory of a new strategy, which
-- `strategy_factory` makes for every window, is a parameter.
pub mod Windows
use project_fifty.Prelude.{
  ℕ, suc, String, ◌≡◌, ◌⊎◌, ◌+◌, ◌-◌, ◌≤◌, ◌<◌, refl, sym, ap, subst, inl, inr, false, true, not,
  ◌==◌, ltb, leb, str_eq, eq_refl, eq_iff, arith, Option, none, some, List, [], ◌∷◌, ◌++◌, Bool,
  Bool-cases, Option-cases, ◌||◌, ◌&&◌, if◌then◌else◌,
}
use project_fifty.Prelude.Dict.{Dict, lookup, lookup_or, insert, erase, has_key}
use project_fifty.Prelude.Sort.{All}
use project_fifty.Prelude.Seq.{length}
use project_fifty.Outcome.{
  Result, ok, err, ◌>>=◌, ◌>>◌, >>=-eq-ok, >>-eq-ok, ok_injective, raise_if, Result-cases,
  index_error, value_error,
}
use project_fifty.Decimal.{Decimal, lt, le, eq, add, sub, mul, div, min, max, zero_dec, one}
use project_fifty.Domain.{Position, PortfolioState}
use project_fifty.Strategies.Contracts.{MarketBar}
use project_fifty.Backtest.History.{History, history_until}
use project_fifty.Backtest.Engine.{BacktestEngine, BacktestResult, run_backtest}

pub record WalkForwardConfig : Type 0 where
  pub train_bars : ℕ
  pub test_bars : ℕ
  pub step_bars : ℕ

-- `WalkForwardConfig(...)`: the fields, if `__post_init__` passes them.
unfoldable pub validate_walk : WalkForwardConfig → Result WalkForwardConfig
validate_walk c = do
  raise_if (c.train_bars == 0 || c.test_bars == 0 || c.step_bars == 0)
      (value_error "walk-forward window sizes must be positive")
  ok c

pub record WalkForwardWindow : Type 0 where
  pub test_start : ℕ
  pub test_end : ℕ
  pub outcome : BacktestResult

-- `benchmark[n].timestamp`
unfoldable pub time_at : ℕ → List MarketBar → Result ℕ
time_at n [] = err (index_error "tuple index out of range")
time_at ℕ.zero (bar ∷ bars) = ok bar.timestamp
time_at (suc n) (bar ∷ bars) = time_at n bars

module _ {M : Type 0} where
  -- The body of the loop
  unfoldable pub evaluate_window :
      BacktestEngine M
      → M
      → WalkForwardConfig
      → History
      → String
      → List MarketBar
      → ℕ
      → Result WalkForwardWindow
  unfolding time_at history_until run_backtest
  evaluate_window engine fresh config history benchmark bars start = do
    test_start ← time_at start bars
    test_end ← time_at (start + config.test_bars) bars
    outcome ← run_backtest engine fresh (history_until test_end history) benchmark (some test_start)
    ok (record { test_start = test_start; test_end = test_end; outcome = outcome })

-- A window and those after it; none is no answer within the fuel.
abbrev pub add_window :
    Result WalkForwardWindow
    → Option (Result (List WalkForwardWindow))
    → Option (Result (List WalkForwardWindow))
add_window (err e) rest = some (err e)
add_window (ok window) none = none
add_window (ok window) (some rest) = some (rest >>= λ windows. ok (window ∷ windows))

module _ {M : Type 0} where
  -- The loop, with fuel for its rounds
  unfoldable pub windows_from :
      BacktestEngine M
      → M
      → WalkForwardConfig
      → History
      → String
      → List MarketBar
      → ℕ
      → ℕ
      → Option (Result (List WalkForwardWindow))
  unfolding evaluate_window length
  windows_from engine fresh config history benchmark bars ℕ.zero start = none
  windows_from engine fresh config history benchmark bars (suc fuel) start =
      let rest =
        windows_from engine fresh config history benchmark bars fuel (start + config.step_bars) in
      if ltb (start + config.test_bars) (length bars)
      then add_window (evaluate_window engine fresh config history benchmark bars start) rest
      else some (ok [])

  -- `evaluate`; a round for every bar of the benchmark and one more is enough.
  unfoldable pub evaluate_windows :
      BacktestEngine M
      → M
      → WalkForwardConfig
      → History
      → String
      → Option (Result (List WalkForwardWindow))
  unfolding windows_from lookup_or length
  evaluate_windows engine fresh config history benchmark =
      let bars = lookup_or [] benchmark history in
      windows_from engine fresh config history benchmark bars (suc (length bars)) config.train_bars

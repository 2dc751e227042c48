-- ===== src/Backtest/Engine/Keep.antt =====
-- What every rebalance keeps, the whole replay keeps.
use project_fifty.Backtest.Rebalance.{portfolio_state}
use project_fifty.Prelude.{
  ℕ, suc, String, ◌≡◌, ◌+◌, ◌-◌, ◌<◌, refl, sym, ap, subst, inl, inr, false, not, ltb, leb, str_eq,
  arith, Option, none, some, List, [], ◌∷◌, Bool-cases, ◌||◌,
}
use project_fifty.Prelude.Dict.{Dict, lookup, lookup_or, has_key}
use project_fifty.Prelude.Sort.{All}
use project_fifty.Prelude.Seq.{length, from_end}
use project_fifty.Outcome.{ok, >>=-eq-ok, >>-eq-ok, ok_injective, raise_if}
use project_fifty.Decimal.{div}
use project_fifty.Strategies.Contracts.{MarketBar, TargetPortfolio, is_empty, is_late}
use project_fifty.Strategies.Contracts.Allocation.{raise_if-eq-ok}
use project_fifty.Strategies.Rebalance.{RebalancePlan}
use project_fifty.Backtest.History.{
  History, history_until, latest_bars, bars_at, check_order, check_symbols, check_history, dict_map,
}
use project_fifty.Backtest.Engine.{
  BacktestEngine, Books, settle, decide_at, execute, steps, steps_from, step, run_backtest,
  is_before, result_of, BacktestResult, decision_context, opening_books, plan_option, average,
  nav_of,
}

-- `Q` is what holds of the times of the benchmark's bars.
module _ {M : Type 0} (engine : BacktestEngine M) (benchmark : String) (start : Option ℕ)
    (history : History) (Q : ℕ → Type 0) (P : Books M → Type 0)
    (remember : (b : Books M) (m : M) → P b → P (record b { memory = m }))
    (settled : (time execution : ℕ) (bars : Dict MarketBar) (target : TargetPortfolio)
        (p : Option RebalancePlan) (b b' : Books M)
      → time < execution
      → is_before time start ≡ false
      → Q execution
      → settle engine time execution bars target p b ≡ ok b'
      → P b
      → P b') where
  execute-keep :
      (time execution : ℕ) (bars : Dict MarketBar) (target : TargetPortfolio)
      (p : Option RebalancePlan) (b b' : Books M)
      → time < execution
      → is_before time start ≡ false
      → Q execution
      → execute engine benchmark time execution bars target p b ≡ ok b'
      → P b
      → P b'
  unfolding execute
  execute-keep time execution bars target p b b' order begun q h k =
      elim (Bool-cases (has_key benchmark bars)) [
        | inl there ↦ settled time execution bars target p b b' order begun q (ground arith) k
        | inr missing ↦ subst P (ok_injective b b' (ground arith)) k
      ]

  decide_at-keep :
      (time execution : ℕ) (b b' : Books M)
      → time < execution
      → is_before time start ≡ false
      → Q execution
      → decide_at engine history benchmark time execution b ≡ ok b'
      → P b
      → P b'
  unfolding decide_at
  decide_at-keep time execution b b' order begun q h k =
      let seen = history_until time history in
      let (marked, _, h1) =
        >>=-eq-ok
          (portfolio_state engine.config b.cash b.positions
            (dict_map (λ (bar : MarketBar). bar.close) (latest_bars seen)))
          _ h in
      let (context, _, h2) =
        >>=-eq-ok (decision_context engine seen (some benchmark) time marked) _ h1 in
      let (answer, _, h3) = >>=-eq-ok (engine.strategy b.memory context) _ h2 in
      let (p, _, h4) = >>=-eq-ok (plan_option engine.rebalance_policy answer.0 context) _ h3 in
      execute-keep time execution (bars_at execution history) answer.0 p
        (record b { memory = answer.1 }) b' order begun q h4 (remember b answer.1 k)

  step-keep :
      (time execution : ℕ) (b b' : Books M)
      → time < execution
      → Q execution
      → step engine history benchmark start time execution b ≡ ok b'
      → P b
      → P b'
  unfolding step
  step-keep time execution b b' order q h k =
      elim (Bool-cases (
        is_before time start
        || not (has_key benchmark (latest_bars (history_until time history))))) [
          | inl skipped ↦ subst P (ok_injective b b' (ground arith)) k
          | inr decided ↦ decide_at-keep time execution b b' order (ground arith) q (ground arith) k
        ]

  pub steps-keep :
      (time : ℕ) (bars : List MarketBar) (b b' : Books M)
      → check_order (some time) bars ≡ ok tt
      → All (λ bar. Q bar.timestamp) bars
      → steps engine history benchmark start time bars b ≡ ok b'
      → P b
      → P b'
  unfolding steps check_order
  steps-keep time [] b b' ordered qs h k = subst P (ok_injective _ _ h) k
  steps-keep time (bar ∷ bars) b b' ordered qs h k =
      let (first, rest) = >>-eq-ok (raise_if (leb bar.timestamp time) _) _ ordered in
      let later = raise_if-eq-ok _ _ first in
      let (b1, stepped, h1) =
        >>=-eq-ok (step engine history benchmark start time bar.timestamp b) _ h in
      steps-keep bar.timestamp bars b1 b' rest qs.1 h1
        (step-keep time bar.timestamp b b1 (ground arith) qs.0 stepped k)

  pub steps_from-keep :
      (index : ℕ) (previous : Option ℕ) (bars : List MarketBar) (b b' : Books M)
      → check_order previous bars ≡ ok tt
      → All (λ bar. Q bar.timestamp) bars
      → steps_from engine history benchmark start index bars b ≡ ok b'
      → P b
      → P b'
  unfolding steps_from check_order
  steps_from-keep index previous [] b b' ordered qs h k = subst P (ok_injective _ _ h) k
  steps_from-keep ℕ.zero previous (bar ∷ bars) b b' ordered qs h k =
      let (_, rest) = >>-eq-ok (raise_if (is_late previous bar.timestamp) _) _ ordered in
      steps-keep bar.timestamp bars b b' rest qs.1 h k
  steps_from-keep (suc index) previous (bar ∷ bars) b b' ordered qs h k =
      let (_, rest) = >>-eq-ok (raise_if (is_late previous bar.timestamp) _) _ ordered in
      steps_from-keep index (some bar.timestamp) bars b b' rest qs.1 h k

-- The bars of a symbol that a valid history has are in order.
pub lookup_or-ordered :
    (symbol : String) (history : History)
    → check_symbols history ≡ ok tt
    → check_order none (lookup_or [] symbol history) ≡ ok tt
unfolding check_symbols lookup_or lookup check_order
lookup_or-ordered symbol [] h = refl
lookup_or-ordered symbol ((k, bars) ∷ history) h =
    let (_, h1) = >>-eq-ok (raise_if (str_eq k "" || is_empty bars) _) _ h in
    let (first, rest) = >>-eq-ok (check_order none bars) _ h1 in
    let ordered = λ (x : List MarketBar). check_order none x ≡ ok tt in
    let found = lookup_or [] symbol ((k, bars) ∷ history) in
    elim (Bool-cases (str_eq k symbol)) [
      | inl here ↦ subst ordered {x = bars} {y = found} (ground arith) first
      | inr there ↦
          subst ordered {x = lookup_or [] symbol history} {y = found} (ground arith)
            (lookup_or-ordered symbol history rest)
    ]

module _ {M : Type 0} (engine : BacktestEngine M) (memory : M) (history : History)
    (benchmark : String) (start : Option ℕ) where
  -- What a replay that returned went through
  pub run_backtest-steps :
      (r : BacktestResult)
      → run_backtest engine memory history benchmark start ≡ ok r
      → (check_symbols history ≡ ok tt)
        × (ltb (length (lookup_or [] benchmark history)) (engine.config.warmup_bars + 1) ≡ false)
        × ((b : Books M) × (steps_from engine history benchmark start
                (engine.config.warmup_bars - 1)
                (lookup_or [] benchmark history)
                (opening_books engine.config memory)
              ≡ ok b)
            × (r.points ≡ b.points)
            × (r.max_drawdown ≡ b.max_drawdown))
  unfolding run_backtest check_history result_of
  run_backtest-steps r h =
      let bars = lookup_or [] benchmark history in
      let (enough, h1) =
        >>-eq-ok (raise_if (ltb (length bars) (engine.config.warmup_bars + 1)) _) _ h in
      let (checked, h2) = >>-eq-ok (check_history history) _ h1 in
      let (_, symbols) = >>-eq-ok (raise_if (is_empty history) _) _ checked in
      let (b, stepped, h3) =
        >>=-eq-ok
          (steps_from engine history benchmark start (engine.config.warmup_bars - 1) bars
            (opening_books engine.config memory))
          (result_of engine.config) h2 in
      let (weight, _, h4) = >>=-eq-ok (average b.cash_weight_sum b.points) _ h3 in
      let (ratio, _, h5) =
        >>=-eq-ok
          (div (nav_of engine.config.starting_cash (from_end 1 b.points))
            engine.config.starting_cash)
          _ h4 in
      let same = ok_injective _ _ h5 in
      (
        symbols,
        raise_if-eq-ok _ _ enough,
        (
          b,
          stepped,
          sym (ap (λ (x : BacktestResult). x.points) same),
          sym (ap (λ (x : BacktestResult). x.max_drawdown) same),
        ),
      )

-- The bars' times are any.
pub All-any : (bars : List MarketBar) → All (λ (_ : MarketBar). Unit {0}) bars
All-any [] = tt
All-any (bar ∷ bars) = (tt, All-any bars)

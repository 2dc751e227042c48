-- ===== src/Backtest/Engine/Blind.antt =====
-- Of the bars that a step executes on, the decision and the trades see only the opens.
use project_fifty.Prelude.{
  ℕ, ◌+◌, String, not, ◌||◌, ◌≡◌, refl, sym, ◌∙◌, ap, subst, inl, inr, Option, some, [], ◌∷◌, arith,
  Bool-cases, if◌then◌else◌,
}
use project_fifty.Prelude.Dict.{Dict, has_key, lookup}
use project_fifty.Outcome.{Result, ok, err, ◌>>=◌, >>=-eq-ok, ok_injective}
use project_fifty.Decimal.{Decimal, add, max}
use project_fifty.Strategies.Contracts.{MarketBar, TargetPortfolio}
use project_fifty.Strategies.Rebalance.{RebalancePlan}
use project_fifty.Backtest.Rebalance.{Trades, portfolio_state, rebalance}
use project_fifty.Backtest.History.{History, dict_map, history_until, bars_at, latest_bars}
use project_fifty.Backtest.Engine.{
  BacktestEngine, Books, step, decide_at, execute, settle, decision_context, plan_option, is_before,
  deepen, add_cash_weight,
}

abbrev pub opens : Dict MarketBar → Dict Decimal
opens bars = dict_map (λ (bar : MarketBar). bar.open_price) bars

bind-both :
    {A B P : Type 0} (m : Result A) (next next' : A → Result B) (y y' : B)
    → ((a : A) → next a ≡ ok y → next' a ≡ ok y' → P)
    → (m >>= next) ≡ ok y
    → (m >>= next') ≡ ok y'
    → P
bind-both (ok a) next next' y y' f h k = f a h k
bind-both (err e) next next' y y' f h k = cc

has_key-opens :
    (symbol : String) (bars : Dict MarketBar) → has_key symbol (opens bars) ≡ has_key symbol bars
unfolding has_key lookup
has_key-opens symbol [] = refl
has_key-opens symbol ((k, bar) ∷ bars) = ground (arith, has_key-opens symbol bars)

module _ {M : Type 0} (engine : BacktestEngine M) where
  -- What is decided and traded is the same: memory, cash, positions and the sums of the trades.
  abbrev pub IsSameTrade : Books M → Books M → Type 0
  IsSameTrade b1 b2 =
      (b1.memory ≡ b2.memory)
      × (b1.cash ≡ b2.cash)
      × (b1.positions ≡ b2.positions)
      × (b1.total_costs ≡ b2.total_costs)
      × (b1.total_turnover ≡ b2.total_turnover)
      × (b1.trade_count ≡ b2.trade_count)

  -- The first half of `settle`
  abbrev traded : Dict Decimal → TargetPortfolio → Option RebalancePlan → Books M → Result Trades
  traded prices target p b = portfolio_state engine.config b.cash b.positions prices >>= λ before.
      rebalance engine.config b.cash b.positions before.nav target.weights prices p

  -- The books after trades, but for their value
  abbrev IsAfter : Books M → Trades → Books M → Type 0
  IsAfter b t b' =
      (b'.memory ≡ b.memory)
      × (b'.cash ≡ t.cash)
      × (b'.positions ≡ t.positions)
      × (b'.total_costs ≡ add b.total_costs t.costs)
      × (b'.total_turnover ≡ add b.total_turnover t.turnover)
      × (b'.trade_count ≡ b.trade_count + t.count)

  settle-traded :
      (time execution : ℕ) (bars : Dict MarketBar) (target : TargetPortfolio)
      (p : Option RebalancePlan) (b b' : Books M)
      → settle engine time execution bars target p b ≡ ok b'
      → (t : Trades) × (traded (opens bars) target p b ≡ ok t) × IsAfter b t b'
  unfolding settle
  settle-traded time execution bars target p b b' h =
      let (before, q1, h1) = >>=-eq-ok (portfolio_state engine.config b.cash b.positions _) _ h in
      let (t, q2, h2) =
        >>=-eq-ok (rebalance engine.config b.cash b.positions before.nav target.weights _ p) _ h1 in
      let (after, _, h3) = >>=-eq-ok (portfolio_state engine.config t.cash t.positions _) _ h2 in
      let (drawdown, _, h4) =
        >>=-eq-ok (deepen b.max_drawdown (max b.peak_nav after.nav) after.nav) _ h3 in
      let (weights, _, h5) = >>=-eq-ok (add_cash_weight b.cash_weight_sum after) _ h4 in
      let last = ok_injective _ _ h5 in
      (
        t,
        ap
              (λ state. state >>= λ before.
                rebalance engine.config b.cash b.positions before.nav target.weights (opens bars) p)
              q1
            ∙ q2,
        (
          sym (ap (λ (x : Books M). x.memory) last),
          sym (ap (λ (x : Books M). x.cash) last),
          sym (ap (λ (x : Books M). x.positions) last),
          sym (ap (λ (x : Books M). x.total_costs) last),
          sym (ap (λ (x : Books M). x.total_turnover) last),
          sym (ap (λ (x : Books M). x.trade_count) last),
        ),
      )

  kept-IsSameTrade : (b b1 b2 : Books M) → ok b ≡ ok b1 → ok b ≡ ok b2 → IsSameTrade b1 b2
  kept-IsSameTrade b b1 b2 h k =
      let alike = sym (ok_injective b b1 h) ∙ ok_injective b b2 k in
      (
        ap (λ (x : Books M). x.memory) alike,
        ap (λ (x : Books M). x.cash) alike,
        ap (λ (x : Books M). x.positions) alike,
        ap (λ (x : Books M). x.total_costs) alike,
        ap (λ (x : Books M). x.total_turnover) alike,
        ap (λ (x : Books M). x.trade_count) alike,
      )

  module _ (time execution : ℕ) (bars bars' : Dict MarketBar)
      (same : opens bars ≡ opens bars') where
    settle-IsSameTrade :
        (target : TargetPortfolio) (p : Option RebalancePlan) (b b1 b2 : Books M)
        → settle engine time execution bars target p b ≡ ok b1
        → settle engine time execution bars' target p b ≡ ok b2
        → IsSameTrade b1 b2
    settle-IsSameTrade target p b b1 b2 h k =
        let (t, q, e) = settle-traded time execution bars target p b b1 h in
        let (t', q', e') = settle-traded time execution bars' target p b b2 k in
        let alike : t ≡ t' =
          ok_injective t t' (sym q ∙ ap (λ prices. traded prices target p b) same ∙ q') in
        (
          e.0 ∙ sym e'.0,
          e.1 ∙ ap (λ (x : Trades). x.cash) alike ∙ sym e'.1,
          e.2 ∙ ap (λ (x : Trades). x.positions) alike ∙ sym e'.2,
          e.3 ∙ ap (λ (x : Trades). add b.total_costs x.costs) alike ∙ sym e'.3,
          e.4 ∙ ap (λ (x : Trades). add b.total_turnover x.turnover) alike ∙ sym e'.4,
          e.5 ∙ ap (λ (x : Trades). b.trade_count + x.count) alike ∙ sym e'.5,
        )

    execute-IsSameTrade :
        (benchmark : String) (target : TargetPortfolio) (p : Option RebalancePlan)
        (b b1 b2 : Books M)
        → execute engine benchmark time execution bars target p b ≡ ok b1
        → execute engine benchmark time execution bars' target p b ≡ ok b2
        → IsSameTrade b1 b2
    unfolding execute
    execute-IsSameTrade benchmark target p b b1 b2 h k =
        let alike : has_key benchmark bars ≡ has_key benchmark bars' =
          sym (has_key-opens benchmark bars)
          ∙ ap (has_key benchmark) same
          ∙ has_key-opens benchmark bars' in
        elim (Bool-cases (has_key benchmark bars)) [
          | inl there ↦
              let there' = sym alike ∙ there in
              settle-IsSameTrade target p b b1 b2 (rw there at h) (rw there' at k)
          | inr missing ↦
              let missing' = sym alike ∙ missing in
              kept-IsSameTrade b b1 b2 (rw missing at h) (rw missing' at k)
        ]

    -- The body of the loop, by what the strategy is shown and what is executed on
    abbrev decided : History → String → Dict MarketBar → Books M → Result (Books M)
    decided seen benchmark found b = do
      marked ←
          portfolio_state engine.config b.cash b.positions
            (dict_map (λ (bar : MarketBar). bar.close) (latest_bars seen))
      context ← decision_context engine seen (some benchmark) time marked
      answer ← engine.strategy b.memory context
      rebalance_plan ← plan_option engine.rebalance_policy answer.0 context
      execute engine benchmark time execution found answer.0 rebalance_plan
          (record b { memory = answer.1 })

    abbrev stepped : History → String → Option ℕ → Dict MarketBar → Books M → Result (Books M)
    stepped seen benchmark start found b =
        if is_before time start || not (has_key benchmark (latest_bars seen))
        then ok b
        else decided seen benchmark found b

    decided-IsSameTrade :
        (seen : History) (benchmark : String) (b b1 b2 : Books M)
        → decided seen benchmark bars b ≡ ok b1
        → decided seen benchmark bars' b ≡ ok b2
        → IsSameTrade b1 b2
    decided-IsSameTrade seen benchmark b b1 b2 =
        bind-both
          (portfolio_state engine.config b.cash b.positions
            (dict_map (λ (bar : MarketBar). bar.close) (latest_bars seen)))
          _ _ b1 b2
          λ marked.
            bind-both (decision_context engine seen (some benchmark) time marked) _ _ b1 b2
              λ context. bind-both (engine.strategy b.memory context) _ _ b1 b2 λ answer.
                bind-both (plan_option engine.rebalance_policy answer.0 context) _ _ b1 b2 λ p.
                  execute-IsSameTrade benchmark answer.0 p (record b { memory = answer.1 }) b1 b2

    stepped-IsSameTrade :
        (seen : History) (benchmark : String) (start : Option ℕ) (b b1 b2 : Books M)
        → stepped seen benchmark start bars b ≡ ok b1
        → stepped seen benchmark start bars' b ≡ ok b2
        → IsSameTrade b1 b2
    stepped-IsSameTrade seen benchmark start b b1 b2 h k =
        elim (Bool-cases (is_before time start || not (has_key benchmark (latest_bars seen)))) [
          | inl idle ↦ kept-IsSameTrade b b1 b2 (rw idle at h) (rw idle at k)
          | inr due ↦ decided-IsSameTrade seen benchmark b b1 b2 (rw due at h) (rw due at k)
        ]

  -- A decision and its trades depend on the bars up to the decision and on the opens of the bars that
  -- they execute on: on two histories that agree in these, two steps from the same books which both
  -- return leave the same memory of the strategy, cash, positions, sums of costs and of turnover and
  -- number of trades.
  pub step-IsSameTrade :
      (benchmark : String) (start : Option ℕ) (time execution : ℕ) (history history' : History)
      (b b1 b2 : Books M)
      → history_until time history ≡ history_until time history'
      → opens (bars_at execution history) ≡ opens (bars_at execution history')
      → step engine history benchmark start time execution b ≡ ok b1
      → step engine history' benchmark start time execution b ≡ ok b2
      → IsSameTrade b1 b2
  unfolding step decide_at
  step-IsSameTrade benchmark start time execution history history' b b1 b2 seen same h k =
      let bars = bars_at execution history in
      let bars' = bars_at execution history' in
      stepped-IsSameTrade time execution bars bars' same (history_until time history) benchmark
        start b b1 b2 h
        (subst
          (λ early. stepped time execution bars bars' same early benchmark start bars' b ≡ ok b2)
          (sym seen) k)

-- ===== src/Backtest/Engine/Outcomes.antt =====
-- What a replay that returned reports: solvent, long-only points in the order of the bars.
use project_fifty.Backtest.Rebalance.Held.{rebalance-AreHeld}
use project_fifty.Strategies.Rebalance.{RebalancePlan}
use project_fifty.Strategies.Contracts.{MarketBar, TargetPortfolio}
use project_fifty.Prelude.Int.{pos_part, ℤ, neg_part, pos, negsuc}
use project_fifty.Backtest.Rebalance.{portfolio_state, BacktestConfig, mark_nav, rebalance}
use project_fifty.Backtest.History.{dict_map, History}
use project_fifty.Backtest.Engine.{
  deepen, BacktestPoint, is_before, BacktestEngine, settle, BacktestResult, Books, run_backtest,
  opening_books, add_cash_weight, new_point,
}
use project_fifty.Prelude.{
  ℕ, String, ◌≡◌, ◌⊎◌, ◌-◌, ◌<◌, refl, sym, subst, inl, inr, false, true, arith, Option, none, List,
  [], ◌∷◌, ◌++◌, Bool-cases,
}
use project_fifty.Prelude.Dict.{Dict, lookup_or}
use project_fifty.Prelude.Sort.{All}
use project_fifty.Outcome.{ok, >>=-eq-ok, >>-eq-ok, ok_injective}
use project_fifty.Decimal.{Decimal, lt, sub, div, min, max, zero_dec, one}
use project_fifty.Domain.{Position, PortfolioState, new_portfolio, non_negative}
use project_fifty.Decimal.Sign.{IsNonneg}
use project_fifty.Reconcile.LongOnly.{AreHeld, non_negative-IsNonneg}
use project_fifty.Backtest.Engine.Keep.{
  steps_from-keep, run_backtest-steps, lookup_or-ordered, All-any,
}

-- A trade follows its decision, and leaves no negative cash, net asset value or quantity.
abbrev pub IsPoint : Option ℕ → (ℕ → Type 0) → BacktestPoint → Type 0
IsPoint start Q p =
    (p.decision_time < p.execution_time)
    × (is_before p.decision_time start ≡ false)
    × Q p.execution_time
    × IsNonneg p.nav
    × IsNonneg p.cash
    × All (λ entry. IsNonneg entry.1) p.positions

All-snoc {ℓ κ} :
    {A : Type ℓ} (P : A → Type κ) (xs : List A) (x : A) → All P xs → P x → All P (xs ++ x ∷ [])
All-snoc P [] x h k = (k, tt)
All-snoc P (y ∷ ys) x h k = (h.0, All-snoc P ys x h.1 k)

quantities-All :
    (positions : Dict Position)
    → AreHeld positions
    → All (λ entry. IsNonneg entry.1) (dict_map (λ (p : Position). p.quantity) positions)
quantities-All [] h = tt
quantities-All ((symbol, p) ∷ positions) h = (h.0.held, quantities-All positions h.1)

portfolio_state-IsSolvent :
    (config : BacktestConfig) (cash : Decimal) (positions : Dict Position) (prices : Dict Decimal)
    (s : PortfolioState)
    → portfolio_state config cash positions prices ≡ ok s
    → IsNonneg s.cash × IsNonneg s.nav × (positions ≡ s.positions)
unfolding portfolio_state new_portfolio
portfolio_state-IsSolvent config cash positions prices s h =
    let nav = mark_nav prices cash positions in
    let (some_cash, h1) = >>-eq-ok (non_negative cash) _ h in
    let (some_nav, h2) = >>-eq-ok (non_negative nav) _ h1 in
    subst (λ (x : PortfolioState). IsNonneg x.cash × IsNonneg x.nav × (positions ≡ x.positions))
      (ok_injective _ _ h2)
      (non_negative-IsNonneg cash some_cash, non_negative-IsNonneg nav some_nav, refl)

one_part : (z : ℤ) → (pos_part z ≡ 0) ⊎ (neg_part z ≡ 0)
one_part (pos n) = inr refl
one_part (negsuc n) = inl refl

-- A number is not above zero where it has no positive part.
lt-pos_part : (a : Decimal) → lt zero_dec a ≡ false → pos_part a.coef ≡ 0
unfolding lt
lt-pos_part a h = elim (one_part a.coef) [ inl e ↦ e | inr e ↦ ground arith ]

pos_part-lt : (a : Decimal) → pos_part a.coef ≡ 0 → lt zero_dec a ≡ false
unfolding lt
pos_part-lt a h = ground arith

-- What is below such a number is not above zero.
lt-zero : (a b : Decimal) → lt zero_dec a ≡ false → lt b a ≡ true → lt zero_dec b ≡ false
unfolding lt
lt-zero a b h k =
    let flat = lt-pos_part a h in
    elim (one_part b.coef) [ inl e ↦ pos_part-lt b e | inr e ↦ absurd (ground arith) ]

deepen-bound :
    (drawdown peak nav deeper : Decimal)
    → lt zero_dec drawdown ≡ false
    → deepen drawdown peak nav ≡ ok deeper
    → lt zero_dec deeper ≡ false
unfolding deepen min
deepen-bound drawdown peak nav deeper bound h = elim (Bool-cases (lt zero_dec peak)) [
  | inr flat ↦
      subst (λ (x : Decimal). lt zero_dec x ≡ false) (ok_injective drawdown deeper (ground arith))
        bound
  | inl risen ↦
      let (ratio, _, h1) =
        >>=-eq-ok (div nav peak) (λ ratio. ok (min drawdown (sub ratio one))) (ground arith) in
      subst (λ (x : Decimal). lt zero_dec x ≡ false)
        (ok_injective (min drawdown (sub ratio one)) deeper h1)
        (elim (Bool-cases (lt (sub ratio one) drawdown)) [
          | inl below ↦ rw (min, below) (lt-zero drawdown (sub ratio one) bound below)
          | inr above ↦ rw (min, above) bound
        ])
]

module _ {M : Type 0} (engine : BacktestEngine M) (benchmark : String) (start : Option ℕ)
    (history : History) (Q : ℕ → Type 0) where
  -- What the books hold between two bars
  abbrev AreSound : Books M → Type 0
  AreSound b =
      AreHeld b.positions × All (IsPoint start Q) b.points × (lt zero_dec b.max_drawdown ≡ false)

  settle-AreSound :
      (time execution : ℕ) (bars : Dict MarketBar) (target : TargetPortfolio)
      (p : Option RebalancePlan) (b b' : Books M)
      → time < execution
      → is_before time start ≡ false
      → Q execution
      → settle engine time execution bars target p b ≡ ok b'
      → AreSound b
      → AreSound b'
  unfolding settle
  settle-AreSound time execution bars target p b b' order begun q h k =
      let (before, _, h1) = >>=-eq-ok (portfolio_state engine.config b.cash b.positions _) _ h in
      let (t, traded, h2) =
        >>=-eq-ok (rebalance engine.config b.cash b.positions before.nav target.weights _ p) _ h1 in
      let (after, marked, h3) =
        >>=-eq-ok (portfolio_state engine.config t.cash t.positions _) _ h2 in
      let (drawdown, deeper, h4) =
        >>=-eq-ok (deepen b.max_drawdown (max b.peak_nav after.nav) after.nav) _ h3 in
      let (weights, _, h5) = >>=-eq-ok (add_cash_weight b.cash_weight_sum after) _ h4 in
      let held =
        rebalance-AreHeld engine.config before.nav target.weights _ p b.cash b.positions t k.0
          traded in
      let (cash, nav, same) =
        portfolio_state-IsSolvent engine.config t.cash t.positions _ after marked in
      subst AreSound (ok_injective _ _ h5) (
        held,
        All-snoc (IsPoint start Q) b.points (new_point time execution t after) k.1
            (order, begun, q, nav, cash, quantities-All after.positions (subst AreHeld same held)),
        deepen-bound b.max_drawdown (max b.peak_nav after.nav) after.nav drawdown k.2 deeper,
      )

  pub run_backtest-points :
      (memory : M) (r : BacktestResult)
      → All (λ bar. Q bar.timestamp) (lookup_or [] benchmark history)
      → run_backtest engine memory history benchmark start ≡ ok r
      → All (IsPoint start Q) r.points × (lt zero_dec r.max_drawdown ≡ false)
  run_backtest-points memory r qs h =
      let (checked, _, (b, stepped, points, drawdown)) =
        run_backtest-steps engine memory history benchmark start r h in
      let sound =
        steps_from-keep engine benchmark start history Q AreSound (λ x m k. k) settle-AreSound
          (engine.config.warmup_bars - 1) none (lookup_or [] benchmark history)
          (opening_books engine.config memory) b (lookup_or-ordered benchmark history checked) qs
          stepped (tt, tt, pos_part-lt zero_dec refl) in
      (
        subst (All (IsPoint start Q)) (sym points) sound.1,
        subst (λ (x : Decimal). lt zero_dec x ≡ false) (sym drawdown) sound.2,
      )

-- Every trade of a replay follows its decision, which is no earlier than the evaluation's start;
-- after it cash, net asset value and quantities are zero or more; and the maximal drawdown is not
-- above zero.
pub run_backtest-IsPoint :
    {M : Type 0} (engine : BacktestEngine M) (memory : M) (history : History) (benchmark : String)
    (start : Option ℕ) (r : BacktestResult)
    → run_backtest engine memory history benchmark start ≡ ok r
    → All (IsPoint start (λ _. Unit {0})) r.points × (lt zero_dec r.max_drawdown ≡ false)
run_backtest-IsPoint engine memory history benchmark start r h =
    run_backtest-points engine benchmark start history (λ _. Unit {0}) memory r
      (All-any (lookup_or [] benchmark history)) h

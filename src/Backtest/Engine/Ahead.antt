-- ===== src/Backtest/Engine/Ahead.antt =====
-- A longer history changes no point of the replay that a shorter one gave.
use project_fifty.Backtest.Engine.Keep.{steps-keep, run_backtest-steps, lookup_or-ordered, All-any}
use project_fifty.Backtest.Rebalance.{portfolio_state, rebalance}
use project_fifty.Strategies.Rebalance.{RebalancePlan}
use project_fifty.Backtest.Engine.{
  BacktestEngine, step, steps_from, Books, settle, steps, decide_at, deepen, add_cash_weight,
  new_point, BacktestResult, run_backtest, opening_books,
}
use project_fifty.Prelude.{
  ℕ, suc, String, ◌≡◌, ◌-◌, ◌≤◌, refl, sym, ap, subst, inl, inr, true, ltb, leb, arith, Option,
  none, some, List, [], ◌∷◌, ◌++◌, ◌∙◌,
}
use project_fifty.Prelude.Dict.{Dict, lookup_or}
use project_fifty.Prelude.Sort.{All}
use project_fifty.Prelude.Seq.{length}
use project_fifty.Outcome.{ok, >>=-eq-ok, >>-eq-ok, ok_injective, raise_if, Result-cases}
use project_fifty.Decimal.{max}
use mathlib.Core.List.{IsPrefix, append_assoc, append-nil}
use project_fifty.Backtest.Engine.Truncate.{
  until-split, until-All, history_until-history_until, bars_at-history_until,
  lookup_or-history_until,
}
use project_fifty.Backtest.History.{History, until, history_until, check_order}
use project_fifty.Strategies.Contracts.{MarketBar, TargetPortfolio, is_late}

IsPrefix-trans {ℓ} :
    {A : Type ℓ} (xs ys zs : List A) → IsPrefix xs ys → IsPrefix ys zs → IsPrefix xs zs
IsPrefix-trans xs ys zs (a, p) (c, q) = (a ++ c, sym (append_assoc xs a c) ∙ ap (λ l. l ++ c) p ∙ q)

IsPrefix-refl {ℓ} : {A : Type ℓ} (xs : List A) → IsPrefix xs xs
IsPrefix-refl xs = ([], append-nil xs)

module _ {M : Type 0} (engine : BacktestEngine M) (benchmark : String) (start : Option ℕ) where
  step-history_until :
      (history : History) (last time execution : ℕ) (b : Books M)
      → time ≤ last
      → execution ≤ last
      → step engine (history_until last history) benchmark start time execution b
        ≡ step engine history benchmark start time execution b
  unfolding step decide_at
  step-history_until history last time execution b h k =
      rw
        (
          history_until-history_until time last history h,
          bars_at-history_until execution last history k,
        )
        refl

  steps-history_until :
      (history : History) (last time : ℕ) (bars : List MarketBar) (b : Books M)
      → time ≤ last
      → All (λ bar. bar.timestamp ≤ last) bars
      → steps engine (history_until last history) benchmark start time bars b
        ≡ steps engine history benchmark start time bars b
  unfolding steps
  steps-history_until history last time [] b h k = refl
  steps-history_until history last time (bar ∷ bars) b h k =
      rw (step-history_until history last time bar.timestamp b h k.0)
        (elim (Result-cases (step engine history benchmark start time bar.timestamp b)) [
          | inr (e, raised) ↦ rw raised refl
          | inl (b1, stepped) ↦
              rw stepped (steps-history_until history last bar.timestamp bars b1 k.0 k.1)
        ])

  steps_from-history_until :
      (history : History) (last index : ℕ) (bars : List MarketBar) (b : Books M)
      → All (λ bar. bar.timestamp ≤ last) bars
      → steps_from engine (history_until last history) benchmark start index bars b
        ≡ steps_from engine history benchmark start index bars b
  unfolding steps_from
  steps_from-history_until history last index [] b k = refl
  steps_from-history_until history last ℕ.zero (bar ∷ bars) b k =
      steps-history_until history last bar.timestamp bars b k.0 k.1
  steps_from-history_until history last (suc index) (bar ∷ bars) b k =
      steps_from-history_until history last index bars b k.1

  settle-IsPrefix :
      (time execution : ℕ) (bars : Dict MarketBar) (target : TargetPortfolio)
      (p : Option RebalancePlan) (b b' : Books M)
      → settle engine time execution bars target p b ≡ ok b'
      → IsPrefix b.points b'.points
  unfolding settle
  settle-IsPrefix time execution bars target p b b' h =
      let (before, _, h1) = >>=-eq-ok (portfolio_state engine.config b.cash b.positions _) _ h in
      let (t, _, h2) =
        >>=-eq-ok (rebalance engine.config b.cash b.positions before.nav target.weights _ p) _ h1 in
      let (after, _, h3) = >>=-eq-ok (portfolio_state engine.config t.cash t.positions _) _ h2 in
      let (drawdown, _, h4) =
        >>=-eq-ok (deepen b.max_drawdown (max b.peak_nav after.nav) after.nav) _ h3 in
      let (weights, _, h5) = >>=-eq-ok (add_cash_weight b.cash_weight_sum after) _ h4 in
      (new_point time execution t after ∷ [], ap (λ (x : Books M). x.points) (ok_injective _ _ h5))

  -- The loop only adds points.
  steps-IsPrefix :
      (history : History) (time : ℕ) (bars : List MarketBar) (b b' : Books M)
      → check_order (some time) bars ≡ ok tt
      → steps engine history benchmark start time bars b ≡ ok b'
      → IsPrefix b.points b'.points
  steps-IsPrefix history time bars b b' ordered h =
      steps-keep engine benchmark start history (λ _. Unit) (λ x. IsPrefix b.points x.points)
        (λ x m k. k)
        (λ s e bs target p x x' order begun q settled k.
          IsPrefix-trans b.points x.points x'.points k
            (settle-IsPrefix s e bs target p x x' settled))
        time bars b b' ordered (All-any bars) h (IsPrefix-refl b.points)

  -- More bars at the end only add points.
  steps-more :
      (history : History) (time : ℕ) (bars more : List MarketBar) (b b1 b2 : Books M)
      → check_order (some time) (bars ++ more) ≡ ok tt
      → steps engine history benchmark start time bars b ≡ ok b1
      → steps engine history benchmark start time (bars ++ more) b ≡ ok b2
      → IsPrefix b1.points b2.points
  unfolding steps check_order
  steps-more history time [] more b b1 b2 ordered h k =
      subst (λ (x : Books M). IsPrefix x.points b2.points) (ok_injective _ _ h)
        (steps-IsPrefix history time more b b2 ordered k)
  steps-more history time (bar ∷ bars) more b b1 b2 ordered h k =
      let (_, rest) = >>-eq-ok (raise_if (leb bar.timestamp time) _) _ ordered in
      let (x, first, h1) =
        >>=-eq-ok (step engine history benchmark start time bar.timestamp b) _ h in
      let (y, second, k1) =
        >>=-eq-ok (step engine history benchmark start time bar.timestamp b) _ k in
      steps-more history bar.timestamp bars more x b1 b2 rest h1 (
        subst
          (λ (z : Books M).
            steps engine history benchmark start bar.timestamp (bars ++ more) z ≡ ok b2)
          (ok_injective y x (sym second ∙ first)) k1)

  steps_from-more :
      (history : History) (index : ℕ) (previous : Option ℕ) (bars more : List MarketBar)
      (b b1 b2 : Books M)
      → ltb index (length bars) ≡ true
      → check_order previous (bars ++ more) ≡ ok tt
      → steps_from engine history benchmark start index bars b ≡ ok b1
      → steps_from engine history benchmark start index (bars ++ more) b ≡ ok b2
      → IsPrefix b1.points b2.points
  unfolding steps_from check_order length
  steps_from-more history index previous [] more b b1 b2 long ordered h k = absurd (ground arith)
  steps_from-more history ℕ.zero previous (bar ∷ bars) more b b1 b2 long ordered h k =
      let (_, rest) = >>-eq-ok (raise_if (is_late previous bar.timestamp) _) _ ordered in
      steps-more history bar.timestamp bars more b b1 b2 rest h k
  steps_from-more history (suc index) previous (bar ∷ bars) more b b1 b2 long ordered h k =
      let (_, rest) = >>-eq-ok (raise_if (is_late previous bar.timestamp) _) _ ordered in
      steps_from-more history index (some bar.timestamp) bars more b b1 b2 (ground arith) rest h k

-- Where a replay on the bars up to a moment and one on all bars both return, the points of the first
-- are the first points of the second: bars after the moment change no point up to it.
pub run_backtest-IsPrefix :
    {M : Type 0} (engine : BacktestEngine M) (memory : M) (history : History) (benchmark : String)
    (start : Option ℕ) (last : ℕ) (r r' : BacktestResult)
    → run_backtest engine memory (history_until last history) benchmark start ≡ ok r
    → run_backtest engine memory history benchmark start ≡ ok r'
    → IsPrefix r.points r'.points
run_backtest-IsPrefix engine memory history benchmark start last r r' h k =
    let bars = lookup_or [] benchmark history in
    let index = engine.config.warmup_bars - 1 in
    let books = opening_books engine.config memory in
    let (_, long, (b, early, points, _)) =
      run_backtest-steps engine memory (history_until last history) benchmark start r h in
    let (checked, _, (b', full, points', _)) =
      run_backtest-steps engine memory history benchmark start r' k in
    let ordered = lookup_or-ordered benchmark history checked in
    let cut = lookup_or-history_until last benchmark history in
    let (others, split) = until-split last none bars ordered in
    let seen = until last bars in
    rw (points, points')
      (steps_from-more engine benchmark start history index none seen others books b b'
        (subst (λ (x : List MarketBar). ltb index (length x) ≡ true) cut (ground arith))
        (subst (λ (x : List MarketBar). check_order none x ≡ ok tt) split ordered)
        (sym (
            steps_from-history_until engine benchmark start history last index seen books
              (until-All last bars))
          ∙ subst
              (λ (x : List MarketBar).
                steps_from engine (history_until last history) benchmark start index x books ≡ ok b)
              cut early)
        (subst
          (λ (x : List MarketBar). steps_from engine history benchmark start index x books ≡ ok b')
          split full))

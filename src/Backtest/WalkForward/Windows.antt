-- ===== src/Backtest/WalkForward/Windows.antt =====
-- The walk forward ends, and each of its windows trades only inside the window.
use project_fifty.Strategies.Contracts.Allocation.{raise_if-eq-ok}
use project_fifty.Backtest.Engine.Keep.{run_backtest-steps}
use project_fifty.Strategies.Contracts.{MarketBar, is_empty}
use project_fifty.Backtest.History.{History, history_until, check_symbols, check_order}
use project_fifty.Backtest.Engine.{BacktestEngine, run_backtest}
use project_fifty.Prelude.{
  ℕ, suc, String, ◌≡◌, ◌+◌, ◌≤◌, refl, sym, ap, subst, inl, inr, false, ltb, str_eq, arith, Option,
  none, some, List, [], ◌∷◌, Bool-cases, ◌||◌,
}
use project_fifty.Prelude.Dict.{lookup_or}
use project_fifty.Prelude.Sort.{All}
use project_fifty.Prelude.Seq.{length}
use project_fifty.Outcome.{Result, ok, err, ◌>>=◌, >>=-eq-ok, >>-eq-ok, ok_injective, raise_if}
use project_fifty.Backtest.Engine.Outcomes.{IsPoint, run_backtest-points}
use project_fifty.Backtest.Engine.Truncate.{lookup_or-history_until, until-All}
use project_fifty.Backtest.WalkForward.{
  WalkForwardConfig, WalkForwardWindow, evaluate_window, windows_from, add_window, time_at,
  evaluate_windows,
}

-- The points of a window are decided at or after its start, and traded after the decision and no
-- later than its end.
abbrev pub IsWindow : WalkForwardWindow → Type 0
IsWindow w = All (IsPoint (some w.test_start) (λ time. time ≤ w.test_end)) w.outcome.points

module _ {M : Type 0} (engine : BacktestEngine M) (fresh : M) (config : WalkForwardConfig)
    (history : History) (benchmark : String) where
  evaluate_window-IsWindow :
      (bars : List MarketBar) (start : ℕ) (w : WalkForwardWindow)
      → evaluate_window engine fresh config history benchmark bars start ≡ ok w
      → IsWindow w
  unfolding evaluate_window
  evaluate_window-IsWindow bars start w h =
      let (test_start, _, h1) = >>=-eq-ok (time_at start bars) _ h in
      let (test_end, _, h2) = >>=-eq-ok (time_at (start + config.test_bars) bars) _ h1 in
      let (r, ran, h3) =
        >>=-eq-ok
          (run_backtest engine fresh (history_until test_end history) benchmark (some test_start)) _
          h2 in
      subst IsWindow (ok_injective _ _ h3)
        (run_backtest-points engine benchmark (some test_start) (history_until test_end history)
          (λ time. time ≤ test_end) fresh r
          (subst (All (λ (bar : MarketBar). bar.timestamp ≤ test_end))
            (sym (lookup_or-history_until test_end benchmark history))
            (until-All test_end (lookup_or [] benchmark history)))
          ran).0

  abbrev Answers : Option (Result (List WalkForwardWindow)) → Type 0
  Answers answer = (r : Result (List WalkForwardWindow)) × (answer ≡ some r)

  add_window-Answers :
      (window : Result WalkForwardWindow) (rest : Option (Result (List WalkForwardWindow)))
      → Answers rest
      → Answers (add_window window rest)
  add_window-Answers (err e) rest (r, h) = (err e, refl)
  add_window-Answers (ok window) rest (r, h) =
      ((r >>= λ windows. ok (window ∷ windows)), ap (add_window (ok window)) h)

  windows_from-Answers :
      (bars : List MarketBar) (fuel start : ℕ)
      → 1 ≤ config.step_bars
      → length bars ≤ start + fuel
      → Answers (windows_from engine fresh config history benchmark bars (suc fuel) start)
  unfolding windows_from
  windows_from-Answers bars ℕ.zero start positive enough =
      elim (Bool-cases (ltb (start + config.test_bars) (length bars))) [
        | inr done ↦ rw done (ok [], refl)
        | inl more ↦ absurd (ground arith)
      ]
  windows_from-Answers bars (suc fuel) start positive enough =
      elim (Bool-cases (ltb (start + config.test_bars) (length bars))) [
        | inr done ↦ rw done (ok [], refl)
        | inl more ↦ rw more (
            add_window-Answers (evaluate_window engine fresh config history benchmark bars start)
              (windows_from engine fresh config history benchmark bars (suc fuel)
                (start + config.step_bars))
              (windows_from-Answers bars fuel (start + config.step_bars) positive (omega arith)))
      ]

  abbrev AreWindows : Option (Result (List WalkForwardWindow)) → Type 0
  AreWindows answer =
      (windows : List WalkForwardWindow) → answer ≡ some (ok windows) → All IsWindow windows

  add_window-AreWindows :
      (window : Result WalkForwardWindow) (rest : Option (Result (List WalkForwardWindow)))
      → ((w : WalkForwardWindow) → window ≡ ok w → IsWindow w)
      → AreWindows rest
      → AreWindows (add_window window rest)
  add_window-AreWindows (err e) rest first later windows h = cc
  add_window-AreWindows (ok w) none first later windows h = cc
  add_window-AreWindows (ok w) (some (err e)) first later windows h = cc
  add_window-AreWindows (ok w) (some (ok ws)) first later windows h =
      subst (All IsWindow) {x = w ∷ ws} {y = windows} (ground arith) (first w refl, later ws refl)

  windows_from-AreWindows :
      (bars : List MarketBar) (fuel start : ℕ)
      → AreWindows (windows_from engine fresh config history benchmark bars fuel start)
  unfolding windows_from
  windows_from-AreWindows bars ℕ.zero start = λ windows h. cc
  windows_from-AreWindows bars (suc fuel) start =
      elim (Bool-cases (ltb (start + config.test_bars) (length bars))) [
        | inr done ↦ λ windows h. subst (All IsWindow) {x = []} {y = windows} (ground arith) tt
        | inl more ↦ rw more (
            add_window-AreWindows (evaluate_window engine fresh config history benchmark bars start)
              (windows_from engine fresh config history benchmark bars fuel
                (start + config.step_bars))
              (evaluate_window-IsWindow bars start)
              (windows_from-AreWindows bars fuel (start + config.step_bars)))
      ]

-- With windows that move forward, the evaluation ends: the rounds that the fuel allows are enough
-- to reach a result or an error of the replay.
pub evaluate_windows-some :
    {M : Type 0} (engine : BacktestEngine M) (fresh : M) (config : WalkForwardConfig)
    (history : History) (benchmark : String)
    → 1 ≤ config.step_bars
    → (r : Result (List WalkForwardWindow)) × (evaluate_windows engine fresh config history
          benchmark
        ≡ some r)
unfolding evaluate_windows
evaluate_windows-some engine fresh config history benchmark positive =
    windows_from-Answers engine fresh config history benchmark (lookup_or [] benchmark history)
      (length (lookup_or [] benchmark history)) config.train_bars positive (omega arith)

-- Every point of a window is decided at or after the window's start and traded no later than its
-- end, after the decision, with no negative cash, net asset value or quantity.
pub evaluate_windows-IsWindow :
    {M : Type 0} (engine : BacktestEngine M) (fresh : M) (config : WalkForwardConfig)
    (history : History) (benchmark : String) (windows : List WalkForwardWindow)
    → evaluate_windows engine fresh config history benchmark ≡ some (ok windows)
    → All IsWindow windows
unfolding evaluate_windows
evaluate_windows-IsWindow engine fresh config history benchmark windows h =
    windows_from-AreWindows engine fresh config history benchmark (lookup_or [] benchmark history)
      (suc (length (lookup_or [] benchmark history))) config.train_bars windows h

check_symbols-IsListed :
    (history : History)
    → check_symbols history ≡ ok tt
    → All (λ entry. (is_empty entry.1 ≡ false) × (check_order none entry.1 ≡ ok tt)) history
unfolding check_symbols
check_symbols-IsListed [] h = tt
check_symbols-IsListed ((symbol, bars) ∷ history) h =
    let (named, h1) = >>-eq-ok (raise_if (str_eq symbol "" || is_empty bars) _) _ h in
    let (ordered, rest) = >>-eq-ok (check_order none bars) _ h1 in
    let listed = raise_if-eq-ok (str_eq symbol "" || is_empty bars) _ named in
    ((ground arith, ordered), check_symbols-IsListed history rest)

-- A window whose replay returns has, for every symbol of the history, a bar no later than the
-- window's end, and those bars strictly increase in time; a symbol without one raises.
pub evaluate_window-IsListed :
    {M : Type 0} (engine : BacktestEngine M) (fresh : M) (config : WalkForwardConfig)
    (history : History) (benchmark : String) (bars : List MarketBar) (start : ℕ)
    (w : WalkForwardWindow)
    → evaluate_window engine fresh config history benchmark bars start ≡ ok w
    → All
        (λ entry. (is_empty entry.1 ≡ false) × (check_order none entry.1 ≡ ok tt))
        (history_until w.test_end history)
unfolding evaluate_window
evaluate_window-IsListed engine fresh config history benchmark bars start w h =
    let (test_start, _, h1) = >>=-eq-ok (time_at start bars) _ h in
    let (test_end, _, h2) = >>=-eq-ok (time_at (start + config.test_bars) bars) _ h1 in
    let (r, ran, h3) =
      >>=-eq-ok
        (run_backtest engine fresh (history_until test_end history) benchmark (some test_start)) _
        h2 in
    let (checked, _, _) =
      run_backtest-steps engine fresh (history_until test_end history) benchmark (some test_start) r
        ran in
    subst
      (λ (x : WalkForwardWindow).
        All (λ entry. (is_empty entry.1 ≡ false) × (check_order none entry.1 ≡ ok tt))
          (history_until x.test_end history))
      (ok_injective _ _ h3) (check_symbols-IsListed (history_until test_end history) checked)

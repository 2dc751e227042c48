-- ===== src/Session/Runner/Repeat.antt =====
-- What a cycle does to the kernel, and that a bar is decided on once.
use project_fifty.Kernel.Handle.{emit}
use project_fifty.Session.Runner.Cycle.{Turn, run_cycle, act, decide_cycle}
use project_fifty.Broker.{BrokerAdapter}
use project_fifty.Session.Runner.{
  Runner, SessionCycleResult, last_completed_bar, prepare, benchmark_bar, Prepared,
}
use project_fifty.Kernel.State.{Kernel}
use project_fifty.Prelude.{ℕ, String, ◌≡◌, ◌⊎◌, ◌∙◌, refl, ap, subst, inl, inr, arith, some, List}
use project_fifty.Prelude.Dict.{Dict}
use project_fifty.Outcome.{Result, ok, err, Result-cases}
use project_fifty.Outcome.Action.{pure, read, ◌>>=◌}
use project_fifty.Outcome.Hoare.{Ends}
use project_fifty.Ledger.Events.{Event}
use project_fifty.Strategies.Contracts.{MarketBar, StrategyContext}
use project_fifty.Session.Runner.Once.{
  IsNewBar, IsDecided, last_completed_bar-snoc, prepare-ready, decide_cycle-IsDecided,
}

-- The kernel's fields, its control state and the broker are as they were.
abbrev pub IsUntouched : {S : Type 0} → Kernel S → Kernel S → Type 0
IsUntouched k k' = (k'.memory ≡ k.memory) × (k'.control ≡ k.control) × (k'.broker ≡ k.broker)

module _ (r : Runner) (B : BrokerAdapter) (turn : Turn) where
  -- A cycle that does not decide says why, proposes nothing, and leaves all but the ledger alone.
  abbrev pub IsIdle : Kernel B.State → SessionCycleResult → Kernel B.State → Type 0
  IsIdle k result k' =
      ((reason : String) × (result.skipped_reason ≡ some reason))
      × (result.proposal_count ≡ 0)
      × IsUntouched k k'
      × (last_completed_bar k'.ledger ≡ last_completed_bar k.ledger)

  abbrev pub IsCycle : Kernel B.State → SessionCycleResult → Kernel B.State → Type 0
  IsCycle k result k' =
      IsIdle k result k'
      ⊎ ((time : ℕ) × IsNewBar r turn.market k.ledger time × IsDecided r B turn time result k')

  Ends-decided :
      (k : Kernel B.State) (time : ℕ) (x : Result SessionCycleResult × Kernel B.State)
      → IsNewBar r turn.market k.ledger time
      → Ends (IsDecided r B turn time) (λ _. Unit {0}) x
      → Ends (IsCycle k) (λ _. Unit {0}) x
  Ends-decided k time (ok result, k') new h = inr (time, new, h)
  Ends-decided k time (err e, k') new h = tt

  act-IsCycle :
      (p : Prepared) (k : Kernel B.State)
      → ((time : ℕ) (context : StrategyContext)
          → p ≡ Prepared.ready time context
          → IsNewBar r turn.market k.ledger time)
      → Ends (IsCycle k) (λ _. Unit {0}) (act r B turn p k)
  unfolding act emit pure ◌>>=◌
  act-IsCycle Prepared.closed k new = inl (("market_closed", refl), refl, (refl, refl, refl), refl)
  act-IsCycle (Prepared.skipped reason) k new = inl (
    (reason, refl),
    refl,
    (refl, refl, refl),
    last_completed_bar-snoc k.ledger (Event.strategy_cycle_skipped turn.now reason),
  )
  act-IsCycle (Prepared.duplicate time) k new =
      inl (("duplicate_decision_bar", refl), refl, (refl, refl, refl), refl)
  act-IsCycle (Prepared.ready time context) k new =
      Ends-decided k time (decide_cycle r B turn time context k) (new time context refl)
        ((decide_cycle-IsDecided r B turn time context).at k tt)

  act-IsUntouched :
      (p : Prepared) (k : Kernel B.State)
      → ((time : ℕ) (context : StrategyContext) → ¬ (p ≡ Prepared.ready time context))
      → IsUntouched k (act r B turn p k).1
  unfolding act emit pure ◌>>=◌
  act-IsUntouched Prepared.closed k never = (refl, refl, refl)
  act-IsUntouched (Prepared.skipped reason) k never = (refl, refl, refl)
  act-IsUntouched (Prepared.duplicate time) k never = (refl, refl, refl)
  act-IsUntouched (Prepared.ready time context) k never = absurd (never time context refl)

  -- A cycle that returns was idle, or decided on a bar that is the benchmark's last in the history
  -- it was given and not the bar that the ledger has as decided on. An idle one says why, proposes
  -- nothing and leaves the kernel's fields, the control state and the broker alone; one that decided
  -- leaves its bar in the ledger as decided on, and approved or rejected each of its proposals.
  pub run_cycle-IsCycle :
      (k : Kernel B.State) (result : SessionCycleResult) (k' : Kernel B.State)
      → run_cycle r B turn k ≡ (ok result, k')
      → IsCycle k result k'
  unfolding run_cycle read ◌>>=◌
  run_cycle-IsCycle k result k' h = elim (Result-cases (prepare r turn.market turn.now k.ledger)) [
    | inr (e, raised) ↦ absurd (ground arith)
    | inl (p, prepared) ↦
        subst (Ends (IsCycle k) (λ _. Unit {0})) {x = act r B turn p k} {y = (ok result, k')}
          (ground arith)
          (act-IsCycle p k λ time context e.
            prepare-ready r turn.market turn.now k.ledger time context (prepared ∙ ap ok e))
  ]

  absent-IsNewBar :
      (k : Kernel B.State) (time : ℕ)
      → last_completed_bar k.ledger ≡ some time
      → ((symbols : List String) (start end : ℕ) (history : Dict (List MarketBar)) (bar : MarketBar)
          → turn.market.get_bars symbols start end ≡ ok history
          → benchmark_bar r history ≡ some bar
          → bar.timestamp ≡ time)
      → (t : ℕ) → ¬ IsNewBar r turn.market k.ledger t
  absent-IsNewBar k time decided ends t (new, (symbols, start, end, history, bar, got, found, at)) =
      let same = ends symbols start end history bar got found in absurd (ground arith)

  -- Where the ledger has a bar as decided on and every history that the market gives ends with that
  -- bar for the benchmark, the cycle leaves the kernel's fields, the control state and the broker
  -- alone, also where it raises.
  pub run_cycle-IsUntouched :
      (k : Kernel B.State) (time : ℕ)
      → last_completed_bar k.ledger ≡ some time
      → ((symbols : List String) (start end : ℕ) (history : Dict (List MarketBar)) (bar : MarketBar)
          → turn.market.get_bars symbols start end ≡ ok history
          → benchmark_bar r history ≡ some bar
          → bar.timestamp ≡ time)
      → IsUntouched k (run_cycle r B turn k).1
  unfolding run_cycle read ◌>>=◌
  run_cycle-IsUntouched k time decided ends =
      elim (Result-cases (prepare r turn.market turn.now k.ledger)) [
        | inr (e, raised) ↦ rw raised (refl, refl, refl)
        | inl (p, prepared) ↦ rw prepared (
            act-IsUntouched p k λ t context e.
              absent-IsNewBar k time decided ends t
                (prepare-ready r turn.market turn.now k.ledger t context (prepared ∙ ap ok e)))
      ]

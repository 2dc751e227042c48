-- ===== src/Kernel/Restart/History.antt =====
-- Any history of proposals, reports and restarts.
use project_fifty.Prelude.{ℕ, String, ◌≡◌, refl, false, List, [], ◌∷◌}
use project_fifty.Prelude.Dict.{lookup, has_key}
use project_fifty.Outcome.{Result, ok, err}
use project_fifty.Outcome.Hoare.{Ends}
use project_fifty.Domain.{TradeProposal, ExecutionReport}
use project_fifty.Settings.{Settings}
use project_fifty.Broker.{BrokerAdapter}
use project_fifty.Control.{ControlState}
use project_fifty.Kernel.State.{Kernel, hydrate, blank_memory, start_kernel}
use project_fifty.Kernel.Handle.{handle_proposal, reconcile_execution_report}
use project_fifty.Kernel.Restart.Events.{IsSynced, anything}
use project_fifty.Kernel.Restart.Reports.{reconcile_execution_report-Keeps}
use project_fifty.Kernel.Restart.Proposals.{handle_proposal-synced}

-- A proposal with the uuid and the time of its handling, a report that comes in later, and a
-- restart, which may set the control state anew.
pub data Command : Type 0 where
  propose : String → ℕ → TradeProposal → Command
  report : ExecutionReport → Command
  restart : ControlState → Command

-- A call that raises leaves what it wrote; a restart that fails leaves no new kernel.
abbrev after_restart : {S : Type 0} → Kernel S → Result (Kernel S) → Kernel S
after_restart k (ok k') = k'
after_restart k (err _) = k

module _ (s : Settings) (B : BrokerAdapter) where
  unfoldable pub step : Command → Kernel B.State → Kernel B.State
  step (propose uuid now p) k = (handle_proposal s B uuid now p k).1
  step (report r) k = (reconcile_execution_report s r k).1
  step (restart control) k = after_restart k (start_kernel control k.broker k.ledger)

  unfoldable pub run : List Command → Kernel B.State → Kernel B.State
  run [] k = k
  run (c ∷ commands) k = run commands (step c k)

  -- The uuid of a new order is that of no order so far.
  abbrev pub IsNewId : Command → Kernel B.State → Type 0
  IsNewId (propose uuid now p) k = has_key uuid k.memory.state_by_order ≡ false
  IsNewId _ k = Unit {0}

  abbrev pub AreNewIds : List Command → Kernel B.State → Type 0
  AreNewIds [] k = Unit {0}
  AreNewIds (c ∷ commands) k = IsNewId c k × AreNewIds commands (step c k)

  Ends-IsSynced :
      {A : Type 0} (r : Result A × Kernel B.State)
      → Ends (λ _. IsSynced anything) (IsSynced anything) r
      → IsSynced anything r.1
  Ends-IsSynced (ok a, k) h = h
  Ends-IsSynced (err e, k) h = h

  pub start_kernel-synced :
      (control : ControlState) (k : Kernel B.State)
      → IsSynced anything k
      → start_kernel control k.broker k.ledger ≡ ok (record k { control = control })
  unfolding start_kernel
  start_kernel-synced control k h = rw (start_kernel, h.hydrated) refl

  pub step-IsSynced :
      (c : Command) (k : Kernel B.State)
      → IsNewId c k
      → IsSynced anything k
      → IsSynced anything (step c k)
  unfolding step
  step-IsSynced (propose uuid now p) k new h = Ends-IsSynced (handle_proposal s B uuid now p k) (
      (handle_proposal-synced s B uuid now p).at k
        (record { hydrated = h.hydrated; linked = h.linked; frame = new }))
  step-IsSynced (report r) k new h =
      Ends-IsSynced (reconcile_execution_report s r k)
        ((reconcile_execution_report-Keeps s r).at k h)
  step-IsSynced (restart control) k new h =
      rw (start_kernel-synced control k h)
        (record { hydrated = h.hydrated; linked = h.linked; frame = tt })

  pub run-IsSynced :
      (commands : List Command) (k : Kernel B.State)
      → AreNewIds commands k
      → IsSynced anything k
      → IsSynced anything (run commands k)
  unfolding run
  run-IsSynced [] k new h = h
  run-IsSynced (c ∷ commands) k new h =
      run-IsSynced commands (step c k) new.1 (step-IsSynced c k new.0 h)

  -- A kernel with no history
  abbrev pub first_kernel : ControlState → B.State → Kernel B.State
  first_kernel control broker = record {
    memory = blank_memory;
    ledger = [];
    control = control;
    broker = broker;
  }

  pub first_kernel-IsSynced :
      (control : ControlState) (broker : B.State) → IsSynced anything (first_kernel control broker)
  first_kernel-IsSynced control broker = record {
    hydrated = unfold hydrate in refl;
    linked = λ key id e. absurd (unfold lookup in cc);
    frame = tt;
  }

  -- A restart loses nothing and does not fail: after any history of proposals, later reports and
  -- restarts, in which calls may raise and every new order gets an id that no order has, a kernel
  -- that is built from the ledger alone has exactly the fields of the running one.
  pub restart-run :
      (control control' : ControlState) (broker : B.State) (commands : List Command)
      → AreNewIds commands (first_kernel control broker)
      → let k = run commands (first_kernel control broker) in
        start_kernel control' k.broker k.ledger ≡ ok (record k { control = control' })
  restart-run control control' broker commands new =
      start_kernel-synced control' (run commands (first_kernel control broker)) (
        run-IsSynced commands (first_kernel control broker) new
          (first_kernel-IsSynced control broker))

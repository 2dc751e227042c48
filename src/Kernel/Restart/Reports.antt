-- ===== src/Kernel/Restart/Reports.antt =====
-- Reports that come in later: the fields and the ledger stay in step.
use project_fifty.Prelude.{String, ◌≡◌, Option, none, some, str_eq}
use project_fifty.Prelude.Dict.{lookup}
use project_fifty.Outcome.{Error, Result, ok, err, ok_injective}
use project_fifty.Outcome.Action.{Action, ◌>>=◌, choose, read, pure, raise}
use project_fifty.Outcome.Hoare.{Triple, Ends, Triple-bind, Triple-read}
use project_fifty.Domain.{OrderStatus, ExecutionReport}
use project_fifty.Settings.{Settings}
use project_fifty.Kernel.State.{Kernel}
use project_fifty.Kernel.Handle.{
  identity_changed, transition_order, enter_safe_mode, reconcile_order, reconcile_execution_report,
}
use project_fifty.Kernel.Restart.Events.{
  Frame, IsSynced, anything, IsSynced-weaken, record_report-IsSynced,
}
use project_fifty.Kernel.Restart.Transitions.{Has, transition_order-IsSynced}
use project_fifty.Kernel.Restart.Methods.{
  Keeps, Keeps-bind, Keeps-pure, Keeps-raise, Keeps-read, Keeps-choose, enter_safe_mode-Keeps,
  append_reconciliation-Keeps,
}

-- From a state with the frame, the step is kept; what the frame says may be lost.
abbrev pub EndsSynced : {S A : Type 0} → Frame → Action (Kernel S) A → Type 0
EndsSynced F m = Triple (IsSynced F) m (λ _. IsSynced anything) (IsSynced anything)

loosen-Ends :
    {S A : Type 0} (F : Frame) (r : Result A × Kernel S)
    → Ends (λ _. IsSynced F) (IsSynced anything) r
    → Ends (λ _. IsSynced anything) (IsSynced anything) r
loosen-Ends F (ok a, k) h = IsSynced-weaken k h
loosen-Ends F (err e, k) h = h

module _ {S A : Type 0} {F : Frame} where
  pub loosen : {m : Action (Kernel S) A} → Keeps F m → EndsSynced F m
  loosen {m} t = record { at = λ k h. loosen-Ends F (m k) (t.at k h) }

  pub forget : {m : Action (Kernel S) A} → Keeps anything m → EndsSynced F m
  forget t = record { at = λ k h. t.at k (IsSynced-weaken k h) }

-- The frame of an order that was looked up
abbrev pub HasOption : Option String → Frame
HasOption none = anything
HasOption (some id) = Has id

module _ {S : Type 0} where
  linked_option :
      (k : Kernel S) (key : String) (found : Option String)
      → IsSynced anything k
      → lookup key k.memory.intent_id_by_key ≡ found
      → IsSynced (HasOption found) k
  linked_option k key none h e = h
  linked_option k key (some id) h e = record {
    hydrated = h.hydrated;
    linked = h.linked;
    frame = h.linked key id e;
  }

  pub read_order :
      (key : String)
      → Triple {S = Kernel S}
          (IsSynced anything)
          (read (λ k. ok (lookup key k.memory.intent_id_by_key)))
          (λ found. IsSynced (HasOption found))
          (IsSynced anything)
  read_order key =
      Triple-read _ (λ k found e h. linked_option k key found h (ok_injective _ _ e)) (λ k h. h)

  -- A move that is refused puts the kernel in safe mode and raises.
  pub move_or_raise :
      (id : String) (to : OrderStatus) (e : Error)
      → Keeps {S = S} {A = Unit {0}} (Has id) (
          transition_order id to >>= λ done.
          choose done (pure tt) (enter_safe_mode >>= λ _. raise e))
  move_or_raise id to e = Keeps-bind _ _ (transition_order-IsSynced id to) λ done.
      Keeps-choose done _ _ (Keeps-pure tt)
        (Keeps-bind _ _ enter_safe_mode-Keeps λ _. Keeps-raise e)

  reconcile_order-synced :
      (s : Settings) (found : Option String) (status : OrderStatus)
      → EndsSynced {S = S} (HasOption found) (reconcile_order s found status)
  unfolding reconcile_order
  reconcile_order-synced s none status = Keeps-pure _
  reconcile_order-synced s (some id) status = loosen (move_or_raise id _ _)

  -- Safe mode and a raise
  pub reject-Keeps :
      {A : Type 0} (e : Error) → Keeps {S = S} {A = A} anything (enter_safe_mode >>= λ _. raise e)
  reject-Keeps e = Keeps-bind _ _ enter_safe_mode-Keeps λ _. Keeps-raise e

  pub reconcile_execution_report-Keeps :
      (s : Settings) (r : ExecutionReport) → Keeps {S = S} anything (reconcile_execution_report s r)
  unfolding reconcile_execution_report
  reconcile_execution_report-Keeps s r = Keeps-bind _ _ (Keeps-read _) λ is_known.
      Keeps-choose is_known _ _
        (Keeps-choose (str_eq r.currency s.account_currency) _ _
          (Keeps-bind _ _ (Keeps-read _) λ known_key.
            Keeps-choose (identity_changed known_key r.idempotency_key) _ _ (reject-Keeps _) (
              Keeps-bind _ _ (record_report-IsSynced r) λ _.
                Triple-bind _ _ (λ found. IsSynced (HasOption found)) (read_order r.idempotency_key)
                  λ found.
                    Triple-bind _ _ (λ _. IsSynced anything)
                      (reconcile_order-synced s found r.status) λ _. append_reconciliation-Keeps s))
          (reject-Keeps _))
        (reject-Keeps _)

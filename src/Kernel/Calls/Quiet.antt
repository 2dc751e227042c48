-- ===== src/Kernel/Calls/Quiet.antt =====
-- The methods that do not call the broker: they leave its state alone, and the known keys only grow.
use project_fifty.Prelude.{
  none, some, String, ◌≡◌, inl, inr, Bool, false, arith, contains, add_key, List, Bool-cases,
  Option, str_eq,
}
use project_fifty.Outcome.{Error, Result, ok, err}
use project_fifty.Outcome.Action.{Action, ◌>>=◌, choose, read, pure, raise}
use project_fifty.Outcome.Hoare.{
  Triple, Ends, Triple-bind, Triple-pure, Triple-raise, Triple-read, Triple-choose,
}
use project_fifty.Domain.{ExperimentMode, OrderStatus, ExecutionReport, mode_eq, status_eq}
use project_fifty.Settings.{Settings}
use project_fifty.Control.{ControlState, transition_mode}
use project_fifty.StateMachine.{transition}
use project_fifty.Ledger.Events.{Event}
use project_fifty.Kernel.State.{
  Memory, Kernel, know_key, note_status, note_report, note_broker_order, ensure_machine,
  machine_status,
}
use project_fifty.Kernel.Handle.{
  emit, remember, set_control, enter_safe_mode, record_report, transition_order, moved,
  state_transition_failure, append_reconciliation, reconcile_order, reconcile_execution_report,
  normalise_broker_state, identity_changed,
}

-- A statement about the known keys and the broker that stays true when keys are added
pub record IsStable {S : Type 0} (P : List String → S → Type 0) : Type 0 where
  pub grows : (key : String) (known : List String) (b : S) → P known b → P (add_key key known) b

module _ {S : Type 0} (P : List String → S → Type 0) (stable : IsStable P) where
  abbrev pub At : Kernel S → Type 0
  At k = P k.memory.known_idempotency_keys k.broker

  abbrev pub Quiet : {A : Type 0} → Action (Kernel S) A → Type 0
  Quiet m = Triple At m (λ _. At) At

  pub Quiet-bind :
      {A B : Type 0} (m : Action (Kernel S) A) (f : A → Action (Kernel S) B)
      → Quiet m
      → ((a : A) → Quiet (f a))
      → Quiet (m >>= f)
  Quiet-bind m f first rest = Triple-bind m f (λ _. At) first rest

  pub Quiet-pure : {A : Type 0} (a : A) → Quiet (pure a)
  Quiet-pure a = Triple-pure a (λ k h. h)

  pub Quiet-raise : {A : Type 0} (e : Error) → Quiet {A = A} (raise e)
  Quiet-raise e = Triple-raise e (λ k h. h)

  pub Quiet-read : {A : Type 0} (f : Kernel S → Result A) → Quiet (read f)
  Quiet-read f = Triple-read f (λ k a e h. h) (λ k h. h)

  pub Quiet-choose :
      {A : Type 0} (b : Bool) (m n : Action (Kernel S) A) → Quiet m → Quiet n → Quiet (choose b m n)
  Quiet-choose b m n h h' = Triple-choose b m n (λ _. h) (λ _. h')

  pub emit-Quiet : (e : Event) → Quiet (emit e)
  unfolding emit
  emit-Quiet e = record { at = λ k h. h }

  pub remember-Quiet :
      (f : Memory → Memory)
      → ((m : Memory) → (f m).known_idempotency_keys ≡ m.known_idempotency_keys)
      → Quiet (remember f)
  unfolding remember
  remember-Quiet f apart = record { at = λ k h. rw (apart k.memory) h }

  pub know_key-Quiet : (key : String) → Quiet (remember (know_key key))
  unfolding remember know_key
  know_key-Quiet key = record {
    at = λ k h. stable.grows key k.memory.known_idempotency_keys k.broker h;
  }

  set_control-Quiet :
      (k : Kernel S) (r : Result ControlState) (events : List Event)
      → At k
      → Ends (λ (_ : Unit {0}). At) At (set_control (r, events) k)
  unfolding set_control
  set_control-Quiet k (ok c) events h = h
  set_control-Quiet k (err x) events h = h

  pub enter_safe_mode-Quiet : Quiet enter_safe_mode
  unfolding enter_safe_mode
  enter_safe_mode-Quiet = record {
    at = λ k h. elim (Bool-cases (mode_eq k.control.mode ExperimentMode.dead)) [
      | inl dead ↦ rw dead h
      | inr alive ↦
          let (r, events) = transition_mode ExperimentMode.safe false k.control k.ledger in
          rw alive (set_control-Quiet k r events h)
    ];
  }

  moved-Quiet :
      (id : String) (from to : OrderStatus) (r : Result OrderStatus) (k : Kernel S)
      → At k
      → Ends (λ (_ : Bool). At) At (moved id from to r k)
  unfolding note_status
  moved-Quiet id from to (ok next) k h = h
  moved-Quiet id from to (err x) k h = h

  pub transition_order-Quiet : (id : String) (to : OrderStatus) → Quiet (transition_order id to)
  unfolding transition_order ensure_machine
  transition_order-Quiet id to = record {
    at = λ k h.
        let k' : Kernel S = record k { memory = ensure_machine id k.memory } in
        elim (Bool-cases (status_eq (machine_status id k'.memory) to)) [
          | inl there ↦ rw there h
          | inr away ↦ rw away (
              moved-Quiet id (machine_status id k'.memory) to
                (transition (machine_status id k'.memory) to) k' h)
        ];
  }

  note_broker_order-keys :
      (r : ExecutionReport) (m : Memory)
      → (note_broker_order r m).known_idempotency_keys ≡ m.known_idempotency_keys
  unfolding note_broker_order
  note_broker_order-keys r m = ground arith

  pub record_report-Quiet : (r : ExecutionReport) → Quiet (record_report r)
  unfolding record_report know_key note_report
  record_report-Quiet r = record {
    at = λ k h. elim (Bool-cases (contains r.report_id k.memory.report_ids)) [
      | inl old ↦ rw old h
      | inr new ↦
          rw (new, note_broker_order-keys r (know_key r.idempotency_key (note_report r k.memory)))
            (stable.grows r.idempotency_key k.memory.known_idempotency_keys k.broker h)
    ];
  }

  pub state_transition_failure-Quiet : Quiet state_transition_failure
  unfolding state_transition_failure
  state_transition_failure-Quiet =
      Quiet-bind _ _ enter_safe_mode-Quiet λ _. Quiet-bind _ _ (emit-Quiet _) λ _. Quiet-pure _

  pub append_reconciliation-Quiet : (s : Settings) → Quiet (append_reconciliation s)
  unfolding append_reconciliation
  append_reconciliation-Quiet s = Quiet-bind _ _ (Quiet-read _) λ _.
      Quiet-bind _ _ (emit-Quiet _) λ _.
        Quiet-bind _ _ (Quiet-read _)
          λ _. Quiet-bind _ _ (Quiet-read _) λ _. Quiet-bind _ _ (emit-Quiet _) λ _. Quiet-pure _

  -- A refusal that enters SAFE
  refuse-Quiet : {A : Type 0} (e : Error) → Quiet {A = A} (enter_safe_mode >>= λ _. raise e)
  refuse-Quiet e = Quiet-bind _ _ enter_safe_mode-Quiet λ _. Quiet-raise e

  reconcile_order-Quiet :
      (s : Settings) (found : Option String) (status : OrderStatus)
      → Quiet (reconcile_order s found status)
  unfolding reconcile_order
  reconcile_order-Quiet s none status = Quiet-pure tt
  reconcile_order-Quiet s (some id) status =
      Quiet-bind _ _ (transition_order-Quiet id (normalise_broker_state status))
        λ done. Quiet-choose done _ _ (Quiet-pure tt) (refuse-Quiet _)

  pub reconcile_execution_report-Quiet :
      (s : Settings) (r : ExecutionReport) → Quiet (reconcile_execution_report s r)
  unfolding reconcile_execution_report
  reconcile_execution_report-Quiet s r = Quiet-bind _ _ (Quiet-read _) λ is_known.
      Quiet-choose is_known _ _
        (Quiet-choose (str_eq r.currency s.account_currency) _ _
          (Quiet-bind _ _ (Quiet-read _) λ known_key.
            Quiet-choose (identity_changed known_key r.idempotency_key) _ _ (refuse-Quiet _) (
              Quiet-bind _ _ (record_report-Quiet r) λ _. Quiet-bind _ _ (Quiet-read _) λ intent_id.
                Quiet-bind _ _ (reconcile_order-Quiet s intent_id r.status)
                  λ _. append_reconciliation-Quiet s))
          (refuse-Quiet _))
        (refuse-Quiet _)

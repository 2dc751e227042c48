-- ===== src/Kernel/Handle/Records.antt =====
-- The kernel's methods that write its fields and its ledger, and the reconciliation of a report.
use project_fifty.Prelude.{
  ℕ, String, Bool, true, false, not, contains, str_eq, Option, none, some, List, [], ◌∷◌, ◌++◌,
  if◌then◌else◌,
}
use project_fifty.Prelude.Dict.{lookup}
use project_fifty.Outcome.{◌>>=◌ as bind, Result, ok, err, value_error}
use project_fifty.Outcome.Action.{Action, pure, raise, read, ◌>>=◌, ◌>>◌, choose}
use project_fifty.Domain.{
  ExperimentMode, OrderStatus, RejectionReason, TradeProposal, OrderIntent, ExecutionReport,
  RiskDecision, PortfolioState, mode_eq, status_eq, acknowledged, partially_filled, filled,
  rejected, cancel_pending, cancelled, unknown,
}
use project_fifty.Settings.{Settings}
use project_fifty.StateMachine.{transition, status_in}
use project_fifty.Control.{ControlState, transition_mode}
use project_fifty.Ledger.Events.{Event}
use project_fifty.Risk.{evaluate, deny}
use project_fifty.Kernel.State.{
  Memory, Kernel, know_key, note_status, ensure_machine, machine_status, note_report,
  note_broker_order,
}
use project_fifty.Kernel.Capital.{
  authorized_portfolio, reserved_cash, available_authorized_cash, position_quantity, derive_intent,
}

-- `_normalise_broker_state`
unfoldable pub normalise_broker_state : OrderStatus → OrderStatus
unfolding status_in
normalise_broker_state status =
    if status_in status (
      acknowledged ∷ partially_filled ∷ filled ∷ cancel_pending ∷ cancelled ∷ unknown ∷ rejected
      ∷ [])
    then status
    else unknown

-- The order that the proposal asks for and the risk engine's decision on it, which reads the
-- portfolio and the cash that the fields give and neither the broker nor its account.
unfoldable pub assess :
    Settings
    → String
    → ℕ
    → TradeProposal
    → Memory
    → ControlState
    → Result (Option OrderIntent × RiskDecision)
assess s uuid now p m control = bind (derive_intent s uuid p m.reports) λ intent.
    bind (authorized_portfolio s m.reports) λ portfolio.
      bind (available_authorized_cash s m) λ cash. ok (
        intent,
        evaluate s p intent cash (position_quantity p.symbol portfolio) control
            m.known_idempotency_keys now,
      )

abbrev pub identity_changed : Option String → String → Bool
identity_changed none key = false
identity_changed (some known) key = not (str_eq known key)

module _ {S : Type 0} where
  -- `self._ledger.append(...)`
  unfoldable pub emit : Event → Action (Kernel S) (Unit {0})
  emit e k = (ok tt, record k { ledger = k.ledger ++ e ∷ [] })

  -- An assignment to the fields
  unfoldable pub remember : (Memory → Memory) → Action (Kernel S) (Unit {0})
  remember f k = (ok tt, record k { memory = f k.memory })

  unfoldable pub set_control : Result ControlState × List Event → Action (Kernel S) (Unit {0})
  set_control (ok c, events) k = (ok tt, record k { control = c; ledger = events })
  set_control (err e, events) k = (err e, record k { ledger = events })

  -- `_enter_safe_mode`
  unfoldable pub enter_safe_mode : Action (Kernel S) (Unit {0})
  enter_safe_mode k =
      if mode_eq k.control.mode ExperimentMode.dead
      then (ok tt, k)
      else set_control (transition_mode ExperimentMode.safe false k.control k.ledger) k

  abbrev pub moved :
      String → OrderStatus → OrderStatus → Result OrderStatus → Action (Kernel S) Bool
  moved order_id from to (ok next) k = (
    ok true,
    record k {
      memory = note_status order_id next k.memory;
      ledger = k.ledger ++ Event.order_state_transition order_id from to ∷ [];
    },
  )
  moved order_id from to (err e) k = (ok false, k)

  -- `_transition_order`
  unfoldable pub transition_order : String → OrderStatus → Action (Kernel S) Bool
  transition_order order_id to k =
      let k' : Kernel S = record k { memory = ensure_machine order_id k.memory } in
      let from = machine_status order_id k'.memory in
      if status_eq from to then (ok true, k') else moved order_id from to (transition from to) k'

  -- `_record_report`
  unfoldable pub record_report : ExecutionReport → Action (Kernel S) (Unit {0})
  record_report r k = if contains r.report_id k.memory.report_ids then (ok tt, k) else (
    ok tt,
    record k {
      memory = note_broker_order r (know_key r.idempotency_key (note_report r k.memory));
      ledger = k.ledger ++ Event.broker_execution_report r ∷ [];
    },
  )

  -- `_state_transition_failure`
  unfoldable pub state_transition_failure :
      Action (Kernel S) (RiskDecision × Option ExecutionReport)
  state_transition_failure = do
    enter_safe_mode
    let denied = deny RejectionReason.invalid_order_state_transition
    emit (Event.risk_decision denied none)
    pure (denied, none)

module _ (s : Settings) {S : Type 0} where
  -- `_append_reconciliation`
  unfoldable pub append_reconciliation : Action (Kernel S) PortfolioState
  append_reconciliation = do
    authorized ← read (λ k. authorized_portfolio s k.memory.reports)
    emit (Event.reconciliation_result authorized)
    reserved ← read (λ k. reserved_cash k.memory)
    available ← read (λ k. available_authorized_cash s k.memory)
    emit (Event.portfolio_nav_snapshot authorized.nav authorized.cash reserved available)
    pure authorized

  -- The transition of a report's order, if the kernel has one, and the raise if it is refused
  unfoldable pub reconcile_order : Option String → OrderStatus → Action (Kernel S) (Unit {0})
  reconcile_order none status = pure tt
  reconcile_order (some intent_id) status = do
    done ← transition_order intent_id (normalise_broker_state status)
    choose done (pure tt)
        (do enter_safe_mode; raise (value_error "invalid reconciled broker order state transition"))

  -- `reconcile_execution_report`
  unfoldable pub reconcile_execution_report : ExecutionReport → Action (Kernel S) PortfolioState
  reconcile_execution_report r = do
    is_known ← read (λ k. ok (contains r.idempotency_key k.memory.known_idempotency_keys))
    choose is_known
        (choose (str_eq r.currency s.account_currency)
          (do
            known_key ← read (λ k. ok (lookup r.broker_order_id k.memory.broker_order_key))
            choose (identity_changed known_key r.idempotency_key)
                (do
                  enter_safe_mode
                  raise (value_error "broker order identity changed across reconciliation"))
                (do
                  record_report r
                  intent_id ← read (λ k. ok (lookup r.idempotency_key k.memory.intent_id_by_key))
                  reconcile_order intent_id r.status
                  append_reconciliation))
          (do enter_safe_mode; raise (value_error "execution report currency mismatch")))
        (do
          enter_safe_mode
          raise (value_error "execution report references an unknown logical order"))

-- ===== src/Kernel/Handle/Propose.antt =====
-- The way of a proposal to the broker.
use project_fifty.Prelude.{ℕ, String, Option, none, some}
use project_fifty.Outcome.{runtime_error}
use project_fifty.Outcome.Action.{Action, pure, raise, read, ◌>>=◌, ◌>>◌, choose}
use project_fifty.Domain.{
  TradeAction, RejectionReason, TradeProposal, OrderIntent, ExecutionReport, RiskDecision,
  status_eq, created, validated, submitting, unknown,
}
use project_fifty.Settings.{Settings}
use project_fifty.Ledger.Events.{Event}
use project_fifty.Broker.{BrokerAdapter}
use project_fifty.Risk.{deny}
use project_fifty.Kernel.State.{Kernel, know_key, note_cost, note_intent}
use package.project_fifty.Kernel.Handle.Records.{
  normalise_broker_state, assess, emit, remember, enter_safe_mode, transition_order, record_report,
  state_transition_failure, append_reconciliation,
}
use package.project_fifty.Kernel.Handle.Cancel.{call_submit, handle_cancel}

module _ (s : Settings) (B : BrokerAdapter) where
  -- From the broker's report on: record it, move the order, and write the reconciliation.
  unfoldable pub settle_submission :
      RiskDecision
      → OrderIntent
      → ExecutionReport
      → Action (Kernel B.State) (RiskDecision × Option ExecutionReport)
  settle_submission decision i report = do
    record_report report
    done ← transition_order i.intent_id (normalise_broker_state report.status)
    choose done
        (choose (status_eq report.status unknown) (pure (decision, some report))
          (do append_reconciliation s; pure (decision, some report)))
        (do
          enter_safe_mode
          raise (runtime_error "broker returned an invalid order state transition"))

  -- The entry of a new order in the fields and the ledger
  unfoldable pub announce : OrderIntent → Action (Kernel B.State) (Unit {0})
  announce i = do
    remember (note_intent i)
    emit (Event.order_intent_created i)
    emit (Event.order_state_transition i.intent_id created created)

  -- The way of an approved order to the broker
  unfoldable pub place :
      RiskDecision → OrderIntent → Action (Kernel B.State) (RiskDecision × Option ExecutionReport)
  place decision i = do
    announce i
    is_valid ← transition_order i.intent_id validated
    choose is_valid
        (do
          is_submitting ← transition_order i.intent_id submitting
          choose is_submitting
              (do
                emit (Event.broker_submission_attempt i.intent_id)
                report ← call_submit s B i
                settle_submission decision i report)
              state_transition_failure)
        state_transition_failure

  -- An approved trade: without an order it is denied after all.
  unfoldable pub trade :
      Option OrderIntent
      → RiskDecision
      → Action (Kernel B.State) (RiskDecision × Option ExecutionReport)
  trade none decision = do
    let denied = deny RejectionReason.invalid_schema
    emit (Event.risk_decision denied none)
    pure (denied, none)
  trade (some i) decision = place decision i

  -- What follows an approval
  unfoldable pub carry_out :
      TradeAction
      → TradeProposal
      → Option OrderIntent
      → RiskDecision
      → Action (Kernel B.State) (RiskDecision × Option ExecutionReport)
  carry_out TradeAction.hold p intent decision = pure (decision, none)
  carry_out TradeAction.cancel p intent decision = do
    report ← handle_cancel s B p
    pure (decision, some report)
  carry_out _ p intent decision = trade intent decision

  -- `handle_proposal`
  unfoldable pub handle_proposal :
      String → ℕ → TradeProposal → Action (Kernel B.State) (RiskDecision × Option ExecutionReport)
  handle_proposal uuid now p = do
    emit (Event.proposal_created p)
    remember (note_cost p)
    (intent, decision) ← read (λ k. assess s uuid now p k.memory k.control)
    emit (Event.risk_decision decision (some p.idempotency_key))
    choose decision.approved
        (do remember (know_key p.idempotency_key); carry_out p.action p intent decision)
        (pure (decision, none))

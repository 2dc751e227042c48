-- ===== src/Kernel/Restart/Proposals.antt =====
-- Proposals, from the first event to the broker's report, by the same rules: a restart rebuilds the fields.
use project_fifty.Prelude.{ℕ, String, ◌≡◌, refl, ap, ◌∙◌, Bool, Option, none, some, if◌then◌else◌}
use project_fifty.Outcome.{Result, ok, err}
use project_fifty.Outcome.Action.{◌>>=◌, choose, read, pure}
use project_fifty.Outcome.Hoare.{Triple, Ends, Triple-bind, Triple-pure, Triple-read, Triple-choose}
use project_fifty.Domain.{
  TradeAction, TradeProposal, OrderIntent, ExecutionReport, BrokerOrder, RiskDecision, status_eq,
  cancelled, validated, submitting, unknown,
}
use project_fifty.Settings.{Settings}
use project_fifty.Broker.{BrokerAdapter}
use project_fifty.Kernel.State.{Memory, Kernel, hydrate_event, know_key, note_cost}
use project_fifty.Kernel.Handle.{
  assess, remember, call_submit, call_cancel, settle_order, settle_key, settle_cancel,
  cancel_target, handle_cancel, settle_submission, trade, place, carry_out, handle_proposal,
}
use project_fifty.Kernel.Assess.{derive_intent-id, assess-cases}
use project_fifty.Kernel.Restart.Events.{
  Frame, IsPending, IsSynced, IsApart, anything, IsSynced-weaken, emit-IsPending, remember-IsSynced,
  record_report-IsSynced,
}
use project_fifty.Kernel.Restart.Transitions.{
  Has, Lacks, IsReady, transition_order-IsReady, transition_order-IsSynced, announce-IsReady,
}
use project_fifty.Kernel.Restart.Methods.{
  Keeps, Keeps-bind, Keeps-pure, Keeps-raise, Keeps-read, Keeps-choose, enter_safe_mode-Keeps,
  state_transition_failure-Keeps, append_reconciliation-Keeps, emit_passive,
}
use project_fifty.Kernel.Restart.Reports.{
  EndsSynced, loosen, forget, HasOption, read_order, move_or_raise,
}

note_cost-IsApart : (p : TradeProposal) → IsApart (note_cost p)
unfolding note_cost
note_cost-IsApart p m = (refl, refl)

know_key-IsApart : (key : String) → IsApart (know_key key)
unfolding know_key
know_key-IsApart key m = (refl, refl)

-- The order that is to be placed, if there is one, has an id without a machine.
abbrev LacksOrder : Option OrderIntent → Frame
LacksOrder none = anything
LacksOrder (some i) = Lacks i.intent_id

module _ (s : Settings) (B : BrokerAdapter) where
  call_submit-Keeps : (F : Frame) (i : OrderIntent) → Keeps F (call_submit s B i)
  unfolding call_submit
  call_submit-Keeps F i = record { at = λ k h. called (B.submit i k.broker).0 k h }
    where
      called :
          (r : Result ExecutionReport) (k : Kernel B.State)
          → IsSynced F k
          → Ends
              (λ _. IsSynced F)
              (IsSynced anything)
              (r, record k { broker = (B.submit i k.broker).1 })
      called (ok a) k h = record { hydrated = h.hydrated; linked = h.linked; frame = h.frame }
      called (err e) k h = record { hydrated = h.hydrated; linked = h.linked; frame = tt }

  call_cancel-Keeps : (F : Frame) (id : String) → Keeps F (call_cancel s B id)
  unfolding call_cancel
  call_cancel-Keeps F id = record { at = λ k h. called (B.cancel id k.broker).0 k h }
    where
      called :
          (r : Result BrokerOrder) (k : Kernel B.State)
          → IsSynced F k
          → Ends
              (λ _. IsSynced F)
              (IsSynced anything)
              (r, record k { broker = (B.cancel id k.broker).1 })
      called (ok a) k h = record { hydrated = h.hydrated; linked = h.linked; frame = h.frame }
      called (err e) k h = record { hydrated = h.hydrated; linked = h.linked; frame = tt }

  settle_order-synced :
      (found : Option String) → EndsSynced (HasOption found) (settle_order s B found)
  unfolding settle_order
  settle_order-synced none = Keeps-pure tt
  settle_order-synced (some id) = loosen (move_or_raise id cancelled _)

  settle_key-Keeps : (original : Option String) → Keeps anything (settle_key s B original)
  unfolding settle_key
  settle_key-Keeps none = Keeps-pure tt
  settle_key-Keeps (some key) =
      Triple-bind _ _ (λ found. IsSynced (HasOption found)) (read_order key) settle_order-synced

  settle_cancel-Keeps : (order : BrokerOrder) → Keeps anything (settle_cancel s B order)
  unfolding settle_cancel
  settle_cancel-Keeps order = Keeps-bind _ _ (Keeps-read _) λ original.
      Keeps-choose (status_eq order.status cancelled) _ _ (settle_key-Keeps original)
        enter_safe_mode-Keeps

  cancel_target-Keeps :
      (p : TradeProposal) (target : Option String) → Keeps anything (cancel_target s B p target)
  unfolding cancel_target hydrate_event
  cancel_target-Keeps p none = Keeps-raise _
  cancel_target-Keeps p (some order_id) = Keeps-bind _ _ (emit_passive _ (λ m. refl)) λ _.
      Keeps-bind _ _ (call_cancel-Keeps anything order_id) λ order.
        Keeps-bind _ _ (emit_passive _ (λ m. refl)) λ _.
          Keeps-bind _ _ (settle_cancel-Keeps order) λ _.
            Keeps-bind _ _ (record_report-IsSynced _)
              λ _. Keeps-bind _ _ (append_reconciliation-Keeps s) λ _. Keeps-pure _

  settle_submission-Keeps :
      (decision : RiskDecision) (i : OrderIntent) (report : ExecutionReport)
      → Keeps (Has i.intent_id) (settle_submission s B decision i report)
  unfolding settle_submission
  settle_submission-Keeps decision i report = Keeps-bind _ _ (record_report-IsSynced report) λ _.
      Keeps-bind _ _ (transition_order-IsSynced i.intent_id _) λ done.
        Keeps-choose done _ _
          (Keeps-choose (status_eq report.status unknown) _ _ (Keeps-pure _)
            (Keeps-bind _ _ (append_reconciliation-Keeps s) λ _. Keeps-pure _))
          (Keeps-bind _ _ enter_safe_mode-Keeps λ _. Keeps-raise _)

  place-synced :
      (decision : RiskDecision) (i : OrderIntent)
      → EndsSynced (Lacks i.intent_id) (place s B decision i)
  unfolding place hydrate_event
  place-synced decision i =
      Triple-bind _ _ (λ _. IsReady i.intent_id) (announce-IsReady B s i)
        λ _.
          Triple-bind _ _ (λ _. IsSynced (Has i.intent_id))
            (transition_order-IsReady i.intent_id validated)
            λ is_valid. loosen (
              Keeps-choose is_valid _ _
                (Keeps-bind _ _ (transition_order-IsSynced i.intent_id submitting) λ is_submitting.
                  Keeps-choose is_submitting _ _
                    (Keeps-bind _ _ (emit_passive _ (λ m. refl)) λ _.
                      Keeps-bind _ _ (call_submit-Keeps (Has i.intent_id) i)
                        λ report. settle_submission-Keeps decision i report)
                    state_transition_failure-Keeps)
                state_transition_failure-Keeps)

  trade-synced :
      (intent : Option OrderIntent) (decision : RiskDecision)
      → EndsSynced (LacksOrder intent) (trade s B intent decision)
  unfolding trade hydrate_event
  trade-synced none decision = Keeps-bind _ _ (emit_passive _ (λ m. refl)) λ _. Keeps-pure _
  trade-synced (some i) decision = place-synced decision i

  carry_out-synced :
      (action : TradeAction) (p : TradeProposal) (intent : Option OrderIntent)
      (decision : RiskDecision)
      → EndsSynced (LacksOrder intent) (carry_out s B action p intent decision)
  unfolding carry_out handle_cancel
  carry_out-synced TradeAction.hold p intent decision = loosen (Keeps-pure _)
  carry_out-synced TradeAction.cancel p intent decision =
      forget (Keeps-bind _ _ (cancel_target-Keeps p p.cancel_order_id) λ _. Keeps-pure _)
  carry_out-synced _ p intent decision = trade-synced intent decision

  order_frame :
      (uuid : String) (intent : Option OrderIntent) (k : Kernel B.State)
      → ((i : OrderIntent) → intent ≡ some i → i.intent_id ≡ uuid)
      → IsSynced (Lacks uuid) k
      → IsSynced (LacksOrder intent) k
  order_frame uuid none k named h = IsSynced-weaken k h
  order_frame uuid (some i) k named h = record {
    hydrated = h.hydrated;
    linked = h.linked;
    frame = rw (named i refl) h.frame;
  }

  assess-LacksOrder :
      (uuid : String) (now : ℕ) (p : TradeProposal)
      → Triple {S = Kernel B.State}
          (IsSynced (Lacks uuid))
          (read (λ k. assess s uuid now p k.memory k.control))
          (λ assessed. IsSynced (LacksOrder assessed.0))
          (IsSynced anything)
  assess-LacksOrder uuid now p =
      Triple-read _
        (λ k assessed e h.
          order_frame uuid assessed.0 k
            (λ i same.
              derive_intent-id s uuid p k.memory.reports i
                ((assess-cases s uuid now p k.memory k.control assessed e).derived ∙ ap ok same))
            h)
        IsSynced-weaken

  -- What hydration makes of a decision
  abbrev know_if : Bool → String → Memory → Memory
  know_if approved key m = if approved then know_key key m else m

  decided :
      (p : TradeProposal) (intent : Option OrderIntent) (decision : RiskDecision)
      → Triple {S = Kernel B.State}
          (IsPending (know_if decision.approved p.idempotency_key) (LacksOrder intent))
          (choose decision.approved
            (remember (know_key p.idempotency_key) >>= λ _.
              carry_out s B p.action p intent decision)
            (pure (decision, none)))
          (λ _. IsSynced anything)
          (IsSynced anything)
  decided p intent decision =
      Triple-choose decision.approved _ _
        (λ granted. rw granted (
          Triple-bind _ _ (λ _. IsSynced (LacksOrder intent))
            (remember-IsSynced (know_key p.idempotency_key) (know_key-IsApart p.idempotency_key))
            λ _. carry_out-synced p.action p intent _))
        (λ denied. rw denied (Triple-pure _ (λ k h. IsSynced-weaken k h)))

  -- Handling a proposal under an order id that is new keeps the fields and the ledger in step.
  pub handle_proposal-synced :
      (uuid : String) (now : ℕ) (p : TradeProposal)
      → EndsSynced (Lacks uuid) (handle_proposal s B uuid now p)
  unfolding handle_proposal hydrate_event
  handle_proposal-synced uuid now p =
      Triple-bind _ _ (λ _. IsPending (note_cost p) (Lacks uuid))
        (emit-IsPending _ (note_cost p) (λ m. refl))
        λ _.
          Triple-bind _ _ (λ _. IsSynced (Lacks uuid))
            (remember-IsSynced (note_cost p) (note_cost-IsApart p))
            λ _.
              Triple-bind _ _ (λ assessed. IsSynced (LacksOrder assessed.0))
                (assess-LacksOrder uuid now p)
                λ (intent, decision).
                  Triple-bind _ _
                    (λ _.
                      IsPending (know_if decision.approved p.idempotency_key) (LacksOrder intent))
                    (emit-IsPending _ (know_if decision.approved p.idempotency_key) (λ m. refl))
                    λ _. decided p intent decision

-- ===== src/Session/RuntimeState/Authorized.antt =====
-- The quantities that the session expects and the portfolio of the kernel on the same ledger.
use mathlib.Core.List.{append_assoc, append-nil}
use project_fifty.Prelude.{
  String, ◌≡◌, ◌∙◌, refl, sym, ap, subst, Bool, true, false, Bool-cases, inl, inr, none, some,
  contains, add_key, List, [], ◌∷◌, ◌++◌, if◌then◌else◌,
}
use project_fifty.Prelude.Dict.{Dict, has_key}
use project_fifty.Outcome.{ok, >>=-eq-ok, >>-eq-ok, ok_injective}
use project_fifty.Decimal.{Decimal}
use project_fifty.Domain.{
  ExecutionReport, OrderStatus, PortfolioState, status_eq, new_portfolio, non_negative,
}
use project_fifty.StateMachine.{transition}
use project_fifty.Settings.{Settings}
use project_fifty.Ledger.Events.{Event}
use project_fifty.Reconcile.{Replay, replay_reports, replay_events, add_positions, start}
use project_fifty.Reconcile.Duplicates.{distinct, replay_events-distinct}
use project_fifty.Kernel.State.{
  Memory, blank_memory, note_intent, note_cost, know_key, note_status, ensure_machine,
  machine_status, hydrate_transition, hydrate_report, note_report, note_broker_order, hydrate_event,
  hydrate_from, hydrate,
}
use project_fifty.Kernel.Capital.{authorized_portfolio, mark_prices}
use project_fifty.Session.Observation.{execution_reports_of}
use project_fifty.Session.RuntimeState.{expected_position_quantities}
use project_fifty.Reconcile.Quantities.{quantities_of}
use project_fifty.Session.RuntimeState.Agreement.{expect_events-expected_of}

-- The part of the kernel's fields that holds the reports
abbrev reports_in : Memory → List ExecutionReport × List String
reports_in m = (m.reports, m.report_ids)

note_broker_order-reports_in :
    (r : ExecutionReport) (m : Memory) → reports_in (note_broker_order r m) ≡ reports_in m
unfolding note_broker_order
note_broker_order-reports_in r m = elim (Bool-cases (has_key r.idempotency_key m.intents_by_key)) [
  | inl known ↦ rw (known, note_broker_order) refl
  | inr new ↦ rw (new, note_broker_order) refl
]

decision-reports_in :
    (approved : Bool) (key : String) (m : Memory)
    → reports_in (if approved then know_key key m else m) ≡ reports_in m
unfolding know_key
decision-reports_in true key m = refl
decision-reports_in false key m = refl

hydrate_transition-reports_in :
    (id : String) (to : OrderStatus) (m m' : Memory)
    → hydrate_transition id to m ≡ ok m'
    → reports_in m ≡ reports_in m'
unfolding hydrate_transition ensure_machine note_status
hydrate_transition-reports_in id to m m' h =
    let current = machine_status id (ensure_machine id m) in
    elim (Bool-cases (status_eq current to)) [
      | inl same ↦ ap reports_in (ok_injective _ _ (rw same at h))
      | inr other ↦
          let (next, _, left) = >>=-eq-ok (transition current to) _ (rw other at h) in
          ap reports_in (ok_injective _ _ left)
    ]

hydrate_report-reports_in :
    (r : ExecutionReport) (m : Memory)
    → reports_in (hydrate_report r m) ≡ (
        if contains r.report_id m.report_ids
        then reports_in m
        else (m.reports ++ r ∷ [], m.report_ids ++ r.report_id ∷ []))
unfolding hydrate_report know_key note_report add_key
hydrate_report-reports_in r m =
    note_broker_order-reports_in r (
      if contains r.report_id m.report_ids
      then know_key r.idempotency_key m
      else note_report r (know_key r.idempotency_key m))
    ∙ (elim (Bool-cases (contains r.report_id m.report_ids)) [
      | inl old ↦ rw old refl
      | inr new ↦ rw new refl
    ])

-- The reports that are there, and those that a ledger adds to them
abbrev Adds : List Event → List ExecutionReport × List String → Memory → Type 0
Adds events held m' = m'.reports ≡ held.0 ++ distinct held.1 (execution_reports_of events)

hydrate_from-reports :
    (events : List Event) (m m' : Memory)
    → hydrate_from m events ≡ ok m'
    → Adds events (reports_in m) m'
unfolding hydrate_from hydrate_event distinct execution_reports_of contains
hydrate_from-reports [] m m' h =
    ap (λ (x : Memory). x.reports) (sym (ok_injective _ _ h)) ∙ sym (append-nil m.reports)
hydrate_from-reports (Event.broker_execution_report r ∷ events) m m' h =
    let later =
      subst (λ p. Adds events p m') (hydrate_report-reports_in r m)
        (hydrate_from-reports events (hydrate_report r m) m' h) in
    elim (Bool-cases (contains r.report_id m.report_ids)) [
      | inl old ↦ rw old (rw old at later)
      | inr new ↦ rw new (
          (rw new at later)
          ∙ append_assoc m.reports (r ∷ [])
              (distinct (m.report_ids ++ r.report_id ∷ []) (execution_reports_of events)))
    ]
hydrate_from-reports (Event.order_state_transition id from to ∷ events) m m' h =
    let (mid, one, rest) = >>=-eq-ok (hydrate_transition id to m) _ h in
    subst (λ p. Adds events p m') (sym (hydrate_transition-reports_in id to m mid one))
      (hydrate_from-reports events mid m' rest)
hydrate_from-reports (Event.risk_decision d (some key) ∷ events) m m' h =
    subst (λ p. Adds events p m') (decision-reports_in d.approved key m)
      (hydrate_from-reports events (if d.approved then know_key key m else m) m' h)
hydrate_from-reports (Event.risk_decision d none ∷ events) m m' h =
    hydrate_from-reports events m m' h
hydrate_from-reports (Event.order_intent_created i ∷ events) m m' h =
    unfold note_intent in hydrate_from-reports events (note_intent i m) m' h
hydrate_from-reports (Event.proposal_created p ∷ events) m m' h =
    unfold note_cost in hydrate_from-reports events (note_cost p m) m' h
hydrate_from-reports (e ∷ events) m m' h = hydrate_from-reports events m m' h

-- The state at the end of a replay that gave a portfolio
replay_events-positions :
    (cash : Decimal) (reports : List ExecutionReport) (marks : Dict Decimal) (currency : String)
    (portfolio : PortfolioState)
    → replay_events cash reports marks currency ≡ ok portfolio
    → (st : Replay) × (replay_reports currency reports (start cash) ≡ ok st)
      × (st.positions ≡ portfolio.positions)
unfolding replay_events new_portfolio
replay_events-positions cash reports marks currency portfolio h =
    let (st, replayed, h1) = >>=-eq-ok (replay_reports currency reports (start cash)) _ h in
    let (nav, _, h2) = >>=-eq-ok (add_positions st.positions marks st.cash) _ h1 in
    let (_, h3) = >>-eq-ok (non_negative st.cash) _ h2 in
    let (_, h4) = >>-eq-ok (non_negative nav) _ h3 in
    (st, replayed, ap (λ (p : PortfolioState). p.positions) (ok_injective _ _ h4))

-- The session and the kernel read one ledger alike: where a kernel is rebuilt from the ledger and its
-- authorised portfolio can be calculated, the quantities that the session expects of the broker can be
-- too, and are those of the portfolio's positions, in their order.
pub expected_position_quantities-authorized_portfolio :
    (s : Settings) (events : List Event) (m : Memory) (portfolio : PortfolioState)
    → hydrate events ≡ ok m
    → authorized_portfolio s m.reports ≡ ok portfolio
    → expected_position_quantities events ≡ ok (quantities_of portfolio.positions)
unfolding hydrate authorized_portfolio expected_position_quantities
expected_position_quantities-authorized_portfolio s events m portfolio h k =
    let cash = s.authorized_starting_cash in
    let currency = s.account_currency in
    let marks = mark_prices m.reports in
    let kept = hydrate_from-reports events blank_memory m h in
    let alike =
      replay_events-distinct cash (execution_reports_of events) marks currency
      ∙ subst (λ reports. replay_events cash reports marks currency ≡ ok portfolio) kept k in
    let (st, replayed, same) =
      replay_events-positions cash (execution_reports_of events) marks currency portfolio alike in
    rw (expect_events-expected_of currency events (start cash) st replayed tt)
      (ap (λ d. ok (quantities_of d)) same)

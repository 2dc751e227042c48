-- ===== src/Session/RuntimeState/Pending.antt =====
-- The open orders that the session reads are those of the kernel.
use project_fifty.Prelude.{
  String, ◌≡◌, refl, sym, ap, subst, ◌∙◌, Bool, true, false, Bool-cases, inl, inr, none, some,
  Option-cases, arith, contains, str_eq, eq_iff, eq_refl, List, [], ◌∷◌, if◌then◌else◌,
}
use project_fifty.Prelude.Dict.{
  Dict, has_key, lookup, lookup_or, insert, set_default, insert-insert, lookup-insert,
}
use project_fifty.Prelude.Sort.{sort_by}
use project_fifty.Outcome.{ok, >>=-eq-ok, ok_injective}
use project_fifty.Domain.{ExecutionReport, OrderStatus, created, status_eq, status_eq_iff}
use project_fifty.StateMachine.{transition}
use project_fifty.Ledger.Events.{Event}
use project_fifty.Kernel.State.{
  Memory, blank_memory, note_intent, note_cost, know_key, note_status, ensure_machine,
  machine_status, hydrate_transition, hydrate_report, note_report, note_broker_order, hydrate_event,
  hydrate_from, hydrate,
}
use project_fifty.Session.RuntimeState.{
  OrderBook, PendingOrder, note_event, read_book, entry_le, list_pending, pending_orders,
}

-- The part of the kernel's fields that the session reads
abbrev book_of : Memory → OrderBook
book_of m = record { intents = m.intents_by_key; status_by_intent = m.state_by_order }

module _ {ℓ} {V : Type ℓ} where
  insert-set_default :
      (k : String) (v w : V) (d : Dict V) → insert k w (set_default k v d) ≡ insert k w d
  unfolding set_default
  insert-set_default k v w d = elim (Option-cases (lookup k d)) [
    | inl new ↦ rw (new, set_default) (insert-insert k v w d)
    | inr (u, old) ↦ rw (old, set_default) refl
  ]

  insert-same : (k : String) (v : V) (d : Dict V) → lookup k d ≡ some v → insert k v d ≡ d
  unfolding lookup insert
  insert-same k v [] h = absurd (ground arith)
  insert-same k v ((j, w) ∷ d) h = elim (Bool-cases (str_eq j k)) [
    | inl same ↦ ground (arith, eq_iff j k)
    | inr other ↦ ground (arith, insert-same k v d)
  ]

  lookup-set_default :
      (k : String) (v w : V) (d : Dict V)
      → lookup_or v k (set_default k v d) ≡ w
      → lookup k (set_default k v d) ≡ some w
  unfolding lookup_or set_default
  lookup-set_default k v w d h = ground (arith, lookup-insert k k v d, eq_iff k k, eq_refl k)

  -- A default that the key has, or gets, is what a write of it leaves.
  set_default-insert :
      (k : String) (v w : V) (d : Dict V)
      → lookup_or v k (set_default k v d) ≡ w
      → set_default k v d ≡ insert k w d
  set_default-insert k v w d h =
      sym (insert-same k w (set_default k v d) (lookup-set_default k v w d h))
      ∙ insert-set_default k v w d

transition-target : (from to next : OrderStatus) → transition from to ≡ ok next → next ≡ to
unfolding transition
transition-target from to next h = ground arith

-- One event means the same to the session as to the kernel.
hydrate_transition-book :
    (id : String) (from to : OrderStatus) (m m' : Memory)
    → hydrate_transition id to m ≡ ok m'
    → note_event (book_of m) (Event.order_state_transition id from to) ≡ book_of m'
unfolding hydrate_transition note_event ensure_machine machine_status note_status
hydrate_transition-book id from to m m' h =
    let current = machine_status id (ensure_machine id m) in
    elim (Bool-cases (status_eq current to)) [
      | inl same ↦
          let e = (status_eq_iff current to).0 same in
          let left = ok_injective _ _ (rw same at h) in
          subst (λ x. note_event (book_of m) (Event.order_state_transition id from to) ≡ book_of x)
            left
            (ap (λ d. record (book_of m) { status_by_intent = d })
              (sym (set_default-insert id created to m.state_by_order e)))
      | inr other ↦
          let (next, moved, left) = >>=-eq-ok (transition current to) _ (rw other at h) in
          let e = transition-target current to next moved in
          subst (λ x. note_event (book_of m) (Event.order_state_transition id from to) ≡ book_of x)
            (ok_injective _ _ left)
            (ap (λ d. record (book_of m) { status_by_intent = d })
              (sym (
                insert-set_default id created next m.state_by_order
                ∙ ap (λ x. insert id x m.state_by_order) e)))
    ]

-- A report changes neither the intents nor the statuses.
note_broker_order-book :
    (r : ExecutionReport) (m : Memory) → book_of (note_broker_order r m) ≡ book_of m
unfolding note_broker_order
note_broker_order-book r m = elim (Bool-cases (has_key r.idempotency_key m.intents_by_key)) [
  | inl known ↦ rw (known, note_broker_order) refl
  | inr new ↦ rw (new, note_broker_order) refl
]

hydrate_report-book : (r : ExecutionReport) (m : Memory) → book_of (hydrate_report r m) ≡ book_of m
unfolding hydrate_report know_key note_report
hydrate_report-book r m =
    note_broker_order-book r (
      if contains r.report_id m.report_ids
      then know_key r.idempotency_key m
      else note_report r (know_key r.idempotency_key m))
    ∙ (elim (Bool-cases (contains r.report_id m.report_ids)) [
      | inl old ↦ rw old refl
      | inr new ↦ rw new refl
    ])

decision-book :
    (approved : Bool) (key : String) (m : Memory)
    → book_of (if approved then know_key key m else m) ≡ book_of m
unfolding know_key
decision-book true key m = refl
decision-book false key m = refl

hydrate_event-book :
    (e : Event) (m m' : Memory) → hydrate_event m e ≡ ok m' → note_event (book_of m) e ≡ book_of m'
unfolding hydrate_event note_event note_intent note_cost
hydrate_event-book (Event.order_state_transition id from to) m m' h =
    hydrate_transition-book id from to m m' h
hydrate_event-book (Event.order_intent_created i) m m' h = ap book_of (ok_injective _ _ h)
hydrate_event-book (Event.broker_execution_report r) m m' h =
    sym (hydrate_report-book r m) ∙ ap book_of (ok_injective _ _ h)
hydrate_event-book (Event.risk_decision d (some key)) m m' h =
    sym (decision-book d.approved key m) ∙ ap book_of (ok_injective _ _ h)
hydrate_event-book (Event.risk_decision d none) m m' h = ap book_of (ok_injective _ _ h)
hydrate_event-book (Event.proposal_created p) m m' h = ap book_of (ok_injective _ _ h)
hydrate_event-book (Event.broker_submission_attempt id) m m' h = ap book_of (ok_injective _ _ h)
hydrate_event-book (Event.cancellation_requested p id) m m' h = ap book_of (ok_injective _ _ h)
hydrate_event-book (Event.broker_cancelled o) m m' h = ap book_of (ok_injective _ _ h)
hydrate_event-book (Event.reconciliation_result p) m m' h = ap book_of (ok_injective _ _ h)
hydrate_event-book (Event.portfolio_nav_snapshot a b c d) m m' h = ap book_of (ok_injective _ _ h)
hydrate_event-book (Event.control_mode_changed a b c) m m' h = ap book_of (ok_injective _ _ h)
hydrate_event-book (Event.strategy_target_generated t) m m' h = ap book_of (ok_injective _ _ h)
hydrate_event-book (Event.strategy_cycle_completed c) m m' h = ap book_of (ok_injective _ _ h)
hydrate_event-book (Event.strategy_cycle_skipped t r) m m' h = ap book_of (ok_injective _ _ h)
hydrate_event-book (Event.forward_observation_snapshot s) m m' h = ap book_of (ok_injective _ _ h)

hydrate_from-book :
    (events : List Event) (m m' : Memory)
    → hydrate_from m events ≡ ok m'
    → read_book (book_of m) events ≡ book_of m'
unfolding hydrate_from read_book
hydrate_from-book [] m m' h = ap book_of (ok_injective _ _ h)
hydrate_from-book (e ∷ events) m m' h =
    let (mid, one, rest) = >>=-eq-ok (hydrate_event m e) _ h in
    ap (λ b. read_book b events) (hydrate_event-book e m mid one)
    ∙ hydrate_from-book events mid m' rest

-- The kernel's orders that are not in a terminal status, by key
abbrev pub open_intents : Memory → List PendingOrder
open_intents m = list_pending m.state_by_order (sort_by entry_le m.intents_by_key)

-- What the session takes for open orders are the open orders of the kernel: for every ledger that a
-- kernel can be built from, the pending orders read from the ledger are the kernel's intents whose
-- status is not terminal, in the order of their keys.
pub pending_orders-hydrate :
    (events : List Event) (m : Memory)
    → hydrate events ≡ ok m
    → pending_orders events ≡ open_intents m
unfolding pending_orders hydrate
pending_orders-hydrate events m h =
    ap (λ (b : OrderBook). list_pending b.status_by_intent (sort_by entry_le b.intents))
      (hydrate_from-book events blank_memory m h)

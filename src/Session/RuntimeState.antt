-- ===== src/Session/RuntimeState.antt =====
-- src/project_fifty/session/runtime_state.py: the orders that are still open and the quantities that
-- the broker should hold, from the ledger's events alone.
pub mod Pending
pub mod Quantities
pub mod Agreement
pub mod Authorized
pub mod Simulated
use project_fifty.Prelude.{
  String, Bool, true, false, contains, Option, none, some, List, [], ◌∷◌, ◌++◌, if◌then◌else◌,
}
use project_fifty.Prelude.Dict.{Dict, lookup, lookup_or, insert, erase}
use project_fifty.Prelude.Sort.{str_le, sort_by}
use project_fifty.Outcome.{Result, ok, err, value_error, raise_if, ◌>>=◌, ◌>>◌}
use project_fifty.Decimal.{Decimal, lt, eq, add, sub, zero_dec}
use project_fifty.Domain.{OrderIntent, OrderStatus, ExecutionReport, is_buy, created}
use project_fifty.StateMachine.{is_terminal}
use project_fifty.Reconcile.{is_fill}
use project_fifty.Ledger.Events.{
  Event, order_intent_created, order_state_transition, broker_execution_report,
}

pub record PendingOrder : Type 0 where
  pub idempotency_key : String
  pub intent_id : String
  pub reference_price : Decimal

-- The two dicts of `pending_orders`
pub record OrderBook : Type 0 where
  pub intents : Dict OrderIntent
  pub status_by_intent : Dict OrderStatus

unfoldable pub note_event : OrderBook → Event → OrderBook
note_event b (order_intent_created i) = record b { intents = insert i.idempotency_key i b.intents }
note_event b (order_state_transition order_id from to) = record b {
  status_by_intent = insert order_id to b.status_by_intent;
}
note_event b _ = b

unfoldable pub read_book : OrderBook → List Event → OrderBook
unfolding note_event
read_book b [] = b
read_book b (e ∷ events) = read_book (note_event b e) events

abbrev pub entry_le : String × OrderIntent → String × OrderIntent → Bool
entry_le a b = str_le a.0 b.0

unfoldable pub list_pending : Dict OrderStatus → Dict OrderIntent → List PendingOrder
unfolding lookup_or
list_pending statuses [] = []
list_pending statuses ((key, i) ∷ intents) =
    let rest = list_pending statuses intents in
    if is_terminal (lookup_or created i.intent_id statuses)
    then rest
    else record {
      idempotency_key = key;
      intent_id = i.intent_id;
      reference_price = i.reference_price;
    }
      ∷ rest

abbrev pub empty_book : OrderBook
empty_book = record { intents = []; status_by_intent = [] }

unfoldable pub pending_orders : List Event → List PendingOrder
unfolding read_book list_pending sort_by
pending_orders events =
    let b = read_book empty_book events in
    list_pending b.status_by_intent (sort_by entry_le b.intents)

-- The variables of the loop in `expected_position_quantities`
pub record Expected : Type 0 where
  pub quantities : Dict Decimal
  pub applied_by_order : Dict Decimal
  pub seen_reports : List String

-- The quantities after a symbol has a new one
unfoldable pub set_quantity : String → Decimal → Dict Decimal → Result (Dict Decimal)
unfolding insert erase
set_quantity symbol current quantities = do
  raise_if (lt current zero_dec) (value_error "runtime ledger replay would create a short position")
  ok (if eq current zero_dec then erase symbol quantities else insert symbol current quantities)

unfoldable pub change_quantity : ExecutionReport → Decimal → Dict Decimal → Result (Dict Decimal)
unfolding set_quantity lookup_or
change_quantity r delta quantities =
    let current = lookup_or zero_dec r.symbol quantities in
    if eq delta zero_dec
    then ok quantities
    else set_quantity r.symbol (if is_buy r.side then add current delta else sub current delta)
        quantities

-- The body of the loop for a fill that is new
unfoldable pub expect_fill : ExecutionReport → Expected → Result Expected
unfolding change_quantity lookup_or insert
expect_fill r x = do
  let previous = lookup_or zero_dec r.broker_order_id x.applied_by_order
  raise_if (lt r.fill_quantity previous) (value_error "broker cumulative fill quantity regressed")
  quantities ← change_quantity r (sub r.fill_quantity previous) x.quantities
  ok (record x {
    quantities = quantities;
    applied_by_order = insert r.broker_order_id r.fill_quantity x.applied_by_order;
  })

-- The body of the loop for a report that is new
unfoldable pub expect_report : ExecutionReport → Expected → Result Expected
unfolding expect_fill is_fill
expect_report r x =
    let seen = record x { seen_reports = x.seen_reports ++ r.report_id ∷ [] } in
    if is_fill r.status then expect_fill r seen else ok seen

unfoldable pub expect_event : Event → Expected → Result Expected
unfolding expect_report contains
expect_event (broker_execution_report r) x =
    if contains r.report_id x.seen_reports then ok x else expect_report r x
expect_event _ x = ok x

unfoldable pub expect_events : List Event → Expected → Result Expected
unfolding expect_event
expect_events [] x = ok x
expect_events (e ∷ events) x = expect_event e x >>= expect_events events

unfoldable pub expected_position_quantities : List Event → Result (Dict Decimal)
unfolding expect_events
expected_position_quantities events =
    expect_events events (record { quantities = []; applied_by_order = []; seen_reports = [] })
    >>= λ x. ok x.quantities

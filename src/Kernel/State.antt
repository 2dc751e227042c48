-- ===== src/Kernel/State.antt =====
-- The kernel's fields: what it rebuilds from the ledger on a restart (`Memory`), and the rest.
use project_fifty.Prelude.{
  String, add_key, contains, none, some, List, [], ◌∷◌, ◌++◌, if◌then◌else◌,
}
use project_fifty.Prelude.Dict.{Dict, lookup_or, has_key, insert, set_default}
use project_fifty.Outcome.{Result, ok, ◌>>=◌}
use project_fifty.Decimal.{Decimal, add}
use project_fifty.Domain.{
  TradeProposal, OrderIntent, OrderStatus, ExecutionReport, created, status_eq,
}
use project_fifty.Ledger.Events.{
  Event, proposal_created, risk_decision, order_intent_created, order_state_transition,
  broker_execution_report,
}
use project_fifty.StateMachine.{transition}
use project_fifty.Control.{ControlState}

pub record Memory : Type 0 where
  pub known_idempotency_keys : List String
  pub reports : List ExecutionReport
  pub report_ids : List String
  pub state_by_order : Dict OrderStatus
  pub intents_by_key : Dict OrderIntent
  pub intent_id_by_key : Dict String
  pub estimated_cost_by_key : Dict Decimal
  pub broker_order_key : Dict String

-- The fields as `__init__` sets them
abbrev pub blank_memory : Memory
blank_memory = record {
  known_idempotency_keys = [];
  reports = [];
  report_ids = [];
  state_by_order = [];
  intents_by_key = [];
  intent_id_by_key = [];
  estimated_cost_by_key = [];
  broker_order_key = [];
}

-- `ExecutionKernel`, over the state of its broker. The ledger is the list of its events.
pub record Kernel (S : Type 0) : Type 0 where
  pub memory : Memory
  pub ledger : List Event
  pub control : ControlState
  pub broker : S

-- The updates that hydration and the running kernel share

unfoldable pub know_key : String → Memory → Memory
know_key key m = record m { known_idempotency_keys = add_key key m.known_idempotency_keys }

unfoldable pub note_cost : TradeProposal → Memory → Memory
note_cost p m = record m {
  estimated_cost_by_key =
      insert p.idempotency_key (add p.estimated_fee p.estimated_slippage) m.estimated_cost_by_key;
}

unfoldable pub note_intent : OrderIntent → Memory → Memory
note_intent i m = record m {
  intents_by_key = insert i.idempotency_key i m.intents_by_key;
  intent_id_by_key = insert i.idempotency_key i.intent_id m.intent_id_by_key;
}

unfoldable pub note_status : String → OrderStatus → Memory → Memory
note_status order_id status m = record m {
  state_by_order = insert order_id status m.state_by_order;
}

-- `self._state_by_order.setdefault(order_id, OrderStateMachine())`
unfoldable pub ensure_machine : String → Memory → Memory
ensure_machine order_id m = record m {
  state_by_order = set_default order_id created m.state_by_order;
}

unfoldable pub machine_status : String → Memory → OrderStatus
machine_status order_id m = lookup_or created order_id m.state_by_order

-- A report that is new is kept with its id.
unfoldable pub note_report : ExecutionReport → Memory → Memory
note_report r m = record m {
  reports = m.reports ++ r ∷ [];
  report_ids = add_key r.report_id m.report_ids;
}

-- The order that the broker knows by this id belongs to the report's key, if that has an intent.
unfoldable pub note_broker_order : ExecutionReport → Memory → Memory
note_broker_order r m =
    if has_key r.idempotency_key m.intents_by_key
    then record m {
      broker_order_key = insert r.broker_order_id r.idempotency_key m.broker_order_key;
    }
    else m

-- One event of `_hydrate_from_ledger`
unfoldable pub hydrate_transition : String → OrderStatus → Memory → Result Memory
hydrate_transition order_id new_state m =
    let m' = ensure_machine order_id m in
    if status_eq (machine_status order_id m') new_state
    then ok m'
    else (transition (machine_status order_id m') new_state >>= λ next.
        ok (note_status order_id next m'))

unfoldable pub hydrate_report : ExecutionReport → Memory → Memory
unfolding know_key note_report note_broker_order
hydrate_report r m =
    let m' = know_key r.idempotency_key m in
    note_broker_order r (if contains r.report_id m'.report_ids then m' else note_report r m')

unfoldable pub hydrate_event : Memory → Event → Result Memory
unfolding note_cost know_key note_intent hydrate_transition hydrate_report
hydrate_event m (proposal_created p) = ok (note_cost p m)
hydrate_event m (risk_decision d none) = ok m
hydrate_event m (risk_decision d (some key)) = ok (if d.approved then know_key key m else m)
hydrate_event m (order_intent_created i) = ok (note_intent i m)
hydrate_event m (broker_execution_report r) = ok (hydrate_report r m)
hydrate_event m (order_state_transition order_id from to) = hydrate_transition order_id to m
hydrate_event m _ = ok m

unfoldable pub hydrate_from : Memory → List Event → Result Memory
unfolding hydrate_event
hydrate_from m [] = ok m
hydrate_from m (e ∷ events) = hydrate_event m e >>= λ m'. hydrate_from m' events

-- `_hydrate_from_ledger`
unfoldable pub hydrate : List Event → Result Memory
unfolding hydrate_from
hydrate events = hydrate_from blank_memory events

-- `ExecutionKernel(...)` over a ledger
unfoldable pub start_kernel : {S : Type 0} → ControlState → S → List Event → Result (Kernel S)
unfolding hydrate
start_kernel control broker events = hydrate events >>= λ m.
    ok (record { memory = m; ledger = events; control = control; broker = broker })

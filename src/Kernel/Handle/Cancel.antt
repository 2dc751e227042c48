-- ===== src/Kernel/Handle/Cancel.antt =====
-- The calls of the broker, and the cancellation of an order.
use Prim.Native.String.{◌++◌ as str_append}
use project_fifty.Prelude.{String, Option, none, some, if◌then◌else◌}
use project_fifty.Prelude.Dict.{lookup}
use project_fifty.Outcome.{ok, runtime_error, assertion_error}
use project_fifty.Outcome.Action.{Action, pure, raise, read, ◌>>=◌, ◌>>◌, choose}
use project_fifty.Decimal.{zero_dec}
use project_fifty.Domain.{
  TradeProposal, OrderIntent, BrokerOrder, ExecutionReport, status_eq, cancelled, unknown,
}
use project_fifty.Settings.{Settings}
use project_fifty.Ledger.Events.{Event}
use project_fifty.Broker.{BrokerAdapter}
use project_fifty.Kernel.State.{Kernel}
use package.project_fifty.Kernel.Handle.Records.{
  emit, enter_safe_mode, transition_order, record_report, append_reconciliation,
}

module _ (s : Settings) (B : BrokerAdapter) where
  -- The calls of the broker
  unfoldable pub call_submit : OrderIntent → Action (Kernel B.State) ExecutionReport
  call_submit i k = let (r, broker) = B.submit i k.broker in (r, record k { broker = broker })

  unfoldable pub call_cancel : String → Action (Kernel B.State) BrokerOrder
  call_cancel order_id k =
      let (r, broker) = B.cancel order_id k.broker in (r, record k { broker = broker })

  -- The state change of the order that was cancelled: by its intent id, and by its key
  unfoldable pub settle_order : Option String → Action (Kernel B.State) (Unit {0})
  settle_order none = pure tt
  settle_order (some id) = do
    done ← transition_order id cancelled
    choose done (pure tt)
        (do enter_safe_mode; raise (runtime_error "invalid cancellation state transition"))

  unfoldable pub settle_key : Option String → Action (Kernel B.State) (Unit {0})
  settle_key none = pure tt
  settle_key (some key) = do
    intent_id ← read (λ k. ok (lookup key k.memory.intent_id_by_key))
    settle_order intent_id

  unfoldable pub settle_cancel : BrokerOrder → Action (Kernel B.State) (Unit {0})
  settle_cancel order = do
    original_key ← read (λ k. ok (lookup order.broker_order_id k.memory.broker_order_key))
    choose (status_eq order.status cancelled) (settle_key original_key) enter_safe_mode

  abbrev pub cancel_report : TradeProposal → BrokerOrder → ExecutionReport
  cancel_report p order = record {
    report_id =
        str_append "cancel-" (str_append order.broker_order_id (str_append "-" p.idempotency_key));
    broker_order_id = order.broker_order_id;
    idempotency_key = p.idempotency_key;
    symbol = order.symbol;
    side = order.side;
    status = if status_eq order.status cancelled then cancelled else unknown;
    fill_quantity = zero_dec;
    fill_price = p.reference_price;
    fee = zero_dec;
    slippage = zero_dec;
    currency = p.quote_currency;
  }

  unfoldable pub cancel_target :
      TradeProposal → Option String → Action (Kernel B.State) ExecutionReport
  cancel_target p none = raise (assertion_error "cancel_order_id")
  cancel_target p (some order_id) = do
    emit (Event.cancellation_requested p.proposal_id order_id)
    order ← call_cancel order_id
    emit (Event.broker_cancelled order)
    settle_cancel order
    record_report (cancel_report p order)
    append_reconciliation s
    pure (cancel_report p order)

  -- `_handle_cancel`
  unfoldable pub handle_cancel : TradeProposal → Action (Kernel B.State) ExecutionReport
  handle_cancel p = cancel_target p p.cancel_order_id

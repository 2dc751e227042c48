-- ===== src/Broker/Alpaca/Orders.antt =====
-- src/project_fifty/brokers/alpaca/broker.py: the requests. The HTTP client is a parameter: a request
-- gets a response or raises, and its state stands for the service. The log of request ids is left out.
pub mod Posts
use project_fifty.Prelude.{
  ℕ, String, Bool, true, false, not, ◌&&◌, ◌||◌, ◌==◌, str_eq, Option, none, some, List, [], ◌∷◌,
  if◌then◌else◌,
}
use project_fifty.Prelude.Dict.{Dict, insert, lookup}
use project_fifty.Outcome.{
  Error, Result, ok, err, value_error, runtime_error, http_error, timeout_error, raise_if,
}
use project_fifty.Outcome.Action.{Action, pure, raise, read, ◌>>=◌, ◌>>◌, choose}
use project_fifty.Decimal.{Decimal, lt, eq, zero_dec}
use project_fifty.Domain.{
  OrderIntent, OrderSide, OrderStatus, ExecutionReport, BrokerOrder, Position, PortfolioState,
  is_buy, status_eq, filled, cancelled, rejected, new_position, new_portfolio,
}
use project_fifty.Broker.Alpaca.Replies.{
  Json, JsonObject, Format, field, is_truthy, required_str, decimal_of_json, is_fractional,
  client_order_id, to_broker_order, to_execution_report, unknown_report,
}

-- The JSON body of a new order; type `market` and time in force `day` are constants.
pub record OrderPayload : Type 0 where
  pub symbol : String
  pub qty : String
  pub side : String
  pub client_id : String

pub data Request : Type 0 where
  account all_positions open_orders : Request
  one_asset one_position one_order by_client_order_id : String → Request
  post_order : OrderPayload → Request
  delete_order : String → Request

pub data Body : Type 0 where
  object : JsonObject → Body
  objects : List JsonObject → Body
  no_object : Body

pub record Response : Type 0 where
  pub status_code : ℕ
  pub body : Body

-- `raises` says on which status codes `raise_for_status` raises.
pub record Client : Type 1 where
  pub State : Type 0
  pub request : Request → State → Result Response × State
  pub raises : ℕ → Bool

-- `_json_object`
abbrev pub json_object : Body → Result JsonObject
json_object (object o) = ok o
json_object _ = err (value_error "expected Alpaca JSON object")

-- `_json_object_list`
abbrev pub json_object_list : Body → Result (List JsonObject)
json_object_list (objects os) = ok os
json_object_list _ = err (value_error "expected Alpaca JSON object list")

-- `except httpx.TimeoutException`
abbrev pub catch_timeout : {S : Type 0} → Result Response × S → Result (Option Response) × S
catch_timeout (ok response, s) = (ok (some response), s)
catch_timeout (err (timeout_error t), s) = (ok none, s)
catch_timeout (err e, s) = (err e, s)

abbrev pub side_text : OrderSide → String
side_text OrderSide.buy = "buy"
side_text OrderSide.sell = "sell"

abbrev pub payload_of : Format → OrderIntent → OrderPayload
payload_of f i = record {
  symbol = i.symbol;
  qty = f.write_decimal i.quantity;
  side = side_text i.side;
  client_id = client_order_id f i.idempotency_key;
}

module _ (f : Format) (C : Client) where
  -- A computation that may raise
  abbrev pub lift : {A : Type 0} → Result A → Action C.State A
  lift r = read (λ s. r)

  -- `response.raise_for_status()`
  unfoldable pub raise_for_status : Response → Action C.State (Unit {0})
  raise_for_status response =
      lift (raise_if (C.raises response.status_code) (http_error "unexpected status"))

  -- A request whose response has to be an object
  unfoldable pub get_object : Request → Action C.State JsonObject
  unfolding raise_for_status
  get_object request = do
    response ← C.request request
    raise_for_status response
    lift (json_object response.body)

  unfoldable pub get_objects : Request → Action C.State (List JsonObject)
  unfolding raise_for_status
  get_objects request = do
    response ← C.request request
    raise_for_status response
    lift (json_object_list response.body)

  -- `get_order_by_client_order_id`
  unfoldable pub get_order_by_client_order_id :
      String → Decimal → Action C.State (Option ExecutionReport)
  unfolding raise_for_status client_order_id to_execution_report
  get_order_by_client_order_id key reference_price = do
    response ← C.request (Request.by_client_order_id (client_order_id f key))
    choose (response.status_code == 404) (pure none) (do
      raise_for_status response
      order ← lift (json_object response.body)
      report ← lift (to_execution_report f order key reference_price)
      pure (some report))

  -- `_get_position_quantity`
  unfoldable pub get_position_quantity : String → Action C.State Decimal
  unfolding raise_for_status decimal_of_json field
  get_position_quantity symbol = do
    response ← C.request (Request.one_position symbol)
    choose (response.status_code == 404) (pure zero_dec) (do
      raise_for_status response
      position ← lift (json_object response.body)
      lift (decimal_of_json f (field "qty" position)))

  -- A sale is checked against the broker's position.
  unfoldable pub check_position : OrderIntent → Action C.State (Unit {0})
  unfolding get_position_quantity
  check_position i = choose (is_buy i.side) (pure tt) (do
    quantity ← get_position_quantity i.symbol
    lift
        (raise_if (lt quantity i.quantity) (value_error "sell order would exceed broker position")))

  -- What is known of an order whose request timed out
  unfoldable pub recover : OrderIntent → Option ExecutionReport → Action C.State ExecutionReport
  unfolding unknown_report
  recover i none = pure (unknown_report f i)
  recover i (some report) = pure report

  -- The response to a new order, or none after a timeout
  unfoldable pub settle_post : OrderIntent → Option Response → Action C.State ExecutionReport
  unfolding recover get_order_by_client_order_id raise_for_status to_execution_report
  settle_post i none = do
    recovered ← get_order_by_client_order_id i.idempotency_key i.reference_price
    recover i recovered
  settle_post i (some response) = do
    raise_for_status response
    order ← lift (json_object response.body)
    lift (to_execution_report f order i.idempotency_key i.reference_price)

  -- `try: ... except httpx.TimeoutException` around the request of a new order
  unfoldable pub send : OrderPayload → Action C.State (Option Response)
  send payload s = catch_timeout (C.request (Request.post_order payload) s)

  -- `submit`, for an order that the service does not know
  unfoldable pub submit_unseen : OrderIntent → Action C.State ExecutionReport
  unfolding get_object check_position send settle_post is_fractional field
  submit_unseen i = do
    found ← get_object (Request.one_asset i.symbol)
    lift (
        raise_if (not (is_truthy (field "tradable" found)))
          (value_error "instrument is not tradable"))
    lift (
        raise_if (is_fractional i.quantity && not (is_truthy (field "fractionable" found)))
          (value_error "instrument is not fractionable"))
    check_position i
    sent ← send (payload_of f i)
    settle_post i sent

  unfoldable pub resume : OrderIntent → Option ExecutionReport → Action C.State ExecutionReport
  unfolding submit_unseen
  resume i none = submit_unseen i
  resume i (some report) = pure report

  -- `submit`
  unfoldable pub submit_order : OrderIntent → Action C.State ExecutionReport
  unfolding get_order_by_client_order_id resume
  submit_order i = do
    lift (
        raise_if (not (str_eq i.currency f.currency))
          (value_error "order currency does not match Alpaca paper account currency"))
    existing ← get_order_by_client_order_id i.idempotency_key i.reference_price
    resume i existing

  -- `_get_order_raw` with `allow_missing`: the order before the cancellation where it is gone
  unfoldable pub get_order_after : String → JsonObject → Action C.State JsonObject
  unfolding raise_for_status
  get_order_after id before = do
    response ← C.request (Request.one_order id)
    choose (response.status_code == 404) (pure before)
        (do raise_for_status response; lift (json_object response.body))

  abbrev is_closed : OrderStatus → Bool
  is_closed status =
      status_eq status filled || status_eq status cancelled || status_eq status rejected

  -- `cancel`
  unfoldable pub cancel_order : String → Action C.State BrokerOrder
  unfolding get_object get_order_after raise_for_status to_broker_order status_eq
  cancel_order id = do
    before ← get_object (Request.one_order id)
    response ← C.request (Request.delete_order id)
    choose (response.status_code == 204 || response.status_code == 422) (pure tt)
        (raise_for_status response)
    after ← get_order_after id before
    resolved ← lift (to_broker_order f after)
    choose (response.status_code == 422 && not (is_closed resolved.status))
        (raise_for_status response) (pure tt)
    pure resolved

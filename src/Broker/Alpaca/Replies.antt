-- ===== src/Broker/Alpaca/Replies.antt =====
-- src/project_fifty/brokers/alpaca/broker.py: from the service's JSON to the models. Reading and
-- writing a decimal's text, the text `str` gives a JSON value, and sha256 as a hexadecimal text are
-- parameters. The messages of reports are left out.
use project_fifty.Prelude.Ascii.{lower, codes_eq, upper, codes}
use project_fifty.Prelude.{
  ℕ, String, ◌+◌, false, true, not, ◌==◌, str_eq, Option, List, [], ◌∷◌, Bool, ◌||◌, ◌&&◌,
  if◌then◌else◌, ◌%◌, ◌^◌,
}
use project_fifty.Prelude.Dict.{Dict, lookup_or}
use project_fifty.Outcome.{Result, ok, err, ◌>>=◌, value_error, or_raise}
use project_fifty.Decimal.{Decimal, lt, eq, sub, mul, zero_dec, abs}
use project_fifty.Domain.{
  OrderIntent, BrokerOrder, ExecutionReport, OrderStatus, unknown, OrderSide, acknowledged,
  partially_filled, filled, cancel_pending, cancelled, rejected,
}
use Prim.Native.String.{◌++◌ as str_append, slice}
use project_fifty.Prelude.Int.{pos_part, neg_part}

-- A value of a JSON object; `other` is a list or an object that is not empty.
pub data Json : Type 0 where
  text : String → Json
  number : Decimal → Json
  flag : Bool → Json
  null : Json
  other : Json

abbrev pub JsonObject : Type 0
JsonObject = Dict Json

pub record Format : Type 0 where
  pub read_decimal : String → Option Decimal
  pub write_decimal : Decimal → String
  pub sha256 : String → String
  pub write_json : Json → String
  pub currency : String

-- `data.get(key)`
unfoldable pub field : String → JsonObject → Json
unfolding lookup_or
field key object = lookup_or null key object

-- `bool(value)`
abbrev pub is_truthy : Json → Bool
is_truthy (text s) = not (str_eq s "")
is_truthy (number d) = not (eq d zero_dec)
is_truthy (flag b) = b
is_truthy null = false
is_truthy other = true

-- `value or default`
abbrev pub or_else : Json → Json → Json
or_else value default = if is_truthy value then value else default

-- `str(value)`
abbrev pub text_of : Format → Json → String
text_of f (text s) = s
text_of f value = f.write_json value

-- `_required_str`
unfoldable pub required_str : JsonObject → String → Result String
unfolding field
required_str object key = elim (field key object) [
  | text s ↦
      if str_eq s ""
      then err (value_error (str_append "missing or invalid Alpaca field: " key))
      else ok s
  | _ ↦ err (value_error (str_append "missing or invalid Alpaca field: " key))
]

-- `_decimal`
unfoldable pub decimal_of_json : Format → Json → Result Decimal
decimal_of_json f (text s) =
    or_raise (f.read_decimal s) (value_error "invalid decimal value from Alpaca")
decimal_of_json f (number d) = ok d
decimal_of_json f _ = err (value_error "invalid decimal value from Alpaca")

abbrev is_any : List ℕ → List String → Bool
is_any c [] = false
is_any c (name ∷ names) = codes_eq c (codes name) || is_any c names

-- `_map_status`
unfoldable pub map_status : Format → Json → OrderStatus
unfolding lower
map_status f value =
    let status = lower (text_of f (or_else value (text ""))) in
    if is_any status
      ("accepted" ∷ "new" ∷ "pending_new" ∷ "accepted_for_bidding" ∷ "pending_replace" ∷ [])
    then acknowledged
    else if is_any status ("partially_filled" ∷ [])
    then partially_filled
    else if is_any status ("filled" ∷ [])
    then filled
    else if is_any status ("pending_cancel" ∷ [])
    then cancel_pending
    else if is_any status ("canceled" ∷ "cancelled" ∷ "expired" ∷ "replaced" ∷ "done_for_day" ∷ [])
    then cancelled
    else if is_any status ("rejected" ∷ "suspended" ∷ [])
    then rejected
    else unknown

-- `_parse_side`
unfoldable pub parse_side : Format → Json → Result OrderSide
unfolding upper
parse_side f value =
    let side = upper (text_of f (or_else value (text ""))) in
    if codes_eq side (codes "BUY")
    then ok OrderSide.buy
    else if codes_eq side (codes "SELL")
    then ok OrderSide.sell
    else err (value_error "unexpected Alpaca order side")

-- `_is_fractional`
unfoldable pub is_fractional : Decimal → Bool
is_fractional d = not ((pos_part d.coef + neg_part d.coef) % 10 ^ d.scale == 0)

-- `client_order_id`
unfoldable pub client_order_id : Format → String → String
client_order_id f key = str_append "pf-" (slice (f.sha256 key) 0 32)

-- `status.value`
abbrev pub status_text : OrderStatus → String
status_text OrderStatus.created = "CREATED"
status_text OrderStatus.validated = "VALIDATED"
status_text OrderStatus.submitting = "SUBMITTING"
status_text OrderStatus.acknowledged = "ACKNOWLEDGED"
status_text OrderStatus.partially_filled = "PARTIALLY_FILLED"
status_text OrderStatus.filled = "FILLED"
status_text OrderStatus.rejected = "REJECTED"
status_text OrderStatus.cancel_pending = "CANCEL_PENDING"
status_text OrderStatus.cancelled = "CANCELLED"
status_text OrderStatus.unknown = "UNKNOWN"

abbrev join_colon : String → String → String
join_colon a b = str_append a (str_append ":" b)

-- `_to_broker_order`
unfoldable pub to_broker_order : Format → JsonObject → Result BrokerOrder
unfolding required_str decimal_of_json parse_side map_status field
to_broker_order f order = do
  order_id ← required_str order "id"
  quantity ←
      decimal_of_json f
        (or_else (or_else (field "qty" order) (field "filled_qty" order)) (text "0"))
  symbol ← required_str order "symbol"
  side ← parse_side f (field "side" order)
  ok (record {
    broker_order_id = order_id;
    idempotency_key = text_of f (or_else (field "client_order_id" order) (text order_id));
    symbol = symbol;
    side = side;
    quantity = quantity;
    status = map_status f (field "status" order);
  })

-- `fill_price_raw not in {None, ""}`; a list or an object ends in an error either way, here that of
-- `decimal_of_json`.
abbrev is_given : Json → Bool
is_given null = false
is_given (text s) = not (str_eq s "")
is_given _ = true

unfoldable pub fill_price_of : Format → Json → Decimal → Result Decimal
unfolding decimal_of_json
fill_price_of f raw reference_price =
    if is_given raw then decimal_of_json f raw else ok reference_price

-- `_to_execution_report`
unfoldable pub to_execution_report : Format → JsonObject → String → Decimal → Result ExecutionReport
unfolding required_str decimal_of_json parse_side map_status field fill_price_of
to_execution_report f order idempotency_key reference_price = do
  broker_order_id ← required_str order "id"
  let status = map_status f (field "status" order)
  fill_quantity ← decimal_of_json f (or_else (field "filled_qty" order) (text "0"))
  fill_price ← fill_price_of f (field "filled_avg_price" order) reference_price
  symbol ← required_str order "symbol"
  side ← parse_side f (field "side" order)
  ok (record {
    report_id = join_colon "alpaca" (
        join_colon broker_order_id
          (join_colon (status_text status) (f.write_decimal fill_quantity)));
    broker_order_id = broker_order_id;
    idempotency_key = idempotency_key;
    symbol = symbol;
    side = side;
    status = status;
    fill_quantity = fill_quantity;
    fill_price = fill_price;
    fee = zero_dec;
    slippage =
        if lt zero_dec fill_quantity && lt zero_dec reference_price
        then mul (abs (sub fill_price reference_price)) fill_quantity
        else zero_dec;
    currency = f.currency;
  })

-- `_unknown_report`
unfoldable pub unknown_report : Format → OrderIntent → ExecutionReport
unfolding client_order_id
unknown_report f i = record {
  report_id = str_append "alpaca-unknown-" (client_order_id f i.idempotency_key);
  broker_order_id = str_append "unknown:" (client_order_id f i.idempotency_key);
  idempotency_key = i.idempotency_key;
  symbol = i.symbol;
  side = i.side;
  status = unknown;
  fill_quantity = zero_dec;
  fill_price = i.reference_price;
  fee = zero_dec;
  slippage = zero_dec;
  currency = f.currency;
}

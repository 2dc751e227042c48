-- ===== src/Tests/Alpacas.antt =====
-- Examples for the Alpaca adapter: a service that does not know the order, and accepts it or times out.
use project_fifty.Prelude.{◌≡◌, refl, true, false, leb, [], ◌∷◌, some}
use project_fifty.Prelude.Ascii.{lower, upper}
use project_fifty.Prelude.Dict.{lookup, lookup_or, insert}
use project_fifty.Outcome.{Result, ok, err, timeout_error}
use project_fifty.Outcome.Action.{pure, read, ◌>>=◌, choose}
use project_fifty.Decimal.{eq, zero_dec}
use project_fifty.Domain.{OrderIntent, OrderSide}
use project_fifty.Broker.Alpaca.Replies.{
  JsonObject, Format, text, flag, number, field, required_str, decimal_of_json, is_fractional,
  client_order_id, to_execution_report, fill_price_of, map_status, parse_side, unknown_report,
}
use project_fifty.Broker.Alpaca.Orders.{
  Request, Response, Client, object, objects, no_object, submit_order, get_order_by_client_order_id,
  raise_for_status, get_object, get_objects, check_position, get_position_quantity, recover,
  settle_post, send, submit_unseen, resume, payload_of,
}
use project_fifty.Broker.Alpaca.Orders.Posts.{logged, posts, IsSentOnce, submit_order-IsSentOnce}
use project_fifty.Broker.Alpaca.Account.{held_quantities, open_client_ids, is_consistent, agrees}
use project_fifty.Broker.Alpaca.Service.{read_consistent, guard_broker_state}
use project_fifty.Broker.Alpaca.Service.Guard.{IsGuarded, guard_broker_state-IsGuarded}
use project_fifty.Tests.Data.{units, control, intent}

abbrev format : Format
format = record {
  read_decimal = λ t. some zero_dec;
  write_decimal = λ d. "1";
  sha256 = λ t. t;
  write_json = λ v. "";
  currency = "USD";
}

abbrev accepted : JsonObject
accepted =
    ("id", text "a1")
    ∷ ("status", text "accepted")
    ∷ ("symbol", text "SPY")
    ∷ ("side", text "buy")
    ∷ []

-- `posted` says what a new order gets.
abbrev answer : Result Response → Request → Result Response
answer posted (Request.by_client_order_id id) = ok (record { status_code = 404; body = no_object })
answer posted (Request.one_asset symbol) =
    ok (record { status_code = 200; body = object (("tradable", flag true) ∷ []) })
answer posted (Request.post_order payload) = posted
answer posted (Request.all_positions) = ok (record {
  status_code = 200;
  body = objects ((("symbol", text "SPY") ∷ ("qty", number (units 2)) ∷ []) ∷ []);
})
answer posted _ = ok (record { status_code = 200; body = objects [] })

abbrev service : Result Response → Client
service posted = record {
  State = Unit {0};
  request = λ q s. (answer posted q, s);
  raises = λ code. leb 400 code;
}

abbrev accepts : Client
accepts = service (ok (record { status_code = 200; body = object accepted }))

abbrev times_out : Client
times_out = service (err (timeout_error "read timeout"))

abbrev order : OrderIntent
order = intent OrderSide.buy 2

submit_order-IsSentOnce_example :
    IsSentOnce format times_out order []
      (posts (submit_order format (logged times_out) order ([], tt)).1.0)
submit_order-IsSentOnce_example = submit_order-IsSentOnce format times_out order [] tt

-- An order that the service accepts is sent.
sends :
    posts (submit_order format (logged accepts) order ([], tt)).1.0 ≡ payload_of format order ∷ []
unfolding submit_order get_order_by_client_order_id raise_for_status get_object check_position
    get_position_quantity recover settle_post send submit_unseen resume pure read ◌>>=◌ choose field
    required_str decimal_of_json is_fractional client_order_id to_execution_report fill_price_of
    map_status parse_side unknown_report lookup lookup_or lower upper
sends = refl

-- A request that times out reports an unknown status, with no second order.
reports_unknown :
    (submit_order format (logged times_out) order ([], tt)).0 ≡ ok (unknown_report format order)
unfolding submit_order get_order_by_client_order_id raise_for_status get_object check_position
    get_position_quantity recover settle_post send submit_unseen resume pure read ◌>>=◌ choose field
    required_str decimal_of_json is_fractional client_order_id to_execution_report fill_price_of
    map_status parse_side unknown_report lookup lookup_or lower upper
reports_unknown = refl

guard_broker_state-IsGuarded_example :
    IsGuarded format accepts
      (("SPY", units 3) ∷ [])
      []
      control
      tt
      []
      (guard_broker_state format accepts (("SPY", units 3) ∷ []) [] control (tt, []))
unfolding lookup
guard_broker_state-IsGuarded_example =
    guard_broker_state-IsGuarded format accepts (("SPY", units 3) ∷ []) [] control tt [] (refl, tt)

-- Two units are held where three were expected.
differs : (read_consistent format accepts (("SPY", units 3) ∷ []) [] tt).0 ≡ ok false
unfolding read_consistent held_quantities open_client_ids is_consistent agrees get_objects
    raise_for_status pure read ◌>>=◌ field required_str decimal_of_json lookup lookup_or insert eq
differs = refl

-- ===== src/Broker/Simulated.antt =====
-- src/project_fifty/brokers/simulated/broker.py: the broker of the backtests. `uuid4` is a
-- parameter, the identifiers that it draws one after the other.
pub mod Repeat
pub mod Settle
pub mod Prices
pub mod Fills
pub mod Identifiers
pub mod Refused
pub mod Replay
pub mod Follow
pub mod Rebuild
pub mod Portfolio
use Prim.Native.String.{String}
use project_fifty.Prelude.{
  ℕ, suc, Bool, true, false, not, str_eq, Option, none, some, List, [], ◌∷◌, if◌then◌else◌, ◌+◌,
}
use project_fifty.Prelude.Dict.{Dict, lookup, lookup_or, insert, erase, values}
use project_fifty.Outcome.{Result, ok, err, value_error, key_error, ◌>>=◌ as bind}
use project_fifty.Outcome.Action.{Action, pure, raise, read, modify, choose, ◌>>=◌, ◌>>◌}
use project_fifty.Decimal.{Decimal, lt, eq, add, sub, mul, div, abs, zero_dec, one}
use project_fifty.Domain.{
  OrderIntent, BrokerOrder, ExecutionReport, Position, PortfolioState, OrderStatus, is_buy, filled,
  cancelled, unknown, new_position, new_portfolio,
}
use project_fifty.StateMachine.{status_in}
use project_fifty.Broker.{BrokerAdapter}

pub record Simulated : Type 0 where
  pub cash : Decimal
  pub currency : String
  pub positions : Dict Position
  pub orders_by_key : Dict ExecutionReport
  pub broker_orders : Dict BrokerOrder
  pub last_price : Dict Decimal
  pub fee_rate : Decimal
  pub slippage_rate : Decimal
  pub fail_with_unknown : Bool
  pub reported_buying_power : Decimal
  -- how many identifiers were drawn
  pub drawn : ℕ

abbrev four : Decimal
four = add (add one one) (add one one)

-- `reported_buying_power or (starting_cash * 4)`: a power of zero counts as none.
unfoldable pub buying_power : Option Decimal → Decimal → Decimal
buying_power none starting_cash = mul starting_cash four
buying_power (some power) starting_cash =
    if eq power zero_dec then mul starting_cash four else power

-- `SimulatedBroker(...)`
unfoldable pub new_simulated :
    Decimal → String → Decimal → Decimal → Bool → Option Decimal → Simulated
unfolding buying_power
new_simulated starting_cash currency fee_rate slippage_rate fail_with_unknown power = record {
  cash = starting_cash;
  currency = currency;
  positions = [];
  orders_by_key = [];
  broker_orders = [];
  last_price = ("TEST", one) ∷ [];
  fee_rate = fee_rate;
  slippage_rate = slippage_rate;
  fail_with_unknown = fail_with_unknown;
  reported_buying_power = buying_power power starting_cash;
  drawn = 0;
}

unfoldable pub set_mark_price : String → Decimal → Simulated → Simulated
unfolding insert
set_mark_price symbol price b = record b { last_price = insert symbol price b.last_price }

unfoldable pub mark_positions : Dict Position → Dict Decimal → Decimal → Decimal
unfolding lookup_or
mark_positions [] last_price nav = nav
mark_positions ((symbol, position) ∷ positions) last_price nav =
    mark_positions positions last_price
      (add nav (mul position.quantity (lookup_or position.average_price symbol last_price)))

unfoldable pub get_portfolio : Simulated → Result PortfolioState
unfolding mark_positions new_portfolio
get_portfolio b =
    new_portfolio b.cash b.positions (mark_positions b.positions b.last_price b.cash) b.currency

-- `status in {FILLED, CANCELLED}`
unfoldable pub is_done : OrderStatus → Bool
unfolding status_in
is_done status = status_in status (filled ∷ cancelled ∷ [])

unfoldable pub open_orders : List BrokerOrder → List BrokerOrder
unfolding is_done
open_orders [] = []
open_orders (o ∷ orders) =
    let rest = open_orders orders in if is_done o.status then rest else o ∷ rest

unfoldable pub get_open_orders : Simulated → List BrokerOrder
unfolding open_orders values
get_open_orders b = open_orders (values b.broker_orders)

unfoldable pub cancel_known : String → Option BrokerOrder → Action Simulated BrokerOrder
cancel_known id none = raise (key_error id)
cancel_known id (some order) =
    let stopped = record order { status = cancelled } in
    choose (is_done order.status) (pure order) (do
      modify (λ b. record b { broker_orders = insert id stopped b.broker_orders })
      pure stopped)

unfoldable pub cancel : String → Action Simulated BrokerOrder
cancel id = do found ← read (λ b. ok (lookup id b.broker_orders)); cancel_known id found

-- What a filled order costs: price, notional, fee and slippage.
pub record Fill : Type 0 where
  pub price : Decimal
  pub notional : Decimal
  pub fee : Decimal
  pub slippage : Decimal

unfoldable pub price_fill : OrderIntent → Simulated → Fill
price_fill i b =
    let multiplier = if is_buy i.side then add one b.slippage_rate else sub one b.slippage_rate in
    let price = mul i.reference_price multiplier in
    let notional = mul price i.quantity in
    record {
      price = price;
      notional = notional;
      fee = mul notional b.fee_rate;
      slippage = mul (abs (sub price i.reference_price)) i.quantity;
    }

-- The position after a buy
unfoldable pub bought : OrderIntent → Fill → Option Position → Result Position
bought i f none = new_position i.symbol i.quantity f.price
bought i f (some position) =
    let new_qty = add position.quantity i.quantity in
    bind (div (add (mul position.quantity position.average_price) (mul i.quantity f.price)) new_qty)
      λ avg_price. new_position i.symbol new_qty avg_price

unfoldable pub store_position : Position → Action Simulated (Unit {0})
store_position position =
    modify λ b. record b { positions = insert position.symbol position b.positions }

unfoldable pub settle_buy : OrderIntent → Fill → Action Simulated (Unit {0})
settle_buy i f = do
  short_of_cash ← read (λ b. ok (lt b.cash (add f.notional f.fee)))
  choose short_of_cash (raise (value_error "insufficient cash")) (do
    modify (λ b. record b { cash = sub b.cash (add f.notional f.fee) })
    position ← read (λ b. bought i f (lookup i.symbol b.positions))
    store_position position)

unfoldable pub settle_sell_from : OrderIntent → Fill → Option Position → Action Simulated (Unit {0})
settle_sell_from i f none = raise (value_error "short selling forbidden")
settle_sell_from i f (some position) =
    let remainder = sub position.quantity i.quantity in
    choose (lt position.quantity i.quantity) (raise (value_error "short selling forbidden")) (do
      modify (λ b. record b { cash = add b.cash (sub f.notional f.fee) })
      choose (eq remainder zero_dec)
          (modify (λ b. record b { positions = erase i.symbol b.positions }))
          (do
            left ← read (λ b. new_position i.symbol remainder position.average_price)
            store_position left))

unfoldable pub settle_sell : OrderIntent → Fill → Action Simulated (Unit {0})
settle_sell i f = do
  position ← read (λ b. ok (lookup i.symbol b.positions))
  settle_sell_from i f position

abbrev pub order_of : String → OrderIntent → OrderStatus → BrokerOrder
order_of id i status = record {
  broker_order_id = id;
  idempotency_key = i.idempotency_key;
  symbol = i.symbol;
  side = i.side;
  quantity = i.quantity;
  status = status;
}

abbrev pub report_of :
    String → String → String → OrderIntent → OrderStatus → Decimal → Fill → ExecutionReport
report_of report_id order_id currency i status quantity f = record {
  report_id = report_id;
  broker_order_id = order_id;
  idempotency_key = i.idempotency_key;
  symbol = i.symbol;
  side = i.side;
  status = status;
  fill_quantity = quantity;
  fill_price = f.price;
  fee = f.fee;
  slippage = f.slippage;
  currency = currency;
}

-- The report of an order whose fate is not known
abbrev pub no_fill : OrderIntent → Fill
no_fill i = record {
  price = i.reference_price;
  notional = zero_dec;
  fee = zero_dec;
  slippage = zero_dec;
}

-- The entry of the order and of its report under two new identifiers
unfoldable pub enter : OrderIntent → BrokerOrder → ExecutionReport → Action Simulated (Unit {0})
enter i order report = modify λ b. record b {
  broker_orders = insert order.broker_order_id order b.broker_orders;
  orders_by_key = insert i.idempotency_key report b.orders_by_key;
  drawn = b.drawn + 2;
}

module _ (uuid4 : ℕ → String) where
  unfoldable pub submit_unknown : OrderIntent → Action Simulated ExecutionReport
  submit_unknown i = do
    report ← read (λ b.
        ok (
          report_of (uuid4 (b.drawn + 1)) (uuid4 b.drawn) b.currency i unknown zero_dec
            (no_fill i)))
    enter i (order_of report.broker_order_id i unknown) report
    pure report

  unfoldable pub submit_fill : OrderIntent → Action Simulated ExecutionReport
  submit_fill i = do
    f ← read (λ b. ok (price_fill i b))
    choose (is_buy i.side) (settle_buy i f) (settle_sell i f)
    report ←
        read (λ b.
          ok (report_of (uuid4 (b.drawn + 1)) (uuid4 b.drawn) b.currency i filled i.quantity f))
    enter i (order_of report.broker_order_id i filled) report
    modify (set_mark_price i.symbol f.price)
    pure report

  unfoldable pub submit_new :
      Option ExecutionReport → OrderIntent → Action Simulated ExecutionReport
  submit_new (some report) i = pure report
  submit_new none i = do
    fails ← read (λ b. ok b.fail_with_unknown)
    choose fails (submit_unknown i) (submit_fill i)

  -- A key that was submitted before gets the report of that time.
  unfoldable pub submit : OrderIntent → Action Simulated ExecutionReport
  submit i = do
    earlier ← read (λ b. ok (lookup i.idempotency_key b.orders_by_key))
    submit_new earlier i

  -- The broker that the kernel is given
  abbrev pub simulated_broker : BrokerAdapter
  simulated_broker = record {
    State = Simulated;
    get_portfolio = get_portfolio;
    get_open_orders = λ b. ok (get_open_orders b);
    submit = submit;
    cancel = cancel;
  }

-- ===== src/Broker/Alpaca/Account.antt =====
-- src/project_fifty/brokers/alpaca/broker.py: what the service's JSON says of the account, the open
-- orders and the positions, and their comparison with what the session expects.
use project_fifty.Prelude.{
  String, Bool, true, false, ◌&&◌, contains, Option, none, some, List, [], ◌∷◌, if◌then◌else◌,
}
use project_fifty.Prelude.Dict.{Dict, insert, lookup}
use project_fifty.Outcome.{Result, ok, value_error, raise_if, ◌>>=◌, ◌>>◌}
use project_fifty.Decimal.{Decimal, lt, eq, zero_dec}
use project_fifty.Domain.{BrokerOrder, Position, PortfolioState, new_position, new_portfolio}
use project_fifty.Broker.Alpaca.Replies.{
  JsonObject, Format, field, required_str, decimal_of_json, to_broker_order,
}

-- One position of `get_portfolio`
unfoldable pub read_position : Format → JsonObject → Result (String × Position)
unfolding required_str decimal_of_json field new_position
read_position f raw = do
  symbol ← required_str raw "symbol"
  quantity ← decimal_of_json f (field "qty" raw)
  raise_if (lt quantity zero_dec)
      (value_error "short broker position violates Project Fifty constitution")
  average_price ← decimal_of_json f (field "avg_entry_price" raw)
  position ← new_position symbol quantity average_price
  ok (symbol, position)

unfoldable pub read_positions : Format → Dict Position → List JsonObject → Result (Dict Position)
unfolding read_position insert
read_positions f positions [] = ok positions
read_positions f positions (raw ∷ raws) =
    read_position f raw >>= λ entry. read_positions f (insert entry.0 entry.1 positions) raws

-- `get_portfolio`, from the account and the positions
unfoldable pub portfolio_of : Format → JsonObject → List JsonObject → Result PortfolioState
unfolding read_positions decimal_of_json field new_portfolio
portfolio_of f account raws = do
  positions ← read_positions f [] raws
  cash ← decimal_of_json f (field "cash" account)
  nav ← decimal_of_json f (field "equity" account)
  new_portfolio cash positions nav f.currency

unfoldable pub to_broker_orders : Format → List JsonObject → Result (List BrokerOrder)
unfolding to_broker_order
to_broker_orders f [] = ok []
to_broker_orders f (raw ∷ raws) =
    let rest = to_broker_orders f raws in
    do order ← to_broker_order f raw; orders ← rest; ok (order ∷ orders)

-- The quantities that are not zero, by symbol
unfoldable pub held_quantities : Format → Dict Decimal → List JsonObject → Result (Dict Decimal)
unfolding required_str decimal_of_json field insert
held_quantities f held [] = ok held
held_quantities f held (raw ∷ raws) = decimal_of_json f (field "qty" raw) >>= λ quantity.
    if eq quantity zero_dec
    then held_quantities f held raws
    else required_str raw "symbol" >>= λ symbol.
        held_quantities f (insert symbol quantity held) raws

unfoldable pub open_client_ids : List JsonObject → Result (List String)
unfolding required_str
open_client_ids [] = ok []
open_client_ids (raw ∷ raws) =
    let rest = open_client_ids raws in
    do id ← required_str raw "client_order_id"; ids ← rest; ok (id ∷ ids)

abbrev pub same_quantity : Option Decimal → Decimal → Bool
same_quantity none q = false
same_quantity (some other) q = eq other q

-- Every quantity of one dict is that of the other.
unfoldable pub agrees : Dict Decimal → Dict Decimal → Bool
unfolding lookup
agrees [] other = true
agrees ((symbol, q) ∷ held) other = same_quantity (lookup symbol other) q && agrees held other

abbrev pub all_in : List String → List String → Bool
all_in [] ids = true
all_in (id ∷ others) ids = contains id ids && all_in others ids

-- `consistent`: equality of the dicts and of the sets
unfoldable pub is_consistent : Dict Decimal → List String → Dict Decimal → List String → Bool
unfolding agrees contains
is_consistent held ids expected expected_ids =
    (agrees held expected && agrees expected held)
    && (all_in ids expected_ids && all_in expected_ids ids)

-- ===== src/Reconcile.antt =====
-- src/project_fifty/portfolio/reconcile.py: the portfolio rebuilt from the execution reports, whose
-- quantities, notionals and fees are cumulative for each broker order.
pub mod Inversion
pub mod Duplicates
pub mod LongOnly
pub mod Quantities
pub mod Fills
pub mod FirstFill
pub mod Marks
use project_fifty.Prelude.{
  String, Bool, true, false, not, ◌||◌, str_eq, contains, add_key, Option, none, some, List, [],
  ◌∷◌, ◌++◌, if◌then◌else◌,
}
use project_fifty.Prelude.Dict.{Dict, lookup, lookup_or, insert, erase}
use project_fifty.Outcome.{Result, ok, err, value_error, key_error, raise_if, or_raise, ◌>>=◌, ◌>>◌}
use project_fifty.Decimal.{Decimal, lt, eq, add, sub, mul, div, zero_dec}
use project_fifty.Domain.{
  OrderStatus, OrderSide, Position, PortfolioState, ExecutionReport, is_buy, status_eq,
  partially_filled, filled, new_position, new_portfolio,
}
use project_fifty.StateMachine.{status_in}

-- The variables of the loop in `replay_events`
pub record Replay : Type 0 where
  pub cash : Decimal
  pub positions : Dict Position
  pub seen_reports : List String
  pub applied_quantity : Dict Decimal
  pub applied_gross : Dict Decimal
  pub applied_fee : Dict Decimal

abbrev pub start : Decimal → Replay
start cash = record {
  cash = cash;
  positions = [];
  seen_reports = [];
  applied_quantity = [];
  applied_gross = [];
  applied_fee = [];
}

-- `status in {PARTIALLY_FILLED, FILLED}`
unfoldable pub is_fill : OrderStatus → Bool
unfolding status_in
is_fill s = status_in s (partially_filled ∷ filled ∷ [])

-- The position after a buy of `quantity` more for `gross`
unfoldable pub buy_position : String → Option Position → Decimal → Decimal → Result Position
unfolding new_position
buy_position symbol none quantity gross = do
  price ← div gross quantity
  new_position symbol quantity price
buy_position symbol (some current) quantity gross = do
  let new_qty = add current.quantity quantity
  avg ← div (add (mul current.quantity current.average_price) gross) new_qty
  new_position symbol new_qty avg

-- The positions after a sale of `quantity`
unfoldable pub sell_position :
    String → Option Position → Decimal → Dict Position → Result (Dict Position)
unfolding new_position insert erase
sell_position symbol none quantity positions =
    err (value_error "event replay would create short position")
sell_position symbol (some current) quantity positions =
    let left = sub current.quantity quantity in
    if lt current.quantity quantity
    then err (value_error "event replay would create short position")
    else if eq left zero_dec
    then ok (erase symbol positions)
    else (do
      position ← new_position symbol left current.average_price
      ok (insert symbol position positions))

-- The positions after a fill of either side; a fill of nothing changes none.
unfoldable pub fill_positions :
    OrderSide → String → Decimal → Decimal → Dict Position → Result (Dict Position)
unfolding buy_position sell_position lookup insert
fill_positions side symbol quantity gross positions =
    if not (lt zero_dec quantity)
    then ok positions
    else if is_buy side
    then (do
      position ← buy_position symbol (lookup symbol positions) quantity gross
      ok (insert symbol position positions))
    else sell_position symbol (lookup symbol positions) quantity positions

-- The cash after a fill
unfoldable pub fill_cash : OrderSide → Decimal → Decimal → Decimal → Decimal
fill_cash side gross fee cash =
    if is_buy side then sub cash (add gross fee) else add cash (sub gross fee)

-- The body of the loop for a fill: only what is new since the order's last fill is applied.
unfoldable pub apply_fill : ExecutionReport → Replay → Result Replay
unfolding fill_positions fill_cash lookup_or insert
apply_fill r st = do
  let previous_quantity = lookup_or zero_dec r.broker_order_id st.applied_quantity
  let previous_gross = lookup_or zero_dec r.broker_order_id st.applied_gross
  let previous_fee = lookup_or zero_dec r.broker_order_id st.applied_fee
  let gross = mul r.fill_quantity r.fill_price
  raise_if (lt r.fill_quantity previous_quantity)
      (value_error "broker cumulative fill quantity regressed")
  raise_if (lt gross previous_gross) (value_error "broker cumulative fill notional regressed")
  raise_if (lt r.fee previous_fee) (value_error "broker cumulative fee regressed")
  let delta_quantity = sub r.fill_quantity previous_quantity
  let delta_gross = sub gross previous_gross
  let delta_fee = sub r.fee previous_fee
  positions ← fill_positions r.side r.symbol delta_quantity delta_gross st.positions
  ok (record st {
    cash = fill_cash r.side delta_gross delta_fee st.cash;
    positions = positions;
    applied_quantity = insert r.broker_order_id r.fill_quantity st.applied_quantity;
    applied_gross = insert r.broker_order_id gross st.applied_gross;
    applied_fee = insert r.broker_order_id r.fee st.applied_fee;
  })

-- The body of the loop, after the check for a report that was seen before
unfoldable pub apply_report : String → ExecutionReport → Replay → Result Replay
unfolding apply_fill is_fill
apply_report currency r st =
    let seen = record st { seen_reports = st.seen_reports ++ r.report_id ∷ [] } in
    if not (str_eq r.currency currency)
    then err (value_error "execution report currency does not match portfolio currency")
    else if not (is_fill r.status)
    then ok seen
    else apply_fill r seen

-- The loop of `replay_events`
unfoldable pub replay_reports : String → List ExecutionReport → Replay → Result Replay
unfolding apply_report contains
replay_reports currency [] st = ok st
replay_reports currency (r ∷ events) st = elim (contains r.report_id st.seen_reports) [
  | true ↦ replay_reports currency events st
  | false ↦ apply_report currency r st >>= replay_reports currency events
]

-- The net asset value: cash and the marked positions, in the order of the dict
unfoldable pub add_positions : Dict Position → Dict Decimal → Decimal → Result Decimal
unfolding lookup
add_positions [] marks nav = ok nav
add_positions ((symbol, position) ∷ positions) marks nav =
    or_raise (lookup symbol marks) (key_error symbol) >>= λ mark.
    add_positions positions marks (add nav (mul position.quantity mark))

-- `PortfolioReconciler.replay_events`
unfoldable pub replay_events :
    Decimal → List ExecutionReport → Dict Decimal → String → Result PortfolioState
unfolding replay_reports add_positions new_portfolio
replay_events starting_cash events marks currency = do
  st ← replay_reports currency events (start starting_cash)
  nav ← add_positions st.positions marks st.cash
  new_portfolio st.cash st.positions nav currency

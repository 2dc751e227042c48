-- ===== src/Broker/Alpaca/Service.antt =====
-- src/project_fifty/brokers/alpaca/broker.py: the calls that read the account and the open orders, and
-- the guard that enters SAFE where they are not what the session expects.
pub mod Agreement
pub mod Reading
pub mod Guard
use project_fifty.Prelude.{String, Bool, true, false, List, [], if◌then◌else◌}
use project_fifty.Prelude.Dict.{Dict}
use project_fifty.Outcome.{Result, ok, err, ◌>>=◌ as bind}
use project_fifty.Outcome.Action.{Action, pure, ◌>>=◌}
use project_fifty.Decimal.{Decimal}
use project_fifty.Domain.{BrokerOrder, PortfolioState, mode_eq, dead, safe}
use project_fifty.Control.{ControlState, transition_mode}
use project_fifty.Ledger.Events.{Event}
use project_fifty.Broker.Alpaca.Replies.{Format}
use project_fifty.Broker.Alpaca.Orders.{Request, Client, get_object, get_objects, lift}
use project_fifty.Broker.Alpaca.Account.{
  portfolio_of, to_broker_orders, held_quantities, open_client_ids, is_consistent,
}

-- What `guard_broker_state` does with the comparison, and with the control state and its ledger
unfoldable pub guard_control :
    Bool → ControlState → List Event → Result (Bool × ControlState) × List Event
unfolding transition_mode mode_eq
guard_control true control events = (ok (true, control), events)
guard_control false control events =
    if mode_eq control.mode dead
    then (ok (false, control), events)
    else (let (r, events') = transition_mode safe false control events in
        (bind r λ c. ok (false, c), events'))

abbrev pub guard_result :
    {S : Type 0}
    → ControlState
    → List Event
    → Result Bool × S
    → Result (Bool × ControlState) × (S × List Event)
guard_result control events (err e, s) = (err e, (s, events))
guard_result control events (ok consistent, s) =
    let (r, events') = guard_control consistent control events in (r, (s, events'))

module _ (f : Format) (C : Client) where
  -- `get_portfolio`
  unfoldable pub get_portfolio : Action C.State PortfolioState
  unfolding get_object get_objects portfolio_of
  get_portfolio = do
    account ← get_object f C Request.account
    raws ← get_objects f C Request.all_positions
    lift f C (portfolio_of f account raws)

  -- `get_open_orders`
  unfoldable pub get_open_orders : Action C.State (List BrokerOrder)
  unfolding get_objects to_broker_orders
  get_open_orders = do
    raws ← get_objects f C Request.open_orders
    lift f C (to_broker_orders f raws)

  -- `consistent`, from the positions and the open orders of the service
  unfoldable pub read_consistent : Dict Decimal → List String → Action C.State Bool
  unfolding get_objects held_quantities open_client_ids is_consistent
  read_consistent expected expected_ids = do
    positions ← get_objects f C Request.all_positions
    held ← lift f C (held_quantities f [] positions)
    orders ← get_objects f C Request.open_orders
    ids ← lift f C (open_client_ids orders)
    pure (is_consistent held ids expected expected_ids)

  -- `guard_broker_state`
  unfoldable pub guard_broker_state :
      Dict Decimal
      → List String
      → ControlState
      → Action (C.State × List Event) (Bool × ControlState)
  unfolding read_consistent guard_control
  guard_broker_state expected expected_ids control (s, events) =
      guard_result control events (read_consistent expected expected_ids s)

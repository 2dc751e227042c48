-- ===== src/Tests/Data.antt =====
-- The settings, proposals, reports and events that the examples share.
use project_fifty.Prelude.{ℕ, String, false, Option, none, some, [], ◌∷◌, ◌==◌, if◌then◌else◌}
use project_fifty.Prelude.Int.{pos}
use project_fifty.Decimal.{Decimal, zero_dec}
use project_fifty.Domain.{
  TradeAction, ExperimentMode, OrderSide, TradeProposal, OrderIntent, ExecutionReport, filled,
}
use project_fifty.Settings.{Settings}
use project_fifty.Control.{ControlState, plain}
use project_fifty.Broker.Simulated.{Simulated, new_simulated}
use project_fifty.Ledger.Events.{Event, control_mode_changed}

abbrev pub units : ℕ → Decimal
units n = record { coef = pos n; scale = 0 }

abbrev pub per_thousand : ℕ → Decimal
per_thousand n = record { coef = pos n; scale = 3 }

abbrev pub settings : Settings
settings = record {
  account_currency = "USD";
  authorized_starting_cash = units 1000;
  kill_switch = false;
  max_stale_seconds = 60;
  max_order_notional = units 500;
  permitted_symbols = "TEST" ∷ "SPY" ∷ [];
}

abbrev pub proposal : TradeAction → String → Option Decimal → Option String → TradeProposal
proposal action key quantity target = record {
  proposal_id = "proposal";
  idempotency_key = key;
  symbol = "TEST";
  action = action;
  quantity = quantity;
  notional = none;
  reduce_fraction = none;
  reference_price = units 10;
  reference_price_timestamp = 1000;
  estimated_fee = units 1;
  estimated_slippage = units 1;
  quote_currency = "USD";
  cancel_order_id = target;
}

abbrev pub buy_two : TradeProposal
buy_two = proposal TradeAction.buy "first" (some (units 2)) none

abbrev pub exit_all : TradeProposal
exit_all = proposal TradeAction.exit "second" none none

abbrev pub control : ControlState
control = record { mode = ExperimentMode.normal; kill_switch_active = false; class = plain }

abbrev pub intent : OrderSide → ℕ → OrderIntent
intent side quantity = record {
  intent_id = "id";
  idempotency_key = "first";
  proposal_id = "proposal";
  symbol = "TEST";
  side = side;
  quantity = units quantity;
  reference_price = units 10;
  notional = units 20;
  currency = "USD";
}

abbrev pub fill : String → OrderSide → String → ℕ → ExecutionReport
fill report_id side order_id quantity = record {
  report_id = report_id;
  broker_order_id = order_id;
  idempotency_key = "first";
  symbol = "TEST";
  side = side;
  status = filled;
  fill_quantity = units quantity;
  fill_price = units 10;
  fee = units 1;
  slippage = zero_dec;
  currency = "USD";
}

abbrev pub uuid4 : ℕ → String
uuid4 n =
    if n == 0
    then "a"
    else if n == 1
    then "b"
    else if n == 2
    then "c"
    else if n == 3
    then "d"
    else if n == 4
    then "e"
    else "f"

abbrev pub broker : Simulated
broker = new_simulated (units 1000) "USD" (per_thousand 1) (per_thousand 1) false none

abbrev pub dead_event : Event
dead_event = control_mode_changed ExperimentMode.normal ExperimentMode.dead false

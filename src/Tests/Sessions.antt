-- ===== src/Tests/Sessions.antt =====
-- Examples for what the session reads from the ledger.
use project_fifty.Prelude.{◌≡◌, refl, List, [], ◌∷◌}
use project_fifty.Prelude.Dict.{Dict, has_key, lookup_or, set_default}
use project_fifty.Outcome.{Result, ok, err}
use project_fifty.Decimal.{Decimal, lt, eq, add, sub, mul, div, zero_dec}
use project_fifty.Domain.{OrderSide, PortfolioState, created, validated}
use project_fifty.StateMachine.{transition}
use project_fifty.Ledger.Events.{Event}
use project_fifty.Kernel.State.{
  Memory, blank_memory, hydrate, hydrate_report, note_intent, note_status, machine_status,
  ensure_machine,
}
use project_fifty.Session.RuntimeState.{pending_orders, expected_position_quantities}
use project_fifty.Session.RuntimeState.Pending.{open_intents, pending_orders-hydrate}
use project_fifty.Reconcile.Quantities.{quantities_of}
use project_fifty.Session.RuntimeState.Authorized.{
  expected_position_quantities-authorized_portfolio,
}
use project_fifty.Kernel.Capital.{authorized_portfolio}
use project_fifty.Tests.Data.{settings, intent, fill, units}

abbrev events : List Event
events =
    Event.order_intent_created (intent OrderSide.buy 2)
    ∷ Event.order_state_transition "id" created created
    ∷ Event.order_state_transition "id" created validated
    ∷ Event.broker_execution_report (fill "r1" OrderSide.buy "o1" 2)
    ∷ []

abbrev memory : Memory
memory =
    hydrate_report (fill "r1" OrderSide.buy "o1" 2)
      (note_status "id" validated (note_intent (intent OrderSide.buy 2) blank_memory))

hydrated : hydrate events ≡ ok memory
unfolding hydrate machine_status lookup_or ensure_machine set_default transition note_status
hydrated = refl

pending_orders-hydrate_example : pending_orders events ≡ open_intents memory
pending_orders-hydrate_example = pending_orders-hydrate events memory hydrated

abbrev expected : Dict Decimal
expected = ("TEST", units 2) ∷ []

expects : expected_position_quantities events ≡ ok expected
unfolding expected_position_quantities lt eq sub add
expects = refl

abbrev blank : PortfolioState
blank = record { cash = zero_dec; positions = []; nav = zero_dec; currency = "" }

abbrev value_or : Result PortfolioState → PortfolioState
value_or (ok p) = p
value_or (err e) = blank

abbrev portfolio : PortfolioState
portfolio = value_or (authorized_portfolio settings memory.reports)

authorises : authorized_portfolio settings memory.reports ≡ ok portfolio
unfolding authorized_portfolio hydrate_report note_intent note_status lt eq sub add mul div has_key
authorises = refl

expected_position_quantities-authorized_portfolio_example :
    expected_position_quantities events ≡ ok (quantities_of portfolio.positions)
expected_position_quantities-authorized_portfolio_example =
    expected_position_quantities-authorized_portfolio settings events memory portfolio hydrated
      authorises

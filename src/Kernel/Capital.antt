-- ===== src/Kernel/Capital.antt =====
-- The authorised portfolio, the cash that open buys reserve, and the order that a proposal asks for.
use project_fifty.Prelude.{
  String, not, ◌&&◌, str_eq, Option, none, some, List, [], ◌∷◌, if◌then◌else◌,
}
use project_fifty.Prelude.Dict.{Dict, lookup, lookup_or, insert}
use project_fifty.Outcome.{Result, ok, err, value_error, key_error, or_raise, ◌>>=◌}
use project_fifty.Decimal.{Decimal, lt, le, eq, add, sub, mul, max, zero_dec, one}
use project_fifty.Domain.{
  TradeAction, TradeProposal, OrderIntent, OrderSide, ExecutionReport, PortfolioState, is_buy,
  created, create_intent,
}
use project_fifty.Settings.{Settings}
use project_fifty.StateMachine.{is_terminal}
use project_fifty.Reconcile.{is_fill, replay_events}
use project_fifty.Risk.{is_opening, is_passive}
use project_fifty.Kernel.State.{Memory}

-- The last positive price of each symbol
unfoldable pub mark_prices_from : Dict Decimal → List ExecutionReport → Dict Decimal
mark_prices_from marks [] = marks
mark_prices_from marks (r ∷ reports) =
    mark_prices_from
      (if lt zero_dec r.fill_price then insert r.symbol r.fill_price marks else marks) reports

unfoldable pub mark_prices : List ExecutionReport → Dict Decimal
unfolding mark_prices_from
mark_prices reports = elim (mark_prices_from [] reports) [
  | [] ↦ ("TEST", one) ∷ []
  | mark ∷ marks ↦ mark ∷ marks
]

-- `_authorized_portfolio`: nothing of it comes from the broker's account.
unfoldable pub authorized_portfolio : Settings → List ExecutionReport → Result PortfolioState
unfolding mark_prices replay_events
authorized_portfolio s reports =
    replay_events s.authorized_starting_cash reports (mark_prices reports) s.account_currency

abbrev larger : Option Decimal → Decimal → Decimal
larger none d = d
larger (some best) d = max best d

-- `max(..., default=0)` of the fills of an order
unfoldable pub filled_from : Option Decimal → String → List ExecutionReport → Option Decimal
filled_from best key [] = best
filled_from best key (r ∷ reports) =
    filled_from
      (if str_eq r.idempotency_key key && is_fill r.status
        then some (larger best r.fill_quantity)
        else best)
      key reports

unfoldable pub filled_quantity : String → List ExecutionReport → Decimal
unfolding filled_from
filled_quantity key reports = elim (filled_from none key reports) [ none ↦ zero_dec | some d ↦ d ]

-- What one buy order that is still open reserves: the price of what is not filled, and its costs.
unfoldable pub reserve_order : Memory → String → OrderIntent → Decimal → Result Decimal
unfolding filled_quantity
reserve_order m key i reserved =
    let filled = filled_quantity key m.reports in
    let remaining = sub i.quantity filled in
    if lt i.quantity filled
    then err (value_error "broker fill exceeds risk-approved order quantity")
    else if le remaining zero_dec
    then ok reserved
    else ok (
        add (add reserved (mul remaining i.reference_price))
          (lookup_or zero_dec key m.estimated_cost_by_key))

unfoldable pub reserve_intent : Memory → String → OrderIntent → Decimal → Result Decimal
unfolding reserve_order
reserve_intent m key i reserved =
    if not (is_buy i.side)
    then ok reserved
    else (or_raise (lookup key m.intent_id_by_key) (key_error key) >>= λ intent_id.
        if is_terminal (lookup_or created intent_id m.state_by_order)
        then ok reserved
        else reserve_order m key i reserved)

unfoldable pub reserve_intents : Memory → Dict OrderIntent → Decimal → Result Decimal
unfolding reserve_intent
reserve_intents m [] reserved = ok reserved
reserve_intents m ((key, i) ∷ intents) reserved =
    reserve_intent m key i reserved >>= reserve_intents m intents

-- `_reserved_cash`
unfoldable pub reserved_cash : Memory → Result Decimal
unfolding reserve_intents
reserved_cash m = reserve_intents m m.intents_by_key zero_dec

-- `_available_authorized_cash`
unfoldable pub available_authorized_cash : Settings → Memory → Result Decimal
unfolding authorized_portfolio reserved_cash
available_authorized_cash s m = do
  portfolio ← authorized_portfolio s m.reports
  reserved ← reserved_cash m
  ok (max (sub portfolio.cash reserved) zero_dec)

-- The quantity held of a symbol, 0 without a position
unfoldable pub position_quantity : String → PortfolioState → Decimal
position_quantity symbol portfolio = elim (lookup symbol portfolio.positions) [
  | none ↦ zero_dec
  | some position ↦ position.quantity
]

-- `proposal.quantity or Decimal("0")`
abbrev given : Option Decimal → Decimal
given none = zero_dec
given (some q) = if eq q zero_dec then zero_dec else q

-- The quantity that a closing action sells: `none` where the proposal says too little.
unfoldable pub sell_quantity : TradeProposal → Decimal → Option Decimal
sell_quantity p current = elim p.action [
  | TradeAction.reduce ↦ elim p.reduce_fraction [ none ↦ none | some f ↦ some (mul current f) ]
  | TradeAction.exit ↦ some current
  | _ ↦ some (given p.quantity)
]

unfoldable pub new_order :
    String → TradeProposal → OrderSide → Option Decimal → Result (Option OrderIntent)
unfolding create_intent
new_order uuid p side none = ok none
new_order uuid p side (some quantity) = do
  i ←
      create_intent uuid p.idempotency_key p.proposal_id p.symbol side quantity p.reference_price
        p.quote_currency
  ok (some i)

-- `_derive_intent`, with the uuid that a new order gets
unfoldable pub derive_intent :
    Settings → String → TradeProposal → List ExecutionReport → Result (Option OrderIntent)
derive_intent s uuid p reports =
    if is_passive p.action
    then ok none
    else (authorized_portfolio s reports >>= λ portfolio.
        if is_opening p.action
        then new_order uuid p OrderSide.buy p.quantity
        else new_order uuid p OrderSide.sell
            (sell_quantity p (position_quantity p.symbol portfolio)))

-- ===== src/Risk.antt =====
-- src/project_fifty/risk/engine.py: the checks that stand between a proposal and the broker.
pub mod Authority
use project_fifty.Prelude.{
  ℕ, ◌+◌, ◌*◌, String, Bool, true, false, ◌&&◌, ◌||◌, not, ltb, str_eq, contains, Option, none,
  some, List, if◌then◌else◌,
}
use project_fifty.Decimal.{Decimal, lt, le, eq, add, mul, zero_dec}
use project_fifty.Settings.{Settings}
use project_fifty.Control.{ControlState}
use project_fifty.Domain.{
  TradeAction, ExperimentMode, OrderSide, RejectionReason, TradeProposal, OrderIntent, RiskDecision,
  is_buy,
}

-- `action in {BUY, ADD}`, `action in {SELL, REDUCE, EXIT}` and `action in {HOLD, CANCEL}`
unfoldable pub is_opening : TradeAction → Bool
is_opening TradeAction.buy = true
is_opening TradeAction.add = true
is_opening _ = false

unfoldable pub is_closing : TradeAction → Bool
is_closing TradeAction.sell = true
is_closing TradeAction.reduce = true
is_closing TradeAction.exit = true
is_closing _ = false

unfoldable pub is_passive : TradeAction → Bool
is_passive TradeAction.hold = true
is_passive TradeAction.cancel = true
is_passive _ = false

unfoldable pub is_cancel : TradeAction → Bool
is_cancel TradeAction.cancel = true
is_cancel _ = false

-- `mode in {SAFE, DEAD}`
unfoldable pub is_restricted : ExperimentMode → Bool
is_restricted ExperimentMode.safe = true
is_restricted ExperimentMode.dead = true
is_restricted _ = false

abbrev pub deny : RejectionReason → RiskDecision
deny reason = record { approved = false; reason = reason }

abbrev pub approve : RiskDecision
approve = record { approved = true; reason = RejectionReason.approved }

-- `not proposal.cancel_order_id`: there is none, or it is empty.
unfoldable pub lacks_target : Option String → Bool
lacks_target none = true
lacks_target (some id) = str_eq id ""

-- Both amounts are given and do not agree.
unfoldable pub notional_mismatch : Option Decimal → Option Decimal → Decimal → Bool
notional_mismatch (some quantity) (some notional) price = not (eq (mul quantity price) notional)
notional_mismatch _ _ price = false

unfoldable pub foreign_intent : Option OrderIntent → String → Bool
foreign_intent none currency = false
foreign_intent (some i) currency = not (str_eq i.currency currency)

-- What a buy draws on the cash: notional, fee and slippage.
unfoldable pub total_cost : TradeProposal → OrderIntent → Decimal
total_cost p i = add (add i.notional p.estimated_fee) p.estimated_slippage

-- The checks of `evaluate` on the order itself.
unfoldable pub evaluate_intent :
    Settings → TradeProposal → OrderIntent → Decimal → Decimal → RiskDecision
unfolding is_opening is_closing notional_mismatch total_cost
evaluate_intent s p i cash position_qty =
    if notional_mismatch p.quantity p.notional p.reference_price
    then deny RejectionReason.notional_quantity_mismatch
    else if not (eq p.reference_price i.reference_price)
    then deny RejectionReason.notional_quantity_mismatch
    else if is_opening p.action && not (is_buy i.side)
    then deny RejectionReason.action_not_permitted
    else if is_closing p.action && is_buy i.side
    then deny RejectionReason.action_not_permitted
    else if is_closing p.action && (le i.quantity zero_dec || lt position_qty i.quantity)
    then deny RejectionReason.short_position_forbidden
    else if lt s.max_order_notional i.notional
    then deny RejectionReason.order_notional_limit
    else if is_buy i.side && lt cash (total_cost p i)
    then deny RejectionReason.insufficient_cash
    else approve

-- The age of the reference price in microseconds is above the limit; a price from the future has
-- a negative age.
unfoldable pub is_stale : Settings → TradeProposal → ℕ → Bool
is_stale s p now = ltb (p.reference_price_timestamp + s.max_stale_seconds * 1000000) now

-- `RiskEngine.evaluate`. The first check, that the action is one of the enumeration's, cannot fail.
unfoldable pub evaluate :
    Settings
    → TradeProposal
    → Option OrderIntent
    → Decimal
    → Decimal
    → ControlState
    → List String
    → ℕ
    → RiskDecision
unfolding is_opening is_passive is_cancel is_restricted lacks_target foreign_intent is_stale
    evaluate_intent
evaluate s p intent cash position_qty control known now =
    if not (contains p.symbol s.permitted_symbols)
    then deny RejectionReason.instrument_not_permitted
    else if not (str_eq p.quote_currency s.account_currency)
    then deny RejectionReason.currency_mismatch
    else if foreign_intent intent s.account_currency
    then deny RejectionReason.currency_mismatch
    else if contains p.idempotency_key known
    then deny RejectionReason.duplicate_idempotency_key
    else if lt p.estimated_fee zero_dec || lt p.estimated_slippage zero_dec
    then deny RejectionReason.estimated_cost_invalid
    else if is_stale s p now
    then deny RejectionReason.stale_reference_price
    else if control.kill_switch_active && is_opening p.action
    then deny RejectionReason.kill_switch_active
    else if is_restricted control.mode && is_opening p.action
    then deny RejectionReason.mode_restriction
    else if is_cancel p.action && lacks_target p.cancel_order_id
    then deny RejectionReason.cancel_target_required
    else if is_passive p.action
    then approve
    else elim intent [
      | none ↦ deny RejectionReason.invalid_schema
      | some i ↦ evaluate_intent s p i cash position_qty
    ]

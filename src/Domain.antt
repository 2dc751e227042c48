-- ===== src/Domain.antt =====
-- src/project_fifty/domain/models.py: the data that the components exchange, and the validators
-- that pydantic runs when a model is built. Amounts are finite decimals; times are microseconds
-- since the epoch. Fields that no modelled code reads (`created_at`, `as_of`, `message`, `detail`)
-- are left out.
use project_fifty.Prelude.{ℕ, ◌≡◌, ◌↔◌, Bool, true, false, Option, none, some, String, arith, ◌==◌}
use project_fifty.Prelude.Dict.{Dict}
use project_fifty.Outcome.{Result, ok, value_error, raise_if, ◌>>◌}
use project_fifty.Decimal.{Decimal, lt, le, mul, zero_dec, one}

pub data TradeAction : Type 0 where
  buy sell hold add reduce cancel exit : TradeAction

pub data ExperimentMode : Type 0 where
  normal defensive safe dead : ExperimentMode

pub data OrderSide : Type 0 where
  buy sell : OrderSide

pub data OrderStatus : Type 0 where
  created validated submitting acknowledged partially_filled filled rejected cancel_pending
        cancelled unknown :
      OrderStatus

pub data RejectionReason : Type 0 where
  approved invalid_schema action_not_permitted instrument_not_permitted non_finite_input
        negative_or_zero_input insufficient_cash short_position_forbidden order_notional_limit
        stale_reference_price duplicate_idempotency_key mode_restriction kill_switch_active
        estimated_cost_invalid notional_quantity_mismatch currency_mismatch cancel_target_required
        invalid_order_state_transition :
      RejectionReason

-- `==` of the enumerations, by the place of a member.
abbrev status_index : OrderStatus → ℕ
status_index OrderStatus.created = 0
status_index OrderStatus.validated = 1
status_index OrderStatus.submitting = 2
status_index OrderStatus.acknowledged = 3
status_index OrderStatus.partially_filled = 4
status_index OrderStatus.filled = 5
status_index OrderStatus.rejected = 6
status_index OrderStatus.cancel_pending = 7
status_index OrderStatus.cancelled = 8
status_index OrderStatus.unknown = 9

unfoldable pub status_eq : OrderStatus → OrderStatus → Bool
status_eq a b = status_index a == status_index b

pub status_eq_iff : (a b : OrderStatus) → (status_eq a b ≡ true) ↔ (a ≡ b)
unfolding status_eq
status_eq_iff a b = (ground arith, ground arith)

abbrev mode_index : ExperimentMode → ℕ
mode_index ExperimentMode.normal = 0
mode_index ExperimentMode.defensive = 1
mode_index ExperimentMode.safe = 2
mode_index ExperimentMode.dead = 3

unfoldable pub mode_eq : ExperimentMode → ExperimentMode → Bool
mode_eq a b = mode_index a == mode_index b

pub mode_eq_iff : (a b : ExperimentMode) → (mode_eq a b ≡ true) ↔ (a ≡ b)
unfolding mode_eq
mode_eq_iff a b = (ground arith, ground arith)

abbrev pub is_buy : OrderSide → Bool
is_buy OrderSide.buy = true
is_buy OrderSide.sell = false

pub record Position : Type 0 where
  pub symbol : String
  pub quantity : Decimal
  pub average_price : Decimal

pub record PortfolioState : Type 0 where
  pub cash : Decimal
  pub positions : Dict Position
  pub nav : Decimal
  pub currency : String

pub record TradeProposal : Type 0 where
  pub proposal_id : String
  pub idempotency_key : String
  pub symbol : String
  pub action : TradeAction
  pub quantity : Option Decimal
  pub notional : Option Decimal
  pub reduce_fraction : Option Decimal
  pub reference_price : Decimal
  pub reference_price_timestamp : ℕ
  pub estimated_fee : Decimal
  pub estimated_slippage : Decimal
  pub quote_currency : String
  pub cancel_order_id : Option String

pub record OrderIntent : Type 0 where
  pub intent_id : String
  pub idempotency_key : String
  pub proposal_id : String
  pub symbol : String
  pub side : OrderSide
  pub quantity : Decimal
  pub reference_price : Decimal
  pub notional : Decimal
  pub currency : String

pub record BrokerOrder : Type 0 where
  pub broker_order_id : String
  pub idempotency_key : String
  pub symbol : String
  pub side : OrderSide
  pub quantity : Decimal
  pub status : OrderStatus

pub record ExecutionReport : Type 0 where
  pub report_id : String
  pub broker_order_id : String
  pub idempotency_key : String
  pub symbol : String
  pub side : OrderSide
  pub status : OrderStatus
  pub fill_quantity : Decimal
  pub fill_price : Decimal
  pub fee : Decimal
  pub slippage : Decimal
  pub currency : String

pub record RiskDecision : Type 0 where
  pub approved : Bool
  pub reason : RejectionReason

-- The field validators: zero or more, and above zero.
unfoldable pub non_negative : Decimal → Result (Unit {0})
non_negative value = raise_if (lt value zero_dec) (value_error "must be non-negative")

unfoldable pub positive : Decimal → Result (Unit {0})
positive value = raise_if (le value zero_dec) (value_error "must be positive")

unfoldable pub non_negative_option : Option Decimal → Result (Unit {0})
unfolding non_negative
non_negative_option none = ok tt
non_negative_option (some value) = non_negative value

unfoldable pub at_most_one : Option Decimal → Result (Unit {0})
at_most_one none = ok tt
at_most_one (some value) = raise_if (lt one value) (value_error "reduce_fraction must be <= 1")

-- `Position(symbol=..., quantity=..., average_price=...)`
unfoldable pub new_position : String → Decimal → Decimal → Result Position
unfolding non_negative
new_position symbol quantity average_price = do
  non_negative quantity
  non_negative average_price
  ok (record { symbol = symbol; quantity = quantity; average_price = average_price })

-- `PortfolioState(cash=..., positions=..., nav=..., currency=...)`
unfoldable pub new_portfolio : Decimal → Dict Position → Decimal → String → Result PortfolioState
unfolding non_negative
new_portfolio cash positions nav currency = do
  non_negative cash
  non_negative nav
  ok (record { cash = cash; positions = positions; nav = nav; currency = currency })

-- `TradeProposal(...)`: the fields, if the validators pass them.
unfoldable pub validate_proposal : TradeProposal → Result TradeProposal
unfolding non_negative non_negative_option at_most_one positive
validate_proposal p = do
  positive p.reference_price
  non_negative p.estimated_fee
  non_negative p.estimated_slippage
  non_negative_option p.quantity
  non_negative_option p.notional
  non_negative_option p.reduce_fraction
  at_most_one p.reduce_fraction
  ok p

-- `OrderIntent.create`: `intent_id` is the uuid, and the notional is computed.
unfoldable pub create_intent :
    String → String → String → String → OrderSide → Decimal → Decimal → String → Result OrderIntent
unfolding positive
create_intent intent_id key proposal_id symbol side quantity reference_price currency = do
  positive quantity
  positive reference_price
  positive (mul quantity reference_price)
  ok (record {
    intent_id = intent_id;
    idempotency_key = key;
    proposal_id = proposal_id;
    symbol = symbol;
    side = side;
    quantity = quantity;
    reference_price = reference_price;
    notional = mul quantity reference_price;
    currency = currency;
  })

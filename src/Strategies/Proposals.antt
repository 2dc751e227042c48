-- ===== src/Strategies/Proposals.antt =====
-- src/project_fifty/strategies/proposal_builder.py: the proposals that move the authorised portfolio
-- to a target. sha256 over a text, as a hexadecimal text, is a parameter.
pub mod Sequence
use Prim.Native.String.{◌++◌ as str_append, slice}
use project_fifty.Prelude.{
  ℕ, suc, ◌+◌, String, Bool, true, false, not, ◌&&◌, ◌||◌, str_eq, ltb, ◌==◌, Option, none, some,
  List, [], ◌∷◌, ◌++◌, if◌then◌else◌,
}
use project_fifty.Prelude.Dict.{Dict, lookup, lookup_or}
use project_fifty.Prelude.Sort.{str_le, sort_by, sorted_keys}
use project_fifty.Prelude.Numerals.{str_of}
use project_fifty.Outcome.{Result, ok, err, value_error, raise_if, or_raise, ◌>>=◌, ◌>>◌}
use project_fifty.Decimal.{Decimal, lt, le, eq, add, sub, mul, div, min, neg, abs, zero_dec, one}
use project_fifty.Domain.{Position, PortfolioState, TradeAction, TradeProposal, validate_proposal}
use project_fifty.Strategies.Contracts.{StrategyContext, TargetPortfolio, is_empty}
use project_fifty.Strategies.Rebalance.{
  EconomicRebalanceConfig, RebalanceInstruction, RebalancePlan, for_symbol, quantity_of,
  validate_match, keys, plan,
}

pub record ProposalBuilder : Type 0 where
  pub min_order_notional : Decimal
  pub estimated_fee : Decimal
  pub estimated_slippage_rate : Decimal
  pub rebalance_policy : Option EconomicRebalanceConfig

-- `ProposalBuilder(...)`: the fields, if `__init__` passes them.
unfoldable pub validate_builder : ProposalBuilder → Result ProposalBuilder
validate_builder b = do
  raise_if (lt b.min_order_notional zero_dec)
      (value_error "min_order_notional must be finite and non-negative")
  raise_if (lt b.estimated_fee zero_dec)
      (value_error "estimated_fee must be finite and non-negative")
  raise_if (lt b.estimated_slippage_rate zero_dec || le one b.estimated_slippage_rate)
      (value_error "estimated_slippage_rate must be in [0, 1)")
  ok b

-- `_initial_buy_affordable_notional`
unfoldable pub initial_buy_affordable_notional : ProposalBuilder → Decimal → Result Decimal
initial_buy_affordable_notional b cash =
    let available_after_fee = sub cash b.estimated_fee in
    if le available_after_fee zero_dec
    then ok zero_dec
    else div available_after_fee (add one b.estimated_slippage_rate)

-- `action.value`
abbrev pub action_text : TradeAction → String
action_text TradeAction.buy = "BUY"
action_text TradeAction.sell = "SELL"
action_text TradeAction.hold = "HOLD"
action_text TradeAction.add = "ADD"
action_text TradeAction.reduce = "REDUCE"
action_text TradeAction.cancel = "CANCEL"
action_text TradeAction.exit = "EXIT"

abbrev bar_join : String → String → String
bar_join a b = str_append a (str_append "|" b)

unfoldable pub identity_of : TargetPortfolio → String → TradeAction → ℕ → String
unfolding str_of
identity_of target symbol action ordinal = bar_join target.strategy_id (
    bar_join target.strategy_version (
      bar_join target.market_state_hash
        (bar_join symbol (bar_join (action_text action) (str_of ordinal)))))

-- What a proposal asks for: the action with its quantity or fraction, and the notional that its
-- slippage is estimated on.
pub record Order : Type 0 where
  pub action : TradeAction
  pub quantity : Option Decimal
  pub reduce_fraction : Option Decimal
  pub estimated_notional : Decimal

abbrev pub notional_of : Option Decimal → Decimal → Option Decimal
notional_of none price = none
notional_of (some quantity) price = some (mul quantity price)

-- `priority[action]`; the builder makes no other action.
abbrev pub priority : TradeAction → ℕ
priority TradeAction.exit = 0
priority TradeAction.reduce = 1
priority _ = 2

-- The order of the tuples `(priority[action], symbol)`
unfoldable pub comes_before : TradeProposal → TradeProposal → Bool
comes_before p q =
    ltb (priority p.action) (priority q.action)
    || (priority p.action == priority q.action && str_le p.symbol q.symbol)

-- The order for a reduction: the fraction of the position that is sold
unfoldable pub reduce_order : Decimal → Decimal → Decimal → Result (Option Order)
reduce_order price current_quantity delta_notional =
    if le current_quantity zero_dec then ok none else (do
      wanted ← div (neg delta_notional) price
      let reduction_quantity = min wanted current_quantity
      fraction ← div reduction_quantity current_quantity
      ok (
          some (record {
            action = TradeAction.reduce;
            quantity = none;
            reduce_fraction = some fraction;
            estimated_notional = mul reduction_quantity price;
          })))

-- What is spent on a purchase: a first purchase is held to what the cash affords.
unfoldable pub executable_notional :
    ProposalBuilder → PortfolioState → Decimal → Decimal → Result Decimal
unfolding initial_buy_affordable_notional
executable_notional b portfolio current_quantity delta_notional =
    if eq current_quantity zero_dec && is_empty portfolio.positions
    then (do
      affordable ← initial_buy_affordable_notional b portfolio.cash
      ok (min delta_notional affordable))
    else ok delta_notional

unfoldable pub buy_order :
    ProposalBuilder → PortfolioState → Decimal → Decimal → Decimal → Result (Option Order)
unfolding executable_notional
buy_order b portfolio price current_quantity delta_notional = do
  spent ← executable_notional b portfolio current_quantity delta_notional
  quantity ←
      if lt spent b.min_order_notional then ok none else (div spent price >>= λ q. ok (some q))
  ok (elim quantity [
    | none ↦ none
    | some q ↦ some (record {
      action = if eq current_quantity zero_dec then TradeAction.buy else TradeAction.add;
      quantity = some q;
      reduce_fraction = none;
      estimated_notional = spent;
    })
  ])

-- The order for one symbol, from its price, the quantity held and the target's weight
unfoldable pub order_for :
    ProposalBuilder → PortfolioState → Decimal → Decimal → Decimal → Result (Option Order)
unfolding buy_order reduce_order
order_for b portfolio price current_quantity target_weight =
    let current_notional = mul current_quantity price in
    let delta_notional = sub (mul portfolio.nav target_weight) current_notional in
    if lt zero_dec current_quantity && eq target_weight zero_dec
    then ok (
        some (record {
          action = TradeAction.exit;
          quantity = none;
          reduce_fraction = none;
          estimated_notional = current_notional;
        }))
    else if lt (abs delta_notional) b.min_order_notional
    then ok none
    else if lt zero_dec delta_notional
    then buy_order b portfolio price current_quantity delta_notional
    else reduce_order price current_quantity delta_notional

-- The plan has an instruction for the symbol that does not execute.
abbrev pub is_suppressed : String → Option RebalancePlan → Bool
is_suppressed symbol none = false
is_suppressed symbol (some plan) = elim (for_symbol symbol plan) [
  | none ↦ false
  | some item ↦ not item.executes
]

abbrev pub append_option : List TradeProposal → Option TradeProposal → List TradeProposal
append_option built none = built
append_option built (some p) = built ++ p ∷ []

abbrev pub count : List TradeProposal → ℕ
count [] = 0
count (_ ∷ ps) = suc (count ps)

-- The plan of the policy, if there is one
unfoldable pub plan_of :
    Option EconomicRebalanceConfig
    → TargetPortfolio
    → StrategyContext
    → Result (Option RebalancePlan)
unfolding plan
plan_of none target context = ok none
plan_of (some config) target context = plan config target context >>= λ p. ok (some p)

module _ (sha256 : String → String) where
  -- The fields that `_proposal` gives
  unfoldable pub proposal_of :
      ProposalBuilder → TargetPortfolio → String → Decimal → ℕ → ℕ → Order → TradeProposal
  unfolding identity_of
  proposal_of b target symbol price timestamp ordinal o =
      let digest = sha256 (identity_of target symbol o.action ordinal) in
      record {
        proposal_id = str_append "strategy-" (slice digest 0 24);
        idempotency_key = str_append "strategy-" digest;
        symbol = symbol;
        action = o.action;
        quantity = o.quantity;
        notional = notional_of o.quantity price;
        reduce_fraction = o.reduce_fraction;
        reference_price = price;
        reference_price_timestamp = timestamp;
        estimated_fee = b.estimated_fee;
        estimated_slippage = mul o.estimated_notional b.estimated_slippage_rate;
        quote_currency = target.currency;
        cancel_order_id = none;
      }

  -- `_proposal`
  unfoldable pub new_proposal :
      ProposalBuilder → TargetPortfolio → String → Decimal → ℕ → ℕ → Order → Result TradeProposal
  unfolding proposal_of validate_proposal
  new_proposal b target symbol price timestamp ordinal o =
      validate_proposal (proposal_of b target symbol price timestamp ordinal o)

  unfoldable pub propose_order :
      ProposalBuilder
      → TargetPortfolio
      → String
      → Decimal
      → ℕ
      → ℕ
      → Option Order
      → Result (Option TradeProposal)
  unfolding new_proposal
  propose_order b target symbol price timestamp ordinal none = ok none
  propose_order b target symbol price timestamp ordinal (some o) = do
    p ← new_proposal b target symbol price timestamp ordinal o
    ok (some p)

  -- The body of the loop for a symbol that the plan does not suppress
  unfoldable pub propose_symbol :
      ProposalBuilder
      → TargetPortfolio
      → StrategyContext
      → String
      → ℕ
      → Result (Option TradeProposal)
  unfolding order_for propose_order lookup lookup_or
  propose_symbol b target context symbol ordinal = do
    price ←
        or_raise (lookup symbol context.reference_prices)
          (value_error "missing reference price or timestamp")
    timestamp ←
        or_raise (lookup symbol context.reference_price_timestamps)
          (value_error "missing reference price or timestamp")
    o ←
        order_for b context.portfolio price
          (quantity_of (lookup symbol context.portfolio.positions))
          (lookup_or zero_dec symbol target.weights)
    propose_order b target symbol price timestamp ordinal o

  -- The loop, with the proposals made so far
  unfoldable pub propose_symbols :
      ProposalBuilder
      → TargetPortfolio
      → StrategyContext
      → Option RebalancePlan
      → List String
      → List TradeProposal
      → Result (List TradeProposal)
  unfolding propose_symbol
  propose_symbols b target context p [] built = ok built
  propose_symbols b target context p (symbol ∷ symbols) built = elim (is_suppressed symbol p) [
    | true ↦ propose_symbols b target context p symbols built
    | false ↦ propose_symbol b target context symbol (count built) >>= λ made.
        propose_symbols b target context p symbols (append_option built made)
  ]

  -- `build_with_plan`
  unfoldable pub build_with_plan :
      ProposalBuilder
      → TargetPortfolio
      → StrategyContext
      → Result (List TradeProposal × Option RebalancePlan)
  unfolding validate_match plan_of propose_symbols sorted_keys sort_by
  build_with_plan b target context = do
    validate_match target context
    p ← plan_of b.rebalance_policy target context
    proposals ←
        propose_symbols b target context p
          (sorted_keys (keys context.portfolio.positions) (keys target.weights)) []
    ok (sort_by comes_before proposals, p)

  -- `build`
  unfoldable pub build :
      ProposalBuilder → TargetPortfolio → StrategyContext → Result (List TradeProposal)
  unfolding build_with_plan
  build b target context = build_with_plan b target context >>= λ built. ok built.0

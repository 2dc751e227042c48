-- ===== src/Strategies/Rebalance.antt =====
-- src/project_fifty/strategies/rebalance.py: which of a target's trades are worth making.
pub mod Plan
use project_fifty.Prelude.{
  String, Bool, true, false, not, ◌&&◌, ◌||◌, str_eq, ◌==◌, Option, none, some, List, [], ◌∷◌, map,
  if◌then◌else◌,
}
use project_fifty.Prelude.Dict.{Dict, lookup, lookup_or}
use project_fifty.Prelude.Sort.{sorted_keys}
use project_fifty.Outcome.{Result, ok, err, value_error, raise_if, or_raise, ◌>>=◌, ◌>>◌}
use project_fifty.Decimal.{Decimal, lt, le, eq, sub, mul, div, max, abs, zero_dec, one}
use project_fifty.Domain.{Position, PortfolioState}
use project_fifty.Strategies.Contracts.{StrategyContext, TargetPortfolio}

pub data RebalanceReason : Type 0 where
  execute forced_exit below_economic_threshold no_change : RebalanceReason

pub record EconomicRebalanceConfig : Type 0 where
  pub minimum_trade_notional : Decimal
  pub minimum_trade_fraction_of_nav : Decimal
  pub force_full_exits : Bool

-- `EconomicRebalanceConfig(...)`: the fields, if `__post_init__` passes them.
unfoldable pub validate_config : EconomicRebalanceConfig → Result EconomicRebalanceConfig
validate_config c = do
  raise_if (lt c.minimum_trade_notional zero_dec)
      (value_error "minimum_trade_notional must be finite and non-negative")
  raise_if (lt c.minimum_trade_fraction_of_nav zero_dec || lt one c.minimum_trade_fraction_of_nav)
      (value_error "minimum_trade_fraction_of_nav must be in [0, 1]")
  ok c

pub record RebalanceInstruction : Type 0 where
  pub symbol : String
  pub current_weight : Decimal
  pub target_weight : Decimal
  pub delta_notional : Decimal
  pub executes : Bool
  pub risk_reducing : Bool
  pub reason : RebalanceReason

pub record RebalancePlan : Type 0 where
  pub instructions : List RebalanceInstruction
  pub threshold_notional : Decimal

unfoldable pub find_instruction : String → List RebalanceInstruction → Option RebalanceInstruction
find_instruction symbol [] = none
find_instruction symbol (item ∷ items) = elim (str_eq item.symbol symbol) [
  | true ↦ some item
  | false ↦ find_instruction symbol items
]

-- `RebalancePlan.for_symbol`
unfoldable pub for_symbol : String → RebalancePlan → Option RebalanceInstruction
unfolding find_instruction
for_symbol symbol plan = find_instruction symbol plan.instructions

abbrev pub quantity_of : Option Position → Decimal
quantity_of none = zero_dec
quantity_of (some position) = position.quantity

unfoldable pub weight_of : Decimal → Decimal → Result Decimal
weight_of notional nav = if lt zero_dec nav then div notional nav else ok zero_dec

-- Whether to trade, whether that reduces risk, and the reason, from the amounts that decide.
unfoldable pub decide :
    EconomicRebalanceConfig → Decimal → Decimal → Decimal → Decimal → Bool × Bool × RebalanceReason
decide config threshold current_quantity target_weight delta_notional =
    if eq delta_notional zero_dec
    then (false, false, RebalanceReason.no_change)
    else if (lt zero_dec current_quantity && eq target_weight zero_dec) && config.force_full_exits
    then (true, true, RebalanceReason.forced_exit)
    else if le threshold (abs delta_notional)
    then (true, lt delta_notional zero_dec, RebalanceReason.execute)
    else (false, lt delta_notional zero_dec, RebalanceReason.below_economic_threshold)

-- The body of the loop in `plan`
unfoldable pub plan_symbol :
    EconomicRebalanceConfig
    → Decimal
    → TargetPortfolio
    → StrategyContext
    → String
    → Result RebalanceInstruction
unfolding decide weight_of lookup lookup_or
plan_symbol config threshold target context symbol = do
  price ←
      or_raise (lookup symbol context.reference_prices)
        (value_error "missing reference price for rebalance symbol")
  let current_quantity = quantity_of (lookup symbol context.portfolio.positions)
  let current_notional = mul current_quantity price
  current_weight ← weight_of current_notional context.portfolio.nav
  let target_weight = lookup_or zero_dec symbol target.weights
  let delta_notional = sub (mul context.portfolio.nav target_weight) current_notional
  let verdict = decide config threshold current_quantity target_weight delta_notional
  ok (record {
    symbol = symbol;
    current_weight = current_weight;
    target_weight = target_weight;
    delta_notional = delta_notional;
    executes = verdict.0;
    risk_reducing = verdict.1;
    reason = verdict.2;
  })

unfoldable pub plan_symbols :
    EconomicRebalanceConfig
    → Decimal
    → TargetPortfolio
    → StrategyContext
    → List String
    → Result (List RebalanceInstruction)
unfolding plan_symbol
plan_symbols config threshold target context [] = ok []
plan_symbols config threshold target context (symbol ∷ symbols) =
    let rest = plan_symbols config threshold target context symbols in
    do item ← plan_symbol config threshold target context symbol; items ← rest; ok (item ∷ items)

-- `_validate`, here and in the proposal builder
unfoldable pub validate_match : TargetPortfolio → StrategyContext → Result (Unit {0})
validate_match target context = do
  raise_if (not (str_eq target.currency context.currency))
      (value_error "target currency must match strategy context currency")
  raise_if (not (str_eq target.market_state_hash context.market_state_hash))
      (value_error "target was not generated from the current market state")
  raise_if (not (target.as_of == context.as_of))
      (value_error "target timestamp must match strategy context timestamp")
  raise_if (lt context.portfolio.nav zero_dec)
      (value_error "portfolio NAV must be finite and non-negative")

abbrev pub keys {ℓ} : {V : Type ℓ} → Dict V → List String
keys = map (λ e. e.0)

-- `EconomicRebalancePolicy.plan`
unfoldable pub plan :
    EconomicRebalanceConfig → TargetPortfolio → StrategyContext → Result RebalancePlan
unfolding validate_match plan_symbols sorted_keys
plan config target context = do
  validate_match target context
  let threshold =
      max config.minimum_trade_notional
        (mul context.portfolio.nav config.minimum_trade_fraction_of_nav)
  items ←
      plan_symbols config threshold target context
        (sorted_keys (keys context.portfolio.positions) (keys target.weights))
  ok (record { instructions = items; threshold_notional = threshold })

-- ===== src/Tests/Strategies.antt =====
-- Examples for the strategies' contracts, the rebalance plan and the proposal builder.
use project_fifty.Prelude.{ℕ, String, ◌≡◌, refl, true, Option, none, some, List, [], ◌∷◌, map}
use project_fifty.Prelude.Sort.{All, sorted_keys}
use project_fifty.Outcome.{Result, ok, err}
use project_fifty.Decimal.{lt, le, eq, sub, mul, div, max, abs, zero_dec}
use project_fifty.Domain.{TradeAction, TradeProposal}
use project_fifty.Strategies.Contracts.{
  MarketBar, StrategyContext, TargetPortfolio, validate_context,
}
use project_fifty.Strategies.Rebalance.{
  EconomicRebalanceConfig, RebalancePlan, for_symbol, plan, keys,
}
use project_fifty.Strategies.Rebalance.Plan.{IsThreshold, IsInstruction, plan-IsInstruction}
use project_fifty.Strategies.Proposals.{ProposalBuilder, comes_before, build_with_plan}
use project_fifty.Tests.Data.{units, per_thousand}

abbrev bar : ℕ → MarketBar
bar time = record {
  timestamp = time;
  open_price = units 10;
  high = units 12;
  low = units 9;
  close = units 11;
  volume = units 1;
}

abbrev context : StrategyContext
context = record {
  as_of = 50;
  currency = "USD";
  portfolio = record {
    cash = units 100;
    positions =
        ("TEST", record { symbol = "TEST"; quantity = units 5; average_price = units 10 }) ∷ [];
    nav = units 150;
    currency = "USD";
  };
  reference_prices = ("TEST", units 10) ∷ ("SPY", units 20) ∷ [];
  reference_price_timestamps = ("TEST", 40) ∷ ("SPY", 50) ∷ [];
  market_state_hash = "state";
  history = ("TEST", bar 30 ∷ bar 40 ∷ []) ∷ [];
  benchmark_symbol = some "TEST";
}

accepted : validate_context context ≡ ok context
unfolding validate_context le
accepted = refl

abbrev target : TargetPortfolio
target = record {
  as_of = 50;
  currency = "USD";
  weights = ("SPY", per_thousand 500) ∷ [];
  cash_weight = per_thousand 500;
  strategy_id = "s";
  strategy_version = "1";
  confidence = units 1;
  market_state_hash = "state";
}

abbrev config : EconomicRebalanceConfig
config = record {
  minimum_trade_notional = units 2;
  minimum_trade_fraction_of_nav = per_thousand 75;
  force_full_exits = true;
}

abbrev value_or {ℓ} : {A : Type ℓ} → A → Result A → A
value_or a (ok b) = b
value_or a (err e) = a

abbrev planned : RebalancePlan
planned =
    value_or (record { instructions = []; threshold_notional = zero_dec })
      (plan config target context)

plans : plan config target context ≡ ok planned
unfolding plan lt div
plans = refl

plan-IsInstruction_example :
    IsThreshold config context planned.threshold_notional
    × (sorted_keys (keys context.portfolio.positions) (keys target.weights)
        ≡ map (λ item. item.symbol) planned.instructions)
    × All (IsInstruction config planned.threshold_notional target context) planned.instructions
plan-IsInstruction_example = plan-IsInstruction config target context planned plans

abbrev builder : ProposalBuilder
builder = record {
  min_order_notional = units 1;
  estimated_fee = zero_dec;
  estimated_slippage_rate = per_thousand 1;
  rebalance_policy = some config;
}

abbrev hash : String → String
hash text = text

abbrev built : List TradeProposal × Option RebalancePlan
built = value_or ([], none) (build_with_plan hash builder target context)

-- The position is closed before the other symbol is bought.
actions : map (λ (p : TradeProposal). p.action) built.0 ≡ TradeAction.exit ∷ TradeAction.buy ∷ []
unfolding build_with_plan lt div for_symbol eq sub mul le abs max comes_before
actions = refl

-- ===== src/Tests/Targets.antt =====
-- Examples for the strategies that choose the targets.
use project_fifty.Prelude.Dict.{lookup_or}
use project_fifty.Outcome.{ok, ok_injective}
use project_fifty.Decimal.{lt, one, le, sub, div, zero_dec, eq, add}
use project_fifty.Prelude.Seq.{length}
use project_fifty.Prelude.{refl, ℕ, ◌≡◌, List, [], ◌⊎◌, ◌+◌, ◌∷◌, ◌-◌, String, some, true, subst}
use project_fifty.Prelude.Ascii.{strip_upper, codes}
use project_fifty.Strategies.Contracts.{TargetPortfolio, StrategyContext, MarketBar}
use project_fifty.Strategies.SingleMarket.Sound.{
  IsTarget, IsKept, IsDue, IsRegime, generate_target-IsTarget,
}
use project_fifty.Strategies.LowFrequency.Held.{IsMomentumTarget, IsHeldOnly}
use project_fifty.Strategies.LowFrequency.Sound.{IsOpenGate, IsEntry, low_frequency_target-IsChoice}
use project_fifty.Strategies.LowFrequency.{
  low_frequency_target, LowFrequencyMomentumConfig, momentum_fields,
}
use project_fifty.Strategies.SingleMarket.{
  validate_trend, validated_inputs, generate_target, SingleMarketTrendConfig, target_fields,
  is_scheduled,
}
use project_fifty.Tests.Data.{units, per_thousand}

abbrev bar : ℕ → ℕ → MarketBar
bar time price = record {
  timestamp = time;
  open_price = units price;
  high = units (price + 1);
  low = units (price - 1);
  close = units price;
  volume = units 1;
}

-- Three bars of a rising market, and a portfolio of cash
abbrev context : StrategyContext
context = record {
  as_of = 50;
  currency = "USD";
  portfolio = record { cash = units 100; positions = []; nav = units 100; currency = "USD" };
  reference_prices = ("SPY", units 12) ∷ ("TEST", units 24) ∷ [];
  reference_price_timestamps = ("SPY", 50) ∷ ("TEST", 50) ∷ [];
  market_state_hash = "state";
  history =
      ("SPY", bar 10 10 ∷ bar 20 11 ∷ bar 30 12 ∷ [])
      ∷ ("TEST", bar 10 20 ∷ bar 20 22 ∷ bar 30 24 ∷ [])
      ∷ [];
  benchmark_symbol = some "SPY";
}

abbrev trend : SingleMarketTrendConfig
trend = record { symbol = "SPY"; rebalance_every_bars = 3; trend_sma_days = 2; momentum_days = 1 }

validates : validate_trend trend ≡ ok trend
unfolding validate_trend
validates = refl

-- The text is stripped and put in upper case before it is compared.
spelled : strip_upper " Spy\t" ≡ codes "SPY"
unfolding strip_upper
spelled = refl

enters : generate_target trend context ≡ ok (target_fields context (("SPY", one) ∷ []) zero_dec)
unfolding generate_target lt le div eq add sub
enters = refl

abbrev entered : TargetPortfolio
entered = target_fields context (("SPY", one) ∷ []) zero_dec

generate_target-IsTarget_example :
    let bars = lookup_or [] "SPY" context.history in
    IsTarget trend context entered
    × ((¬ IsDue trend context bars × IsKept trend context entered)
        ⊎ (IsDue trend context bars × IsRegime trend context bars entered))
generate_target-IsTarget_example = generate_target-IsTarget trend context entered enters

inputs :
    (bars : List MarketBar)
    → validated_inputs trend context ≡ ok bars
    → is_scheduled trend bars ≡ true
unfolding validated_inputs length
inputs bars h =
    subst (λ (x : List MarketBar). is_scheduled trend x ≡ true) (ok_injective _ bars h) refl

abbrev rotation : LowFrequencyMomentumConfig
rotation = record {
  rebalance_every_bars = 3;
  benchmark_sma_days = 2;
  candidate_sma_days = 2;
  momentum_days = 1;
  target_risk_weight = per_thousand 700;
  replacement_margin = per_thousand 50;
}

abbrev rotated : TargetPortfolio
rotated = momentum_fields context (("TEST", per_thousand 700) ∷ []) (sub one (per_thousand 700))

rotates : low_frequency_target rotation context (some "SPY") ≡ ok rotated
unfolding low_frequency_target lt le div eq add sub
rotates = refl

low_frequency_target-IsChoice_example :
    IsMomentumTarget context rotated
    × (IsHeldOnly context rotated
        ⊎ ((benchmark : String) × (context.benchmark_symbol ≡ some benchmark)
            × IsOpenGate rotation context (lookup_or [] benchmark context.history)
            × IsEntry rotation context benchmark rotated))
low_frequency_target-IsChoice_example =
    low_frequency_target-IsChoice rotation context rotated rotates

-- ===== src/Tests/Technical.antt =====
-- Examples for the technical strategy in its four versions.
use project_fifty.Prelude.Sort.{All}
use project_fifty.Prelude.Dict.{has_key}
use project_fifty.Prelude.{
  ℕ, ◌+◌, ◌*◌, ◌-◌, ◌≡◌, refl, some, [], ◌∷◌, List, map, String, true, contains, ◌≤◌,
}
use project_fifty.Outcome.{Result, ok, err, value_error}
use project_fifty.Decimal.{
  Decimal, digit_count, round_half_even, fix_magnitude, fix, lt, le, eq, add, sub, mul,
  quotient_digits, div, max, min, neg, abs, zero_dec,
}
use project_fifty.Strategies.Contracts.{MarketBar, StrategyContext, TargetPortfolio}
use project_fifty.Strategies.Baseline.{
  BaselineConfig, RegimeState, risk_on, shock, default_config, risk_budget, hundredths,
}
use project_fifty.Strategies.Baseline.Signals.{detect_regime, SignalBreakdown}
use project_fifty.Strategies.Baseline.Target.{baseline_target, signals_of}
use project_fifty.Strategies.Baseline.Target.Selected.{
  IsWeighing, IsAdmissible, baseline_target-IsWeighing,
}
use project_fifty.Strategies.Persistent.{
  PersistentBaselineConfig, persistent_target, retained_signals,
}
use project_fifty.Strategies.Persistent.Kept.{IsUnbeaten, Selects, persistent_target-has_key}
use project_fifty.Strategies.Persistent.Chosen.{
  IsChoosable, IsEqualWeighing, persistent_target-IsEqualWeighing,
}
use project_fifty.Strategies.Confirmed.{ConfirmedPersistentConfig, confirmed_target}
use project_fifty.Strategies.Confirmed.Members.{IsConfirmed}
use project_fifty.Strategies.Confirmed.Chosen.{confirmed_target-IsEqualWeighing}
use project_fifty.Strategies.RegimePersistent.{regime_persistent_target}
use project_fifty.Strategies.RegimePersistent.Cautious.{
  exposure, IsProvenFor, regime_persistent_target-IsEqualWeighing,
}
use project_fifty.Tests.Data.{units}

abbrev bar : ℕ → ℕ → MarketBar
bar time price = record {
  timestamp = time;
  open_price = units price;
  high = units (price + 1);
  low = units (price - 1);
  close = units price;
  volume = units time;
}

abbrev rising : ℕ → List MarketBar
rising step = map (λ n. bar n (200 + step * n)) (1 ∷ 2 ∷ 3 ∷ 4 ∷ 5 ∷ 6 ∷ [])

abbrev context : StrategyContext
context = record {
  as_of = 6;
  currency = "USD";
  portfolio = record {
    cash = units 100;
    positions =
        ("AAA", record { symbol = "AAA"; quantity = units 5; average_price = units 10 }) ∷ [];
    nav = units 150;
    currency = "USD";
  };
  reference_prices =
      ("CCC", units 212) ∷ ("AAA", units 206) ∷ ("BBB", units 212) ∷ ("SPY", units 206) ∷ [];
  reference_price_timestamps = ("CCC", 6) ∷ ("AAA", 6) ∷ ("BBB", 6) ∷ ("SPY", 6) ∷ [];
  market_state_hash = "state";
  history = ("AAA", rising 1) ∷ ("BBB", rising 2) ∷ ("CCC", rising 2) ∷ ("SPY", rising 1) ∷ [];
  benchmark_symbol = some "SPY";
}

abbrev config : ℕ → BaselineConfig
config slots = record default_config {
  fast_ema_period = 1;
  slow_ema_period = 2;
  regime_fast_period = 2;
  regime_slow_period = 3;
  rsi_period = 1;
  atr_period = 1;
  breakout_period = 2;
  short_momentum_lookback = 1;
  medium_momentum_lookback = 1;
  volume_lookback = 1;
  max_positions = slots;
  minimum_score = hundredths 1;
}

abbrev value_or {ℓ} : {A : Type ℓ} → A → Result A → A
value_or a (ok b) = b
value_or a (err e) = a

abbrev nothing : TargetPortfolio
nothing = record {
  as_of = 0;
  currency = "";
  weights = [];
  cash_weight = zero_dec;
  strategy_id = "";
  strategy_version = "";
  confidence = zero_dec;
  market_state_hash = "";
}

abbrev weighed : TargetPortfolio
weighed = value_or nothing (baseline_target (config 2) context)

weighs : baseline_target (config 2) context ≡ ok weighed
unfolding baseline_target digit_count round_half_even fix_magnitude fix lt le eq add sub mul
    quotient_digits div max min neg abs
weighs = refl

symbols : map (λ (entry : String × Decimal). entry.0) weighed.weights ≡ "BBB" ∷ "CCC" ∷ []
unfolding baseline_target digit_count round_half_even fix_magnitude fix lt le eq add sub mul
    quotient_digits div max min neg abs
symbols = refl

baseline_target-IsWeighing_example :
    IsWeighing (IsAdmissible (config 2) context) 2 weighed
    × (detect_regime (config 2) context (some "SPY") ≡ ok shock → weighed.weights ≡ [])
baseline_target-IsWeighing_example = baseline_target-IsWeighing (config 2) context weighed weighs

-- In a market that rises the whole budget of RISK_ON is used.
rises : detect_regime (config 2) context (some "SPY") ≡ ok risk_on
unfolding detect_regime digit_count round_half_even fix_magnitude fix lt le eq add sub mul
    quotient_digits div max min neg abs
rises = refl

abbrev persistent : ℕ → PersistentBaselineConfig
persistent slots = record {
  signal_config = config slots;
  entry_score = hundredths 1;
  retention_score = hundredths 1;
  replacement_margin = hundredths 5;
}

abbrev kept : TargetPortfolio
kept = value_or nothing (persistent_target (persistent 2) context)

keeps : persistent_target (persistent 2) context ≡ ok kept
unfolding persistent_target digit_count round_half_even fix_magnitude fix lt le eq add sub mul
    quotient_digits div max min neg abs
keeps = refl

persistent_target-IsEqualWeighing_example :
    (regime : RegimeState) × (detect_regime (config 2) context (some "SPY") ≡ ok regime)
    × IsEqualWeighing
        (IsChoosable (persistent 2) context)
        2
        "2.0.0"
        context
        (risk_budget (config 2) regime)
        kept
persistent_target-IsEqualWeighing_example =
    persistent_target-IsEqualWeighing (persistent 2) context kept keeps

-- With a margin of 0.50 the incumbent keeps its place beside one that has a better score.
abbrev sticky : PersistentBaselineConfig
sticky = record (persistent 2) { replacement_margin = hundredths 50 }

abbrev holding : TargetPortfolio
holding = value_or nothing (persistent_target sticky context)

holds : persistent_target sticky context ≡ ok holding
unfolding persistent_target digit_count round_half_even fix_magnitude fix lt le eq add sub mul
    quotient_digits div max min neg abs
holds = refl

abbrev scored : List SignalBreakdown
scored = value_or [] (signals_of (config 2) context)

scores : signals_of (config 2) context ≡ ok scored
unfolding signals_of digit_count round_half_even fix_magnitude fix lt le eq add sub mul
    quotient_digits div max min neg abs
scores = refl

retains : Selects "AAA" (retained_signals sticky context scored)
unfolding retained_signals signals_of contains digit_count round_half_even fix_magnitude fix lt le
    eq add sub mul quotient_digits div max min neg abs
retains = refl

unbeaten : All (IsUnbeaten (hundredths 50) "AAA" scored) scored
unfolding signals_of digit_count round_half_even fix_magnitude fix lt le eq add sub mul
    quotient_digits div max min neg abs
unbeaten = (
  ((λ e. refl), ((λ e. refl), ((λ e. refl), tt))),
  (
    ((λ e. refl), ((λ e. refl), ((λ e. refl), tt))),
    (((λ e. refl), ((λ e. refl), ((λ e. refl), tt))), tt),
  ),
)

persistent_target-has_key_example : has_key "AAA" holding.weights ≡ true
unfolding eq risk_budget
persistent_target-has_key_example =
    persistent_target-has_key sticky context scored "AAA" risk_on holding rises refl scores retains
      unbeaten holds

-- Three equal weights of 0.70 / 3 are rounded, and with 0.30 in cash they do not add up to 1.
rounded :
    persistent_target (persistent 3) context
    ≡ err (value_error "target symbol weights plus cash_weight must equal exactly 1")
unfolding persistent_target digit_count round_half_even fix_magnitude fix lt le eq add sub mul
    quotient_digits div max min neg abs
rounded = refl

abbrev confirmed : ConfirmedPersistentConfig
confirmed = record {
  signal_config = config 2;
  entry_score = hundredths 1;
  retention_score = hundredths 1;
  replacement_margin = hundredths 5;
  entry_confirmation_bars = 2;
  exit_confirmation_bars = 2;
  replacement_confirmation_bars = 2;
}

abbrev steady : TargetPortfolio
steady = value_or nothing (confirmed_target confirmed context)

confirms : confirmed_target confirmed context ≡ ok steady
unfolding confirmed_target digit_count round_half_even fix_magnitude fix lt le eq add sub mul
    quotient_digits div max min neg abs
confirms = refl

confirmed_target-IsEqualWeighing_example :
    (regime : RegimeState) × (detect_regime (config 2) context (some "SPY") ≡ ok regime)
    × IsEqualWeighing
        (IsConfirmed confirmed context)
        2
        "3.0.0"
        context
        (risk_budget (config 2) regime)
        steady
confirmed_target-IsEqualWeighing_example =
    confirmed_target-IsEqualWeighing confirmed context steady confirms

abbrev cautious : TargetPortfolio
cautious = value_or nothing (regime_persistent_target confirmed context)

guarded : regime_persistent_target confirmed context ≡ ok cautious
unfolding regime_persistent_target digit_count round_half_even fix_magnitude fix lt le eq add sub
    mul quotient_digits div max min neg abs
guarded = refl

-- The challenger that the last bars confirm replaces the weakest incumbent.
cautious_symbols : map (λ (entry : String × Decimal). entry.0) cautious.weights ≡ "BBB" ∷ "CCC" ∷ []
unfolding regime_persistent_target digit_count round_half_even fix_magnitude fix lt le eq add sub
    mul quotient_digits div max min neg abs
cautious_symbols = refl

regime_persistent_target-IsEqualWeighing_example :
    (raw : RegimeState) × (effective : RegimeState) × (detect_regime (config 2) context (some "SPY")
      ≡ ok raw)
    × (exposure effective ≤ exposure raw)
    × (effective ≡ risk_on → IsProvenFor (config 2) context (some "SPY"))
    × IsEqualWeighing
        (IsConfirmed confirmed context)
        2
        "4.0.0"
        context
        (risk_budget (config 2) effective)
        cautious
    × (raw ≡ shock → cautious.weights ≡ [])
regime_persistent_target-IsEqualWeighing_example =
    regime_persistent_target-IsEqualWeighing confirmed context cautious guarded

-- The bars that a score requires leave out the short lookback: a longer one raises in place of the
-- status of too few bars.
short_raises :
    baseline_target (record (config 2) { short_momentum_lookback = 6 }) context
    ≡ err (value_error "insufficient values for ROC")
unfolding baseline_target digit_count round_half_even fix_magnitude fix lt le eq add sub mul
    quotient_digits div max min neg abs
short_raises = refl

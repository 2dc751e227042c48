-- ===== src/Strategies/RegimePersistent.antt =====
-- src/project_fifty/strategies/regime_persistent.py: a riskier regime is one that the last bars
-- confirm, and an adverse one counts at once.
pub mod Cautious
use project_fifty.Prelude.{
  ℕ, suc, ◌-◌, String, Bool, true, false, ◌&&◌, ◌||◌, ltb, Option, none, some, List, [], ◌∷◌,
  if◌then◌else◌,
}
use project_fifty.Prelude.Dict.{Dict, lookup_or}
use project_fifty.Prelude.Seq.{length, take, from_end}
use project_fifty.Outcome.{Result, ok, ◌>>=◌}
use project_fifty.Strategies.Contracts.{MarketBar, StrategyContext, TargetPortfolio}
use project_fifty.Strategies.Baseline.{
  BaselineConfig, RegimeState, risk_on, neutral, risk_off, shock,
}
use project_fifty.Strategies.Baseline.Signals.{regime_of_bars}
use project_fifty.Strategies.Confirmed.{ConfirmedPersistentConfig, confirmed_target_in}

pub record RegimePersistenceDiagnostics : Type 0 where
  pub raw_regime : RegimeState
  pub effective_regime : RegimeState
  pub recent_raw_regimes : List RegimeState
  pub reason : String

abbrev pub regime_confirmation_bars : ℕ
regime_confirmation_bars = 3

-- `_raw_regime_for_bars`, whose code is that of the baseline's `_detect_regime` from the bars on
unfoldable pub raw_regime_for_bars : BaselineConfig → List MarketBar → Result RegimeState
unfolding regime_of_bars
raw_regime_for_bars c bars = regime_of_bars c bars

-- The regimes of the windows, with the end of the next one and the windows left
unfoldable pub regimes_from : BaselineConfig → List MarketBar → ℕ → ℕ → Result (List RegimeState)
unfolding raw_regime_for_bars take
regimes_from c bars end ℕ.zero = ok []
regimes_from c bars end (suc left) = raw_regime_for_bars c (take end bars) >>= λ regime.
    regimes_from c bars (suc end) left >>= λ regimes. ok (regime ∷ regimes)

-- `max(1, len(bars) - count + 1)`
unfoldable pub first_end : ℕ → ℕ → ℕ
first_end many count = if ltb 1 (suc many - count) then suc many - count else 1

-- `_recent_raw_regimes`
unfoldable pub recent_raw_regimes : BaselineConfig → List MarketBar → ℕ → Result (List RegimeState)
unfolding regimes_from first_end length
recent_raw_regimes c [] count = ok []
recent_raw_regimes c (bar ∷ bars) count =
    let start = first_end (length (bar ∷ bars)) count in
    regimes_from c (bar ∷ bars) start (suc (length (bar ∷ bars)) - start)

abbrev pub all_risk_on : List RegimeState → Bool
all_risk_on [] = true
all_risk_on (risk_on ∷ regimes) = all_risk_on regimes
all_risk_on (_ ∷ regimes) = false

abbrev pub any_adverse : List RegimeState → Bool
any_adverse [] = false
any_adverse (risk_off ∷ regimes) = true
any_adverse (shock ∷ regimes) = true
any_adverse (_ ∷ regimes) = any_adverse regimes

-- `sequence[-1] if sequence else NEUTRAL`
unfoldable pub raw_of : List RegimeState → RegimeState
raw_of [] = neutral
raw_of (regime ∷ []) = regime
raw_of (regime ∷ other ∷ regimes) = raw_of (other ∷ regimes)

-- The effective regime and the reason, where the raw one is not adverse
unfoldable pub confirm_regime : RegimeState → List RegimeState → RegimeState × String
unfolding length
confirm_regime raw sequence =
    if ltb (length sequence) regime_confirmation_bars
    then (neutral, "INSUFFICIENT_REGIME_CONFIRMATION")
    else if all_risk_on sequence
    then (risk_on, "RISK_ON_CONFIRMED")
    else if any_adverse sequence
    then (risk_off, "RECOVERY_UNCONFIRMED")
    else elim raw [
      | risk_on ↦ (neutral, "RISK_ON_UNCONFIRMED")
      | _ ↦ (neutral, "NEUTRAL_CONFIRMED")
    ]

unfoldable pub effective_of : RegimeState → List RegimeState → RegimeState × String
unfolding confirm_regime
effective_of shock sequence = (shock, "SHOCK_EXIT")
effective_of risk_off sequence = (risk_off, "RISK_OFF_IMMEDIATE")
effective_of raw sequence = confirm_regime raw sequence

unfoldable pub diagnose : List RegimeState → RegimePersistenceDiagnostics
unfolding raw_of effective_of
diagnose sequence =
    let raw = raw_of sequence in
    let (effective, reason) = effective_of raw sequence in
    record {
      raw_regime = raw;
      effective_regime = effective;
      recent_raw_regimes = sequence;
      reason = reason;
    }

-- `regime_diagnostics`
unfoldable pub regime_diagnostics :
    BaselineConfig → StrategyContext → Option String → Result RegimePersistenceDiagnostics
unfolding recent_raw_regimes diagnose lookup_or
regime_diagnostics c context none = ok (record {
  raw_regime = neutral;
  effective_regime = neutral;
  recent_raw_regimes = [];
  reason = "NO_BENCHMARK";
})
regime_diagnostics c context (some benchmark) =
    recent_raw_regimes c (lookup_or [] benchmark context.history) regime_confirmation_bars
    >>= λ sequence. ok (diagnose sequence)

-- `generate_target`: the confirmed strategy in the effective regime
unfoldable pub regime_persistent_target :
    ConfirmedPersistentConfig → StrategyContext → Result TargetPortfolio
unfolding regime_diagnostics confirmed_target_in
regime_persistent_target c context =
    regime_diagnostics c.signal_config context context.benchmark_symbol >>= λ d.
    confirmed_target_in c context "4.0.0" d.effective_regime

-- ===== src/Strategies/Baseline.antt =====
-- src/project_fifty/strategies/baseline.py: the regimes, the configuration and the decimals that its
-- code names. `Indicators`, `Signals` and `Target` have its functions. Evidence is left out.
pub mod Indicators
pub mod Signals
pub mod Target
use project_fifty.Prelude.{ℕ, Bool, ◌||◌, leb, ◌==◌}
use project_fifty.Prelude.Int.{pos, sub_ℕ}
use project_fifty.Outcome.{Result, ok, value_error, raise_if, ◌>>=◌, ◌>>◌}
use project_fifty.Decimal.{Decimal, lt, zero_dec, one}
use project_fifty.Strategies.Contracts.{is_outside_unit}

pub data RegimeState : Type 0 where
  risk_on neutral risk_off shock : RegimeState

-- `Decimal("0.n")` with two digits and with three, and its negation
abbrev pub hundredths : ℕ → Decimal
hundredths n = record { coef = pos n; scale = 2 }

abbrev pub thousandths : ℕ → Decimal
thousandths n = record { coef = pos n; scale = 3 }

abbrev pub minus_hundredths : ℕ → Decimal
minus_hundredths n = record { coef = sub_ℕ 0 n; scale = 2 }

abbrev pub minus_one : Decimal
minus_one = record { coef = sub_ℕ 0 1; scale = 0 }

pub record BaselineConfig : Type 0 where
  pub fast_ema_period : ℕ
  pub slow_ema_period : ℕ
  pub regime_fast_period : ℕ
  pub regime_slow_period : ℕ
  pub rsi_period : ℕ
  pub atr_period : ℕ
  pub breakout_period : ℕ
  pub short_momentum_lookback : ℕ
  pub medium_momentum_lookback : ℕ
  pub volume_lookback : ℕ
  pub max_positions : ℕ
  pub minimum_score : Decimal
  pub risk_on_budget : Decimal
  pub neutral_budget : Decimal
  pub risk_off_budget : Decimal

abbrev pub default_config : BaselineConfig
default_config = record {
  fast_ema_period = 12;
  slow_ema_period = 26;
  regime_fast_period = 20;
  regime_slow_period = 50;
  rsi_period = 14;
  atr_period = 14;
  breakout_period = 20;
  short_momentum_lookback = 5;
  medium_momentum_lookback = 20;
  volume_lookback = 20;
  max_positions = 2;
  minimum_score = hundredths 15;
  risk_on_budget = hundredths 70;
  neutral_budget = hundredths 40;
  risk_off_budget = hundredths 15;
}

-- A period that is not positive
abbrev pub any_zero : BaselineConfig → Bool
any_zero c =
    (c.fast_ema_period == 0
      || c.slow_ema_period == 0
      || c.regime_fast_period == 0
      || c.regime_slow_period == 0
      || c.rsi_period == 0
      || c.atr_period == 0)
    || (c.breakout_period == 0
        || c.short_momentum_lookback == 0
        || c.medium_momentum_lookback == 0
        || c.volume_lookback == 0
        || c.max_positions == 0)

-- `BaselineConfig(...)`: the fields, if `__post_init__` passes them.
unfoldable pub validate_baseline : BaselineConfig → Result BaselineConfig
unfolding is_outside_unit
validate_baseline c = do
  raise_if (any_zero c) (value_error "strategy periods and max_positions must be positive")
  raise_if (leb c.slow_ema_period c.fast_ema_period)
      (value_error "fast EMA period must be shorter than slow EMA period")
  raise_if (leb c.regime_slow_period c.regime_fast_period)
      (value_error "regime fast period must be shorter than slow period")
  raise_if (lt c.minimum_score minus_one || lt one c.minimum_score)
      (value_error "minimum_score must be in [-1, 1]")
  raise_if
      (is_outside_unit c.risk_on_budget
        || is_outside_unit c.neutral_budget
        || is_outside_unit c.risk_off_budget)
      (value_error "risk budgets must be finite and in [0, 1]")
  ok c

-- `_risk_budget`
unfoldable pub risk_budget : BaselineConfig → RegimeState → Decimal
risk_budget c risk_on = c.risk_on_budget
risk_budget c risk_off = c.risk_off_budget
risk_budget c shock = zero_dec
risk_budget c neutral = c.neutral_budget

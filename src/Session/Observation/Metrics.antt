-- ===== src/Session/Observation/Metrics.antt =====
-- src/project_fifty/session/observation.py: `calculate_forward_metrics`, what a session has earned and
-- paid.
use project_fifty.Prelude.{
  ℕ, ◌+◌, ◌-◌, ◌/◌, Bool, false, leb, Option, none, some, List, [], ◌∷◌, if◌then◌else◌,
}
use project_fifty.Prelude.Dict.{values}
use project_fifty.Prelude.Seq.{length, from_end}
use project_fifty.Prelude.Int.{pos}
use project_fifty.Outcome.{Result, ok, value_error, index_error, or_raise, raise_if, ◌>>=◌, ◌>>◌}
use project_fifty.Decimal.{Decimal, lt, le, add, sub, div, zero_dec, one}
use project_fifty.Ledger.Events.{Event, Snapshot}
use project_fifty.Session.Observation.{
  Finals, no_finals, note_fills, observation_snapshots, execution_reports_of, max_drawdown,
}

pub record ForwardObservationMetrics : Type 0 where
  pub sessions : ℕ
  pub observation_start : Option ℕ
  pub latest_snapshot : Option ℕ
  pub calendar_days : ℕ
  pub current_nav : Option Decimal
  pub project_return : Option Decimal
  pub cash_return : Option Decimal
  pub spy_buy_hold_return : Option Decimal
  pub max_drawdown : Option Decimal
  pub turnover_notional : Decimal
  pub turnover_ratio : Decimal
  pub modeled_fees : Decimal
  pub observed_slippage : Decimal
  pub filled_orders : ℕ
  pub cash_sessions : ℕ
  pub cash_session_fraction : Option Decimal
  pub session_gate_met : Bool
  pub calendar_gate_met : Bool

unfoldable pub total : Decimal → List Decimal → Decimal
total sum [] = sum
total sum (d ∷ ds) = total (add sum d) ds

unfoldable pub count_filled : List Decimal → ℕ
count_filled [] = 0
count_filled (d ∷ ds) = let rest = count_filled ds in if lt zero_dec d then 1 + rest else rest

unfoldable pub navs_of : List Snapshot → List Decimal
navs_of [] = []
navs_of (s ∷ ss) = s.nav ∷ navs_of ss

unfoldable pub count_cash : List Snapshot → ℕ
count_cash [] = 0
count_cash (s ∷ ss) =
    let rest = count_cash ss in elim s.position_quantities [ [] ↦ 1 + rest | _ ∷ _ ↦ rest ]

abbrev decimal_of : ℕ → Decimal
decimal_of n = record { coef = pos n; scale = 0 }

-- `calculate_forward_metrics` where the ledger has no snapshot
unfoldable pub no_metrics : Finals → Decimal → Result ForwardObservationMetrics
unfolding total count_filled values
no_metrics m starting_nav = do
  ratio ← div (total zero_dec (values m.final_gross)) starting_nav
  ok (record {
    sessions = 0;
    observation_start = none;
    latest_snapshot = none;
    calendar_days = 0;
    current_nav = none;
    project_return = none;
    cash_return = none;
    spy_buy_hold_return = none;
    max_drawdown = none;
    turnover_notional = total zero_dec (values m.final_gross);
    turnover_ratio = ratio;
    modeled_fees = total zero_dec (values m.final_fee);
    observed_slippage = total zero_dec (values m.final_slippage);
    filled_orders = count_filled (values m.final_qty);
    cash_sessions = 0;
    cash_session_fraction = none;
    session_gate_met = false;
    calendar_gate_met = false;
  })

-- `calculate_forward_metrics` where it has one, the first and the last given
unfoldable pub some_metrics :
    Finals → Decimal → ℕ → List Snapshot → Snapshot → Snapshot → Result ForwardObservationMetrics
unfolding total count_filled values navs_of max_drawdown count_cash length
some_metrics m starting_nav now snapshots first latest = do
  growth ← div latest.nav starting_nav
  spy_growth ← div latest.spy_mark first.spy_mark
  drawdown ← max_drawdown starting_nav (navs_of snapshots)
  ratio ← div (total zero_dec (values m.final_gross)) starting_nav
  fraction ← div (decimal_of (count_cash snapshots)) (decimal_of (length snapshots))
  ok (record {
    sessions = length snapshots;
    observation_start = some first.as_of;
    latest_snapshot = some latest.as_of;
    calendar_days = (now - first.as_of) / 86400000000;
    current_nav = some latest.nav;
    project_return = some (sub growth one);
    cash_return = some zero_dec;
    spy_buy_hold_return = some (sub spy_growth one);
    max_drawdown = some drawdown;
    turnover_notional = total zero_dec (values m.final_gross);
    turnover_ratio = ratio;
    modeled_fees = total zero_dec (values m.final_fee);
    observed_slippage = total zero_dec (values m.final_slippage);
    filled_orders = count_filled (values m.final_qty);
    cash_sessions = count_cash snapshots;
    cash_session_fraction = some fraction;
    session_gate_met = leb 40 (length snapshots);
    calendar_gate_met = leb 56 ((now - first.as_of) / 86400000000);
  })

unfoldable pub metrics_of : Finals → Decimal → ℕ → List Snapshot → Result ForwardObservationMetrics
unfolding no_metrics some_metrics from_end
metrics_of m starting_nav now [] = no_metrics m starting_nav
metrics_of m starting_nav now (first ∷ rest) =
    or_raise (from_end 1 (first ∷ rest)) (index_error "snapshots")
    >>= some_metrics m starting_nav now (first ∷ rest) first

-- `calculate_forward_metrics`
unfoldable pub calculate_forward_metrics :
    List Event → Decimal → ℕ → Result ForwardObservationMetrics
unfolding observation_snapshots execution_reports_of note_fills metrics_of
calculate_forward_metrics events starting_nav now = do
  raise_if (le starting_nav zero_dec) (value_error "starting_nav must be finite and positive")
  snapshots ← observation_snapshots events
  m ← note_fills [] no_finals (execution_reports_of events)
  metrics_of m starting_nav now snapshots

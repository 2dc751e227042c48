-- ===== src/Session/Observation.antt =====
-- src/project_fifty/session/observation.py: the snapshots, the fills and the largest fall of a
-- session. The payload of a snapshot is read already: only its values are checked here.
pub mod Metrics
pub mod Final
pub mod Repeat
pub mod Drawdown
pub mod Ordered
use project_fifty.Prelude.{
  ℕ, ◌+◌, ◌-◌, ◌/◌, String, Bool, true, false, not, ◌||◌, ◌==◌, leb, contains, add_key, Option,
  none, some, List, [], ◌∷◌, if◌then◌else◌,
}
use project_fifty.Prelude.Dict.{Dict, lookup_or, insert, values}
use project_fifty.Prelude.Seq.{length, from_end}
use project_fifty.Prelude.Sort.{sort_by}
use project_fifty.Prelude.Int.{pos}
use project_fifty.Outcome.{
  Result, ok, err, value_error, index_error, or_raise, raise_if, ◌>>=◌, ◌>>◌,
}
use project_fifty.Decimal.{Decimal, lt, le, add, sub, mul, div, zero_dec, one}
use project_fifty.Domain.{ExecutionReport}
use project_fifty.Reconcile.{is_fill}
use project_fifty.Ledger.Events.{
  Event, Snapshot, forward_observation_snapshot, broker_execution_report,
}

abbrev pub any_short : List Decimal → Bool
any_short [] = false
any_short (q ∷ qs) = lt q zero_dec || any_short qs

-- The checks on a snapshot in `_observation_snapshots`
unfoldable pub check_snapshot : Snapshot → Result Snapshot
unfolding values
check_snapshot s = do
  raise_if (lt s.nav zero_dec || le s.spy_mark zero_dec)
      (value_error "observation snapshot contains invalid economic values")
  raise_if (any_short (values s.position_quantities))
      (value_error "observation snapshot contains a short position")
  ok s

-- `by_bar[decision_bar] = ...`
unfoldable pub put_snapshot : Snapshot → List Snapshot → List Snapshot
put_snapshot s [] = s ∷ []
put_snapshot s (x ∷ xs) =
    let rest = put_snapshot s xs in
    if x.decision_bar_time == s.decision_bar_time then s ∷ xs else x ∷ rest

unfoldable pub read_snapshots : List Snapshot → List Event → Result (List Snapshot)
unfolding check_snapshot put_snapshot
read_snapshots by_bar [] = ok by_bar
read_snapshots by_bar (forward_observation_snapshot s ∷ events) =
    check_snapshot s >>= λ checked. read_snapshots (put_snapshot checked by_bar) events
read_snapshots by_bar (_ ∷ events) = read_snapshots by_bar events

abbrev pub earlier : Snapshot → Snapshot → Bool
earlier a b = leb a.decision_bar_time b.decision_bar_time

-- `_observation_snapshots`
unfoldable pub observation_snapshots : List Event → Result (List Snapshot)
unfolding read_snapshots sort_by
observation_snapshots events = read_snapshots [] events >>= λ by_bar. ok (sort_by earlier by_bar)

unfoldable pub execution_reports_of : List Event → List ExecutionReport
execution_reports_of [] = []
execution_reports_of (broker_execution_report r ∷ events) = r ∷ execution_reports_of events
execution_reports_of (_ ∷ events) = execution_reports_of events

-- The dicts of `_execution_metrics`, by order
pub record Finals : Type 0 where
  pub final_qty : Dict Decimal
  pub final_gross : Dict Decimal
  pub final_fee : Dict Decimal
  pub final_slippage : Dict Decimal

abbrev pub no_finals : Finals
no_finals = record { final_qty = []; final_gross = []; final_fee = []; final_slippage = [] }

-- The tests on a fill
unfoldable pub check_fill : Finals → ExecutionReport → Result (Unit {0})
unfolding lookup_or
check_fill m r = do
  raise_if (lt r.fill_quantity (lookup_or zero_dec r.broker_order_id m.final_qty))
      (value_error "broker cumulative fill quantity regressed")
  raise_if
      (lt (mul r.fill_quantity r.fill_price) (lookup_or zero_dec r.broker_order_id m.final_gross))
      (value_error "broker cumulative fill notional regressed")
  raise_if (lt r.fee (lookup_or zero_dec r.broker_order_id m.final_fee))
      (value_error "broker cumulative fee regressed")

-- The body of the loop, for a fill
unfoldable pub note_fill : Finals → ExecutionReport → Result Finals
unfolding check_fill insert
note_fill m r = do
  check_fill m r
  ok (record {
    final_qty = insert r.broker_order_id r.fill_quantity m.final_qty;
    final_gross = insert r.broker_order_id (mul r.fill_quantity r.fill_price) m.final_gross;
    final_fee = insert r.broker_order_id r.fee m.final_fee;
    final_slippage = insert r.broker_order_id r.slippage m.final_slippage;
  })

-- The loop of `_execution_metrics`, with the ids of the reports seen
unfoldable pub note_fills : List String → Finals → List ExecutionReport → Result Finals
unfolding note_fill contains
note_fills seen m [] = ok m
note_fills seen m (r ∷ rs) =
    if contains r.report_id seen
    then note_fills seen m rs
    else if not (is_fill r.status)
    then note_fills (r.report_id ∷ seen) m rs
    else note_fill m r >>= λ m'. note_fills (r.report_id ∷ seen) m' rs

-- `_max_drawdown`, its loop
unfoldable pub drawdown_from : Decimal → Decimal → List Decimal → Result Decimal
drawdown_from peak worst [] = ok worst
drawdown_from peak worst (nav ∷ navs) =
    let peak' = if lt peak nav then nav else peak in
    if le peak' zero_dec
    then drawdown_from peak' worst navs
    else div nav peak' >>= λ ratio.
        drawdown_from peak' (if lt (sub ratio one) worst then sub ratio one else worst) navs

-- `_max_drawdown` of a list that is not empty
unfoldable pub max_drawdown : Decimal → List Decimal → Result Decimal
unfolding drawdown_from
max_drawdown nav navs = drawdown_from nav zero_dec (nav ∷ navs)

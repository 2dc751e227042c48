-- ===== src/Tests/Observations.antt =====
-- Examples for the observation of a session: two snapshots for one bar and an order that fills in two parts.
use project_fifty.Prelude.{ℕ, true, ◌≡◌, refl, contains, none, List, [], ◌∷◌}
use project_fifty.Prelude.Sort.{All, IsRanked}
use project_fifty.Prelude.Int.{negsuc}
use project_fifty.Outcome.{Result, ok, err}
use project_fifty.Decimal.{Decimal, eq, one, lt, le, sub, mul, div}
use project_fifty.Domain.{ExecutionReport, OrderSide}
use project_fifty.Reconcile.{is_fill}
use project_fifty.Ledger.Events.{Event, Snapshot}
use project_fifty.Session.Observation.{
  Finals, no_finals, note_fills, observation_snapshots, max_drawdown,
}
use project_fifty.Session.Observation.Final.{IsFinal, last_fill, firsts, note_fills-IsFinal}
use project_fifty.Session.Observation.Ordered.{
  IsSound, IsDistinct, observation_snapshots-IsDistinct,
}
use project_fifty.Session.Observation.{execution_reports_of}
use project_fifty.Session.Observation.Metrics.{calculate_forward_metrics}
use project_fifty.Session.Observation.Repeat.{report_ids, calculate_forward_metrics-again}
use project_fifty.Prelude.{◌++◌}
use project_fifty.Tests.Data.{units, fill}

abbrev snapshot : ℕ → ℕ → ℕ → Snapshot
snapshot time bar nav = record {
  as_of = time;
  decision_bar_time = bar;
  nav = units nav;
  spy_mark = units 100;
  position_quantities = [];
}

abbrev events : List Event
events =
    Event.forward_observation_snapshot (snapshot 25 20 90)
    ∷ Event.forward_observation_snapshot (snapshot 15 10 100)
    ∷ Event.forward_observation_snapshot (snapshot 27 20 95)
    ∷ []

abbrev observed : List Snapshot
observed = snapshot 15 10 100 ∷ snapshot 27 20 95 ∷ []

observes : observation_snapshots events ≡ ok observed
unfolding observation_snapshots le
observes = refl

observation_snapshots-IsDistinct_example :
    IsRanked (λ (s : Snapshot). s.decision_bar_time) observed
    × All IsSound observed
    × IsDistinct observed
observation_snapshots-IsDistinct_example = observation_snapshots-IsDistinct events observed observes

abbrev reports : List ExecutionReport
reports =
    fill "r1" OrderSide.buy "o1" 1
    ∷ fill "r2" OrderSide.buy "o1" 2
    ∷ fill "r1" OrderSide.buy "o1" 1
    ∷ []

abbrev finals_or : Result Finals → Finals
finals_or (ok m) = m
finals_or (err e) = no_finals

abbrev finals : Finals
finals = finals_or (note_fills [] no_finals reports)

notes : note_fills [] no_finals reports ≡ ok finals
unfolding note_fills is_fill lt mul
notes = refl

note_fills-IsFinal_example : IsFinal "o1" finals (last_fill "o1" none (firsts [] reports))
note_fills-IsFinal_example = note_fills-IsFinal reports finals "o1" notes

abbrev decimal_or : Result Decimal → Decimal
decimal_or (ok d) = d
decimal_or (err e) = one

abbrev fall : Decimal
fall = decimal_or (max_drawdown (units 100) (units 120 ∷ units 60 ∷ []))

-- From 120 to 60 is a fall by a half.
halves : eq fall (record { coef = negsuc 4; scale = 1 }) ≡ true
unfolding eq max_drawdown le sub div
halves = refl

abbrev filled_events : List Event
filled_events =
    Event.broker_execution_report (fill "r1" OrderSide.buy "o1" 1)
    ∷ Event.forward_observation_snapshot (snapshot 15 10 100)
    ∷ Event.broker_execution_report (fill "r2" OrderSide.buy "o1" 2)
    ∷ []

calculate_forward_metrics-again_example :
    calculate_forward_metrics
      (filled_events ++ Event.broker_execution_report (fill "r1" OrderSide.buy "o1" 5) ∷ [])
      (units 100)
      30
    ≡ calculate_forward_metrics filled_events (units 100) 30
unfolding contains execution_reports_of report_ids
calculate_forward_metrics-again_example =
    calculate_forward_metrics-again filled_events (fill "r1" OrderSide.buy "o1" 5) (units 100) 30
      refl

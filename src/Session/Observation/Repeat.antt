-- ===== src/Session/Observation/Repeat.antt =====
-- A report that the ledger holds already changes none of the metrics.
use project_fifty.Prelude.{
  ℕ, String, ◌≡◌, ◌⊎◌, refl, ap, inl, inr, true, Bool-cases, contains, eq_iff, arith, List, [], ◌∷◌,
  ◌++◌,
}
use project_fifty.Outcome.{Result, ok, err, ◌>>=◌}
use project_fifty.Decimal.{Decimal}
use project_fifty.Domain.{ExecutionReport}
use project_fifty.Reconcile.{is_fill}
use project_fifty.Ledger.Events.{Event, Snapshot}
use project_fifty.Session.Observation.{
  Finals, check_snapshot, put_snapshot, read_snapshots, observation_snapshots, execution_reports_of,
  note_fill, note_fills,
}
use project_fifty.Session.Observation.Metrics.{calculate_forward_metrics}

unfoldable pub report_ids : List ExecutionReport → List String
report_ids [] = []
report_ids (r ∷ rs) = r.report_id ∷ report_ids rs

-- The id was seen, or a report has it.
abbrev IsKnown : String → List String → List ExecutionReport → Type 0
IsKnown id seen rs = (contains id seen ≡ true) ⊎ (contains id (report_ids rs) ≡ true)

>>=-cong :
    {A B : Type 0} (e : Result A) (f g : A → Result B)
    → ((a : A) → f a ≡ g a)
    → (e >>= f) ≡ (e >>= g)
>>=-cong (ok a) f g h = h a
>>=-cong (err e) f g h = refl

IsKnown-old :
    (id : String) (seen : List String) (x : ExecutionReport) (rs : List ExecutionReport)
    → contains x.report_id seen ≡ true
    → IsKnown id seen (x ∷ rs)
    → IsKnown id seen rs
unfolding contains report_ids
IsKnown-old id seen x rs old known = ground (arith, eq_iff x.report_id id, eq_iff id x.report_id)

IsKnown-new :
    (id : String) (seen : List String) (x : ExecutionReport) (rs : List ExecutionReport)
    → IsKnown id seen (x ∷ rs)
    → IsKnown id (x.report_id ∷ seen) rs
unfolding contains report_ids
IsKnown-new id seen x rs known = ground arith

note_fills-again :
    (r : ExecutionReport) (rs : List ExecutionReport) (seen : List String) (m : Finals)
    → IsKnown r.report_id seen rs
    → note_fills seen m (rs ++ r ∷ []) ≡ note_fills seen m rs
unfolding note_fills contains report_ids
note_fills-again r [] seen m (inl known) = rw known refl
note_fills-again r [] seen m (inr known) = absurd (ground arith)
note_fills-again r (x ∷ rs) seen m known = elim (Bool-cases (contains x.report_id seen)) [
  | inl old ↦ rw old (note_fills-again r rs seen m (IsKnown-old r.report_id seen x rs old known))
  | inr new ↦
      let later = IsKnown-new r.report_id seen x rs known in
      elim (Bool-cases (is_fill x.status)) [
        | inl fill ↦ rw new (
            rw fill (
              >>=-cong (note_fill m x) _ _
                λ m'. note_fills-again r rs (x.report_id ∷ seen) m' later))
        | inr other ↦ rw new (rw other (note_fills-again r rs (x.report_id ∷ seen) m later))
      ]
]

read_snapshots-report :
    (events : List Event) (r : ExecutionReport) (by_bar : List Snapshot)
    → read_snapshots by_bar (events ++ Event.broker_execution_report r ∷ [])
      ≡ read_snapshots by_bar events
unfolding read_snapshots
read_snapshots-report [] r by_bar = refl
read_snapshots-report (Event.forward_observation_snapshot s ∷ events) r by_bar =
    >>=-cong (check_snapshot s) _ _
      λ checked. read_snapshots-report events r (put_snapshot checked by_bar)
read_snapshots-report (_ ∷ events) r by_bar = read_snapshots-report events r by_bar

execution_reports_of-report :
    (events : List Event) (r : ExecutionReport)
    → execution_reports_of (events ++ Event.broker_execution_report r ∷ [])
      ≡ execution_reports_of events ++ r ∷ []
unfolding execution_reports_of
execution_reports_of-report [] r = refl
execution_reports_of-report (Event.broker_execution_report x ∷ events) r =
    ap (λ rs. x ∷ rs) (execution_reports_of-report events r)
execution_reports_of-report (_ ∷ events) r = execution_reports_of-report events r

-- A report whose id an earlier report of the ledger has leaves the metrics as they were, also where
-- they cannot be calculated.
pub calculate_forward_metrics-again :
    (events : List Event) (r : ExecutionReport) (starting_nav : Decimal) (now : ℕ)
    → contains r.report_id (report_ids (execution_reports_of events)) ≡ true
    → calculate_forward_metrics (events ++ Event.broker_execution_report r ∷ []) starting_nav now
      ≡ calculate_forward_metrics events starting_nav now
unfolding calculate_forward_metrics observation_snapshots
calculate_forward_metrics-again events r starting_nav now known =
    rw
      (
        read_snapshots-report events r [],
        execution_reports_of-report events r,
        note_fills-again r (execution_reports_of events) [] _ (inr known),
      )
      refl

-- ===== src/Reconcile/Duplicates.antt =====
-- A report that is delivered again changes nothing.
use project_fifty.Prelude.{
  String, ◌≡◌, refl, ap, true, false, contains, Bool-cases, inl, inr, List, [], ◌∷◌, ◌++◌,
}
use project_fifty.Outcome.{Result, ok, err, ◌>>=◌}
use project_fifty.Prelude.Dict.{Dict}
use project_fifty.Decimal.{Decimal}
use project_fifty.Domain.{ExecutionReport}
use project_fifty.Reconcile.{Replay, start, apply_report, replay_reports, replay_events}
use project_fifty.Reconcile.Inversion.{apply_report-seen}

-- The reports without those whose id came before, or is among `seen`.
unfoldable pub distinct : List String → List ExecutionReport → List ExecutionReport
distinct seen [] = []
distinct seen (r ∷ events) = elim (contains r.report_id seen) [
  | true ↦ distinct seen events
  | false ↦ r ∷ distinct (seen ++ r.report_id ∷ []) events
]

pub replay_reports-old :
    (currency : String) (r : ExecutionReport) (events : List ExecutionReport) (st : Replay)
    → contains r.report_id st.seen_reports ≡ true
    → replay_reports currency (r ∷ events) st ≡ replay_reports currency events st
unfolding replay_reports
replay_reports-old currency r events st h = rw (h, replay_reports)

pub replay_reports-new :
    (currency : String) (r : ExecutionReport) (events : List ExecutionReport) (st : Replay)
    → contains r.report_id st.seen_reports ≡ false
    → replay_reports currency (r ∷ events) st
      ≡ (apply_report currency r st >>= replay_reports currency events)
unfolding replay_reports
replay_reports-new currency r events st h = rw (h, replay_reports)

distinct-nil : (seen : List String) → [] ≡ distinct seen []
unfolding distinct
distinct-nil seen = refl

distinct-old :
    (r : ExecutionReport) (events : List ExecutionReport) (seen : List String)
    → contains r.report_id seen ≡ true
    → distinct seen (r ∷ events) ≡ distinct seen events
unfolding distinct
distinct-old r events seen h = rw (h, distinct)

distinct-new :
    (r : ExecutionReport) (events : List ExecutionReport) (seen : List String)
    → contains r.report_id seen ≡ false
    → distinct seen (r ∷ events) ≡ r ∷ distinct (seen ++ r.report_id ∷ []) events
unfolding distinct
distinct-new r events seen h = rw (h, distinct)

-- After a report that was applied, its id is among those seen.
after_report :
    (currency : String) (r : ExecutionReport) (events : List ExecutionReport) (st : Replay)
    (applied : Result Replay)
    → apply_report currency r st ≡ applied
    → ((st' : Replay)
        → replay_reports currency events st'
          ≡ replay_reports currency (distinct st'.seen_reports events) st')
    → (applied >>= replay_reports currency events) ≡ (
        applied >>= replay_reports currency (distinct (st.seen_reports ++ r.report_id ∷ []) events))
after_report currency r events st (ok st') e ih =
    rw (← apply_report-seen currency r st st' e) (ih st')
after_report currency r events st (err _) e ih = refl

module _ (currency : String) where
  -- The loop over some reports, from any point, is the loop over the distinct ones.
  replay_reports-distinct :
      (events : List ExecutionReport) (st : Replay)
      → replay_reports currency events st
        ≡ replay_reports currency (distinct st.seen_reports events) st
  replay_reports-distinct [] st =
      ap (λ x. replay_reports currency x st) (distinct-nil st.seen_reports)
  replay_reports-distinct (r ∷ events) st =
      elim (Bool-cases (contains r.report_id st.seen_reports)) [
        | inl old ↦
            rw
              (
                replay_reports-old currency r events st old,
                distinct-old r events st.seen_reports old,
              )
              (replay_reports-distinct events st)
        | inr new ↦
            rw
              (
                replay_reports-new currency r events st new,
                distinct-new r events st.seen_reports new,
                replay_reports-new currency r
                    (distinct (st.seen_reports ++ r.report_id ∷ []) events) st new,
              )
              (after_report currency r events st (apply_report currency r st) refl
                (λ st'. replay_reports-distinct events st'))
      ]

-- Duplicate delivery is harmless: the replay of any reports is the replay of the reports without
-- the repetitions, in its result and in its errors.
pub replay_events-distinct :
    (cash : Decimal) (events : List ExecutionReport) (marks : Dict Decimal) (currency : String)
    → replay_events cash events marks currency
      ≡ replay_events cash (distinct [] events) marks currency
unfolding replay_events
replay_events-distinct cash events marks currency =
    rw (replay_reports-distinct currency events (start cash))

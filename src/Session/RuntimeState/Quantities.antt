-- ===== src/Session/RuntimeState/Quantities.antt =====
-- The quantities that the session expects of the broker.
use project_fifty.Prelude.{
  String, ◌≡◌, subst, true, false, Bool-cases, inl, inr, contains, str_eq, arith, List, [], ◌∷◌,
}
use project_fifty.Prelude.Dict.{Dict, lookup_or, insert, erase}
use project_fifty.Prelude.Sort.{All}
use project_fifty.Outcome.{ok, raise_if, >>=-eq-ok, >>-eq-ok, ok_injective}
use project_fifty.Decimal.{Decimal, lt, eq, sub, zero_dec}
use project_fifty.Domain.{ExecutionReport}
use project_fifty.Ledger.Events.{Event}
use project_fifty.Reconcile.{is_fill}
use project_fifty.Session.RuntimeState.{
  Expected, set_quantity, change_quantity, expect_fill, expect_report, expect_event, expect_events,
  expected_position_quantities,
}

-- A quantity above zero
abbrev pub IsHeld : String × Decimal → Type 0
IsHeld (symbol, quantity) = lt zero_dec quantity ≡ true

above : (d : Decimal) → lt d zero_dec ≡ false → eq d zero_dec ≡ false → lt zero_dec d ≡ true
unfolding lt eq
above d h k = ground arith

insert-IsHeld :
    (symbol : String) (d : Decimal) (q : Dict Decimal)
    → lt zero_dec d ≡ true
    → All IsHeld q
    → All IsHeld (insert symbol d q)
unfolding insert
insert-IsHeld symbol d [] h k = (h, tt)
insert-IsHeld symbol d ((j, w) ∷ q) h k = elim (Bool-cases (str_eq j symbol)) [
  | inl same ↦ rw (same, insert) (h, k.1)
  | inr other ↦ rw (other, insert) (k.0, insert-IsHeld symbol d q h k.1)
]

erase-IsHeld : (symbol : String) (q : Dict Decimal) → All IsHeld q → All IsHeld (erase symbol q)
unfolding erase
erase-IsHeld symbol [] k = tt
erase-IsHeld symbol ((j, w) ∷ q) k = elim (Bool-cases (str_eq j symbol)) [
  | inl same ↦ rw (same, erase) k.1
  | inr other ↦ rw (other, erase) (k.0, erase-IsHeld symbol q k.1)
]

set_quantity-IsHeld :
    (symbol : String) (current : Decimal) (q q' : Dict Decimal)
    → set_quantity symbol current q ≡ ok q'
    → All IsHeld q
    → All IsHeld q'
unfolding set_quantity
set_quantity-IsHeld symbol current q q' h k =
    let (low, left) = >>-eq-ok (raise_if (lt current zero_dec) _) _ h in
    subst (All IsHeld) (ok_injective _ _ left) (elim (Bool-cases (eq current zero_dec)) [
      | inl none_left ↦ rw none_left (erase-IsHeld symbol q k)
      | inr some_left ↦
          rw some_left (insert-IsHeld symbol current q (above current (ground arith) some_left) k)
    ])

change_quantity-IsHeld :
    (r : ExecutionReport) (delta : Decimal) (q q' : Dict Decimal)
    → change_quantity r delta q ≡ ok q'
    → All IsHeld q
    → All IsHeld q'
unfolding change_quantity
change_quantity-IsHeld r delta q q' h k = elim (Bool-cases (eq delta zero_dec)) [
  | inl nothing ↦ subst (All IsHeld) (ok_injective _ _ (rw nothing at h)) k
  | inr change ↦ set_quantity-IsHeld r.symbol _ q q' (rw change at h) k
]

expect_fill-IsHeld :
    (r : ExecutionReport) (x x' : Expected)
    → expect_fill r x ≡ ok x'
    → All IsHeld x.quantities
    → All IsHeld x'.quantities
unfolding expect_fill
expect_fill-IsHeld r x x' h k =
    let previous = lookup_or zero_dec r.broker_order_id x.applied_by_order in
    let (_, h1) = >>-eq-ok (raise_if (lt r.fill_quantity previous) _) _ h in
    let (q, changed, h2) =
      >>=-eq-ok (change_quantity r (sub r.fill_quantity previous) x.quantities) _ h1 in
    subst (λ (y : Expected). All IsHeld y.quantities) (ok_injective _ _ h2)
      (change_quantity-IsHeld r _ x.quantities q changed k)

expect_report-IsHeld :
    (r : ExecutionReport) (x x' : Expected)
    → expect_report r x ≡ ok x'
    → All IsHeld x.quantities
    → All IsHeld x'.quantities
unfolding expect_report
expect_report-IsHeld r x x' h k = elim (Bool-cases (is_fill r.status)) [
  | inl fill ↦ expect_fill-IsHeld r _ x' (rw fill at h) k
  | inr other ↦
      subst (λ (y : Expected). All IsHeld y.quantities) (ok_injective _ _ (rw other at h)) k
]

expect_event-IsHeld :
    (e : Event) (x x' : Expected)
    → expect_event e x ≡ ok x'
    → All IsHeld x.quantities
    → All IsHeld x'.quantities
unfolding expect_event
expect_event-IsHeld (Event.broker_execution_report r) x x' h k =
    elim (Bool-cases (contains r.report_id x.seen_reports)) [
      | inl old ↦
          subst (λ (y : Expected). All IsHeld y.quantities) (ok_injective _ _ (rw old at h)) k
      | inr new ↦ expect_report-IsHeld r x x' (rw new at h) k
    ]
expect_event-IsHeld e x x' h k =
    subst (λ (y : Expected). All IsHeld y.quantities) (ok_injective _ _ h) k

expect_events-IsHeld :
    (events : List Event) (x x' : Expected)
    → expect_events events x ≡ ok x'
    → All IsHeld x.quantities
    → All IsHeld x'.quantities
unfolding expect_events
expect_events-IsHeld [] x x' h k =
    subst (λ (y : Expected). All IsHeld y.quantities) (ok_injective _ _ h) k
expect_events-IsHeld (e ∷ events) x x' h k =
    let (mid, one, rest) = >>=-eq-ok (expect_event e x) _ h in
    expect_events-IsHeld events mid x' rest (expect_event-IsHeld e x mid one k)

-- The session never expects the broker to be short or to list a symbol without a holding: whatever
-- the ledger holds, every quantity in a result is above zero.
pub expected_position_quantities-IsHeld :
    (events : List Event) (quantities : Dict Decimal)
    → expected_position_quantities events ≡ ok quantities
    → All IsHeld quantities
unfolding expected_position_quantities
expected_position_quantities-IsHeld events quantities h =
    let (x, read, left) = >>=-eq-ok (expect_events events _) _ h in
    subst (All IsHeld) (ok_injective _ _ left) (expect_events-IsHeld events _ x read tt)

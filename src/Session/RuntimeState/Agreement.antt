-- ===== src/Session/RuntimeState/Agreement.antt =====
-- The session's expected quantities and the reconciler's positions.
use project_fifty.Prelude.{
  String, ◌≡◌, ◌∙◌, refl, sym, ap, subst, true, false, Bool-cases, inl, inr, contains, arith,
  Option, none, some, List, [], ◌∷◌,
}
use project_fifty.Prelude.Dict.{Dict, lookup, insert}
use project_fifty.Outcome.{ok, >>=-eq-ok, ok_injective}
use project_fifty.Decimal.{Decimal, lt, eq, add, sub, zero_dec, div, mul}
use project_fifty.Decimal.Sign.{IsNonneg, IsNonneg→lt, sub-IsNonneg}
use project_fifty.Decimal.Rounded.{IsRounded, sub-IsRounded, add-zero_dec, add-positive}
use project_fifty.Domain.{ExecutionReport, Position, is_buy, new_position}
use project_fifty.Ledger.Events.{Event}
use project_fifty.Reconcile.{
  Replay, buy_position, sell_position, fill_positions, apply_report, replay_reports,
}
use project_fifty.Reconcile.Inversion.{IsApplied, applied, mark_seen, apply_report-cases}
use project_fifty.Reconcile.LongOnly.{AreHeld, apply_report-AreHeld}
use project_fifty.Session.Observation.{execution_reports_of}
use project_fifty.Session.RuntimeState.{
  Expected, set_quantity, change_quantity, expect_fill, expect_report, expect_event, expect_events,
}
use project_fifty.Reconcile.Quantities.{
  quantities_of, lookup-quantities_of, insert-quantities_of, erase-quantities_of, lookup-AreHeld,
  positive-eq, new_position-fields,
}

nonneg-eq : (d : Decimal) → IsNonneg d → lt zero_dec d ≡ false → eq d zero_dec ≡ true
unfolding lt eq
nonneg-eq d h k = ground arith

bought-quantities_of :
    (symbol : String) (delta gross : Decimal) (current : Option Position) (p : Position)
    → ((c : Position) → current ≡ some c → IsNonneg c.quantity)
    → IsNonneg delta
    → IsRounded delta
    → lt zero_dec delta ≡ true
    → buy_position symbol current delta gross ≡ ok p
    → (add (elim current [ none ↦ zero_dec | some c ↦ c.quantity ]) delta ≡ p.quantity)
      × (lt zero_dec p.quantity ≡ true)
unfolding buy_position
bought-quantities_of symbol delta gross none p held high rounded more h =
    let (price, _, h1) = >>=-eq-ok (div gross delta) _ h in
    let same = new_position-fields symbol delta price p h1 in
    (add-zero_dec delta high rounded ∙ sym same, subst (λ d. lt zero_dec d ≡ true) (sym same) more)
bought-quantities_of symbol delta gross (some c) p held high rounded more h =
    let (price, _, h1) =
      >>=-eq-ok (div (add (mul c.quantity c.average_price) gross) (add c.quantity delta)) _ h in
    let same = new_position-fields symbol (add c.quantity delta) price p h1 in
    (
      sym same,
      subst (λ d. lt zero_dec d ≡ true) (sym same)
          (add-positive c.quantity delta (held c refl) more),
    )

set_quantity-positive :
    (symbol : String) (p : Position) (positions : Dict Position)
    → lt zero_dec p.quantity ≡ true
    → set_quantity symbol p.quantity (quantities_of positions)
      ≡ ok (quantities_of (insert symbol p positions))
unfolding set_quantity
set_quantity-positive symbol p positions h =
    let (some_left, high) = positive-eq p.quantity h in
    rw (high, some_left) (ap ok (insert-quantities_of symbol p positions))

-- What a sale leaves is what the session expects after it.
sold-quantities_of :
    (symbol : String) (delta : Decimal) (current : Option Position)
    (positions positions' : Dict Position)
    → sell_position symbol current delta positions ≡ ok positions'
    → set_quantity symbol
        (sub (elim current [ none ↦ zero_dec | some c ↦ c.quantity ]) delta)
        (quantities_of positions)
      ≡ ok (quantities_of positions')
unfolding sell_position set_quantity
sold-quantities_of symbol delta none positions positions' h = cc
sold-quantities_of symbol delta (some c) positions positions' h =
    elim (Bool-cases (lt c.quantity delta)) [
      | inl short ↦ absurd (ground arith)
      | inr enough ↦
          let left = sub c.quantity delta in
          let high = IsNonneg→lt left (sub-IsNonneg c.quantity delta enough) in
          elim (Bool-cases (eq (sub c.quantity delta) zero_dec)) [
            | inl gone ↦
                rw (high, gone)
                  (ap ok (
                    erase-quantities_of symbol positions
                    ∙ ap quantities_of (ok_injective _ _ (rw (enough, gone) at h))))
            | inr part ↦
                let (p, made, h1) =
                  >>=-eq-ok (new_position symbol left c.average_price) _ (rw (enough, part) at h) in
                let same = new_position-fields symbol left c.average_price p made in
                rw (high, part)
                  (ap ok (
                    ap (λ d. insert symbol d (quantities_of positions)) (sym same)
                    ∙ insert-quantities_of symbol p positions
                    ∙ ap quantities_of (ok_injective _ _ h1)))
          ]
    ]

change_quantity-quantities_of :
    (r : ExecutionReport) (delta gross : Decimal) (positions positions' : Dict Position)
    → AreHeld positions
    → IsNonneg delta
    → IsRounded delta
    → fill_positions r.side r.symbol delta gross positions ≡ ok positions'
    → change_quantity r delta (quantities_of positions) ≡ ok (quantities_of positions')
unfolding change_quantity fill_positions
change_quantity-quantities_of r delta gross positions positions' held high rounded h =
    elim (Bool-cases (lt zero_dec delta)) [
      | inr nothing ↦
          rw (nonneg-eq delta high nothing)
            (ap (λ d. ok (quantities_of d)) (ok_injective _ _ (rw nothing at h)))
      | inl more ↦ elim (Bool-cases (is_buy r.side)) [
        | inl buys ↦
            let (p, made, h1) =
              >>=-eq-ok (buy_position r.symbol (lookup r.symbol positions) delta gross) _
                (rw (more, buys) at h) in
            let (same, above) =
              bought-quantities_of r.symbol delta gross (lookup r.symbol positions) p
                (λ c. lookup-AreHeld r.symbol positions c held) high rounded more made in
            rw ((positive-eq delta more).0, buys, lookup-quantities_of r.symbol positions, same)
              (set_quantity-positive r.symbol p positions above
                ∙ ap (λ d. ok (quantities_of d)) (ok_injective _ _ h1))
        | inr sells ↦
            rw ((positive-eq delta more).0, sells, lookup-quantities_of r.symbol positions)
              (sold-quantities_of r.symbol delta (lookup r.symbol positions) positions positions'
                (rw (more, sells) at h))
      ]
    ]

-- The state of the session's loop that a state of the replay stands for
abbrev pub expected_of : Replay → Expected
expected_of st = record {
  quantities = quantities_of st.positions;
  applied_by_order = st.applied_quantity;
  seen_reports = st.seen_reports;
}

expect_fill-expected_of :
    (r : ExecutionReport) (st st' : Replay)
    → IsApplied r st st'
    → AreHeld st.positions
    → expect_fill r (expected_of st) ≡ ok (expected_of st')
unfolding expect_fill
expect_fill-expected_of r st st' a held =
    let delta = sub r.fill_quantity (applied st.applied_quantity r) in
    let changed =
      change_quantity-quantities_of r delta _ st.positions st'.positions held
        (sub-IsNonneg r.fill_quantity (applied st.applied_quantity r) a.grown)
        (sub-IsRounded r.fill_quantity (applied st.applied_quantity r) a.grown) a.positions in
    let applied_now = sym a.quantities in
    let seen_now = sym a.seen in
    rw (a.grown, changed)
      (λ i. ok (record {
        quantities = quantities_of st'.positions;
        applied_by_order = applied_now i;
        seen_reports = seen_now i;
      }))

expect_report-expected_of :
    (currency : String) (r : ExecutionReport) (st st' : Replay)
    → apply_report currency r st ≡ ok st'
    → AreHeld st.positions
    → expect_report r (expected_of st) ≡ ok (expected_of st')
unfolding expect_report
expect_report-expected_of currency r st st' h held =
    elim (apply_report-cases currency r st st' h).1 [
      | inl (other, same) ↦ rw other (ap (λ x. ok (expected_of x)) same)
      | inr (fill, a) ↦ rw fill (expect_fill-expected_of r (mark_seen r st) st' a held)
    ]

pub expect_events-expected_of :
    (currency : String) (events : List Event) (st st' : Replay)
    → replay_reports currency (execution_reports_of events) st ≡ ok st'
    → AreHeld st.positions
    → expect_events events (expected_of st) ≡ ok (expected_of st')
unfolding expect_events expect_event execution_reports_of replay_reports
expect_events-expected_of currency [] st st' h held =
    ap (λ x. ok (expected_of x)) (ok_injective _ _ h)
expect_events-expected_of currency (Event.broker_execution_report r ∷ events) st st' h held =
    elim (Bool-cases (contains r.report_id st.seen_reports)) [
      | inl old ↦
          rw old
            (expect_events-expected_of currency events st st' (rw (old, replay_reports) at h) held)
      | inr new ↦
          let (mid, applied, rest) =
            >>=-eq-ok (apply_report currency r st) _ (rw (new, replay_reports) at h) in
          rw (new, expect_report-expected_of currency r st mid applied held)
            (expect_events-expected_of currency events mid st' rest
              (apply_report-AreHeld currency r st mid applied held))
    ]
expect_events-expected_of currency (e ∷ events) st st' h held =
    expect_events-expected_of currency events st st' h held

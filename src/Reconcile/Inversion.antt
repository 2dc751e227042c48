-- ===== src/Reconcile/Inversion.antt =====
-- What a report that was applied has passed, and the state that it leaves.
use project_fifty.Prelude.{
  String, ◌≡◌, refl, subst, ◌⊎◌, eq_iff, Bool, true, false, arith, str_eq, Bool-cases, inl, inr, [],
  ◌∷◌, ◌++◌,
}
use project_fifty.Prelude.Dict.{Dict, lookup_or, insert}
use project_fifty.Outcome.{Error, ok, raise_if, >>=-eq-ok, >>-eq-ok, ok_injective}
use project_fifty.Decimal.{Decimal, lt, sub, mul, zero_dec}
use project_fifty.Domain.{ExecutionReport}
use project_fifty.Reconcile.{Replay, is_fill, fill_positions, fill_cash, apply_fill, apply_report}

pub raise_if-passed : (test : Bool) (e : Error) → raise_if test e ≡ ok tt → test ≡ false
raise_if-passed true e h = cc
raise_if-passed false e h = refl

abbrev pub applied : Dict Decimal → ExecutionReport → Decimal
applied d r = lookup_or zero_dec r.broker_order_id d

abbrev pub gross : ExecutionReport → Decimal
gross r = mul r.fill_quantity r.fill_price

-- A fill that was applied: nothing cumulative went back, and the new state follows.
pub record IsApplied (r : ExecutionReport) (st st' : Replay) : Type 0 where
  pub grown : lt r.fill_quantity (applied st.applied_quantity r) ≡ false
  pub gross_grown : lt (gross r) (applied st.applied_gross r) ≡ false
  pub fee_grown : lt r.fee (applied st.applied_fee r) ≡ false
  pub positions :
      fill_positions r.side r.symbol
        (sub r.fill_quantity (applied st.applied_quantity r))
        (sub (gross r) (applied st.applied_gross r))
        st.positions
      ≡ ok st'.positions
  pub cash :
      st'.cash
      ≡ fill_cash r.side
          (sub (gross r) (applied st.applied_gross r))
          (sub r.fee (applied st.applied_fee r))
          st.cash
  pub seen : st'.seen_reports ≡ st.seen_reports
  pub quantities :
      st'.applied_quantity ≡ insert r.broker_order_id r.fill_quantity st.applied_quantity

pub apply_fill-IsApplied :
    (r : ExecutionReport) (st st' : Replay) → apply_fill r st ≡ ok st' → IsApplied r st st'
unfolding apply_fill
apply_fill-IsApplied r st st' h =
    let (a, h1) = >>-eq-ok (raise_if (lt r.fill_quantity (applied st.applied_quantity r)) _) _ h in
    let (b, h2) = >>-eq-ok (raise_if (lt (gross r) (applied st.applied_gross r)) _) _ h1 in
    let (c, h3) = >>-eq-ok (raise_if (lt r.fee (applied st.applied_fee r)) _) _ h2 in
    let (positions, p, same) =
      >>=-eq-ok
        (fill_positions r.side r.symbol (sub r.fill_quantity (applied st.applied_quantity r))
          (sub (gross r) (applied st.applied_gross r)) st.positions)
        _ h3 in
    subst (IsApplied r st) (ok_injective _ _ same) (record {
      grown = raise_if-passed _ _ a;
      gross_grown = raise_if-passed _ _ b;
      fee_grown = raise_if-passed _ _ c;
      positions = p;
      cash = refl;
      seen = refl;
      quantities = refl;
    })

abbrev pub mark_seen : ExecutionReport → Replay → Replay
mark_seen r st = record st { seen_reports = st.seen_reports ++ r.report_id ∷ [] }

-- An accepted report is in the portfolio's currency, and is no fill or is a fill that was applied.
pub apply_report-cases :
    (currency : String) (r : ExecutionReport) (st st' : Replay)
    → apply_report currency r st ≡ ok st'
    → (r.currency ≡ currency)
      × (((is_fill r.status ≡ false) × (mark_seen r st ≡ st'))
          ⊎ ((is_fill r.status ≡ true) × IsApplied r (mark_seen r st) st'))
unfolding apply_report
apply_report-cases currency r st st' h = elim (Bool-cases (str_eq r.currency currency)) [
  | inr foreign ↦ absurd (ground arith)
  | inl home ↦ (
    (eq_iff r.currency currency).0 home,
    elim (Bool-cases (is_fill r.status)) [
      | inr other ↦ inl (other, ok_injective _ _ (rw (home, other) at h))
      | inl fill ↦ inr (fill, apply_fill-IsApplied r (mark_seen r st) st' (rw (home, fill) at h))
    ],
  )
]

pub apply_report-seen :
    (currency : String) (r : ExecutionReport) (st st' : Replay)
    → apply_report currency r st ≡ ok st'
    → st'.seen_reports ≡ st.seen_reports ++ r.report_id ∷ []
apply_report-seen currency r st st' h = elim (apply_report-cases currency r st st' h).1 [
  | inl (_, same) ↦ rw (← same)
  | inr (_, a) ↦ a.seen
]

-- ===== src/Reconcile/FirstFill.antt =====
-- The first report of an order's fill.
use project_fifty.Prelude.{String, ◌≡◌, refl, true, str_eq, [], ◌∷◌, ◌++◌}
use project_fifty.Prelude.Dict.{Dict, lookup_or, insert}
use project_fifty.Outcome.{ok}
use project_fifty.Decimal.{lt, zero_dec}
use project_fifty.Decimal.Sign.{IsNonneg, IsNonneg→lt, mul-IsNonneg}
use project_fifty.Decimal.Rounded.{IsRounded, sub-zero_dec, mul-IsRounded}
use project_fifty.Domain.{ExecutionReport, Position}
use project_fifty.Reconcile.{Replay, is_fill, fill_positions, fill_cash, apply_fill, apply_report}
use project_fifty.Reconcile.Inversion.{gross}
use project_fifty.Reconcile.Fills.{positive-IsNonneg}

-- Nothing was applied of the order of the report.
pub record IsUnapplied (id : String) (st : Replay) : Type 0 where
  pub no_quantity : lookup_or zero_dec id st.applied_quantity ≡ zero_dec
  pub no_gross : lookup_or zero_dec id st.applied_gross ≡ zero_dec
  pub no_fee : lookup_or zero_dec id st.applied_fee ≡ zero_dec

-- The state after the first report of an order's fill
abbrev pub after_report : ExecutionReport → Dict Position → Replay → Replay
after_report r positions st = record {
  cash = fill_cash r.side (gross r) r.fee st.cash;
  positions = positions;
  seen_reports = st.seen_reports ++ r.report_id ∷ [];
  applied_quantity = insert r.broker_order_id r.fill_quantity st.applied_quantity;
  applied_gross = insert r.broker_order_id (gross r) st.applied_gross;
  applied_fee = insert r.broker_order_id r.fee st.applied_fee;
}

-- A report's amounts, as the context rounds them
pub record IsRoundedReport (r : ExecutionReport) : Type 0 where
  pub sized : lt zero_dec r.fill_quantity ≡ true
  pub rounded : IsRounded r.fill_quantity
  pub priced : IsNonneg r.fill_price
  pub paid : IsNonneg r.fee
  pub paid_rounded : IsRounded r.fee

pub apply_report-first :
    (currency : String) (r : ExecutionReport) (st : Replay) (positions : Dict Position)
    → str_eq r.currency currency ≡ true
    → is_fill r.status ≡ true
    → IsUnapplied r.broker_order_id st
    → IsRoundedReport r
    → fill_positions r.side r.symbol r.fill_quantity (gross r) st.positions ≡ ok positions
    → apply_report currency r st ≡ ok (after_report r positions st)
unfolding apply_report apply_fill
apply_report-first currency r st positions same fill old a filled =
    let high = positive-IsNonneg r.fill_quantity a.sized in
    let gross_high = mul-IsNonneg r.fill_quantity r.fill_price high a.priced in
    rw
      (
        same,
        fill,
        old.no_quantity,
        old.no_gross,
        old.no_fee,
        IsNonneg→lt r.fill_quantity high,
        IsNonneg→lt (gross r) gross_high,
        IsNonneg→lt r.fee a.paid,
        sub-zero_dec r.fill_quantity high a.rounded,
        sub-zero_dec (gross r) gross_high
            (mul-IsRounded r.fill_quantity r.fill_price high a.priced),
        sub-zero_dec r.fee a.paid a.paid_rounded,
        filled,
      )
      refl

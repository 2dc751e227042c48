-- ===== src/Broker/Simulated/Identifiers.antt =====
-- What the reconciler has met of the identifiers that the simulated broker draws.
use project_fifty.Prelude.{
  ℕ, ◌+◌, ◌≤◌, ◌<◌, String, ◌≡◌, ◌∙◌, refl, true, false, Bool-cases, inl, inr, arith, str_eq,
  eq_refl, contains, contains-snoc, some, List, [], ◌∷◌, ◌++◌,
}
use project_fifty.Prelude.Dict.{Dict, lookup, lookup_or, insert, lookup-insert}
use project_fifty.Outcome.{ok}
use project_fifty.Decimal.{Decimal}
use project_fifty.Domain.{ExecutionReport, Position}
use project_fifty.Reconcile.{Replay, apply_report, replay_reports}
use project_fifty.Reconcile.Inversion.{mark_seen}
use project_fifty.Reconcile.Duplicates.{replay_reports-new}
use project_fifty.Reconcile.FirstFill.{IsUnapplied, after_report}

lookup_or-insert_other :
    (k j : String) (v w : Decimal) (d : Dict Decimal)
    → str_eq j k ≡ false
    → lookup_or v k d ≡ v
    → lookup_or v k (insert j w d) ≡ v
unfolding lookup_or
lookup_or-insert_other k j v w d other h = ground (arith, lookup-insert j k w d)

-- No identifier is drawn twice among the first `count`.
abbrev pub AreDistinctIds : (ℕ → String) → ℕ → Type 0
AreDistinctIds uuid4 count =
    (j k : ℕ) → j < count → k < count → str_eq (uuid4 j) (uuid4 k) ≡ true → j ≡ k

pub replayed_new :
    (currency : String) (r : ExecutionReport) (st st' : Replay) (rest : List ExecutionReport)
    → contains r.report_id st.seen_reports ≡ false
    → apply_report currency r st ≡ ok st'
    → replay_reports currency (r ∷ rest) st ≡ replay_reports currency rest st'
replayed_new currency r st st' rest unseen h =
    replay_reports-new currency r rest st unseen ∙ (rw h refl)

pub mark_seen-IsUnapplied :
    (id : String) (r : ExecutionReport) (st : Replay)
    → IsUnapplied id st
    → IsUnapplied id (mark_seen r st)
mark_seen-IsUnapplied id r st u = record {
  no_quantity = u.no_quantity;
  no_gross = u.no_gross;
  no_fee = u.no_fee;
}

-- Reports that are answered stay so, and the new one is.
pub answered_later :
    (key : String) (r : ExecutionReport) (orders : Dict ExecutionReport) (seen : List String)
    → ((k : String) (a : ExecutionReport)
        → lookup k orders ≡ some a
        → contains a.report_id seen ≡ true)
    → (k : String) (a : ExecutionReport) → lookup k (insert key r orders) ≡ some a
    → contains a.report_id (seen ++ r.report_id ∷ []) ≡ true
answered_later key r orders seen before k a h = elim (Bool-cases (str_eq key k)) [
  | inl same ↦
      let found : some r ≡ some a = rw (lookup-insert key k r orders, same) at h in
      let here : r ≡ a = cc in rw (contains-snoc, ← here, eq_refl r.report_id) (ground arith)
  | inr other ↦
      let seen_before = before k a (rw (lookup-insert key k r orders, other) at h) in
      rw (contains-snoc, seen_before) refl
]

module _ (uuid4 : ℕ → String) (count : ℕ) (distinct : AreDistinctIds uuid4 count) where
  differs : (j k : ℕ) → j < k → k < count → str_eq (uuid4 j) (uuid4 k) ≡ false
  differs j k less below = elim (Bool-cases (str_eq (uuid4 j) (uuid4 k))) [
    | inl same ↦ absurd (let alike = distinct j k (omega arith) below same in omega arith)
    | inr other ↦ other
  ]

  pub unseen_later :
      (drawn k : ℕ) (seen : List String)
      → drawn + 2 ≤ k
      → k < count
      → contains (uuid4 k) seen ≡ false
      → contains (uuid4 k) (seen ++ uuid4 (drawn + 1) ∷ []) ≡ false
  unseen_later drawn k seen later below unseen =
      rw (contains-snoc, unseen, differs (drawn + 1) k (omega arith) below) refl

  pub after_report-IsUnapplied :
      (drawn k : ℕ) (r : ExecutionReport) (positions : Dict Position) (st : Replay)
      → r.broker_order_id ≡ uuid4 drawn
      → drawn + 2 ≤ k
      → k < count
      → IsUnapplied (uuid4 k) st
      → IsUnapplied (uuid4 k) (after_report r positions st)
  after_report-IsUnapplied drawn k r positions st named later below u =
      let other : str_eq r.broker_order_id (uuid4 k) ≡ false =
        rw named (differs drawn k (omega arith) below) in
      record {
        no_quantity = lookup_or-insert_other (uuid4 k) r.broker_order_id _ _ _ other u.no_quantity;
        no_gross = lookup_or-insert_other (uuid4 k) r.broker_order_id _ _ _ other u.no_gross;
        no_fee = lookup_or-insert_other (uuid4 k) r.broker_order_id _ _ _ other u.no_fee;
      }

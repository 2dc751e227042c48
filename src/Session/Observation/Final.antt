-- ===== src/Session/Observation/Final.antt =====
-- The loop of `_execution_metrics` against an independent reading of the reports: the last fill of each
-- order, among the reports whose id is new.
use project_fifty.Prelude.{
  ◌∙◌, subst, ap, String, ◌≡◌, refl, sym, inl, inr, true, false, Bool-cases, ◌&&◌, contains, str_eq,
  arith, Option, none, some, List, [], ◌∷◌, if◌then◌else◌,
}
use project_fifty.Prelude.Dict.{Dict, lookup, insert, lookup-insert}
use project_fifty.Outcome.{ok, >>=-eq-ok, >>-eq-ok, ok_injective}
use project_fifty.Decimal.{Decimal, mul}
use project_fifty.Domain.{ExecutionReport}
use project_fifty.Reconcile.{is_fill}
use project_fifty.Session.Observation.{Finals, no_finals, check_fill, note_fill, note_fills}

-- The reports whose id neither was seen nor is that of an earlier one
pub firsts : List String → List ExecutionReport → List ExecutionReport
firsts seen [] = []
firsts seen (r ∷ rs) =
    if contains r.report_id seen then firsts seen rs else r ∷ firsts (r.report_id ∷ seen) rs

-- A report is the order's last fill so far, or what was found stays.
unfoldable pick : String → Option ExecutionReport → ExecutionReport → Option ExecutionReport
pick id found r = if is_fill r.status && str_eq r.broker_order_id id then some r else found

-- The last fill of an order, or the one given
pub last_fill : String → Option ExecutionReport → List ExecutionReport → Option ExecutionReport
unfolding pick
last_fill id found [] = found
last_fill id found (r ∷ rs) = last_fill id (pick id found r) rs

abbrev pub of_fill : {A : Type 0} → (ExecutionReport → A) → Option ExecutionReport → Option A
of_fill f none = none
of_fill f (some r) = some (f r)

-- The dicts hold, for an order, what its fill says.
abbrev pub IsFinal : String → Finals → Option ExecutionReport → Type 0
IsFinal id m found =
    (lookup id m.final_qty ≡ of_fill (λ r. r.fill_quantity) found)
    × (lookup id m.final_gross ≡ of_fill (λ r. mul r.fill_quantity r.fill_price) found)
    × (lookup id m.final_fee ≡ of_fill (λ r. r.fee) found)
    × (lookup id m.final_slippage ≡ of_fill (λ r. r.slippage) found)

lookup-of_fill :
    (f : ExecutionReport → Decimal) (id : String) (r : ExecutionReport)
    (found : Option ExecutionReport) (d : Dict Decimal)
    → lookup id d ≡ of_fill f found
    → lookup id (insert r.broker_order_id (f r) d)
      ≡ of_fill f (if str_eq r.broker_order_id id then some r else found)
lookup-of_fill f id r found d h =
    ground
      (arith, lookup-insert r.broker_order_id id (f r) d, Bool-cases (str_eq r.broker_order_id id))

note_fill-IsFinal :
    (id : String) (m m' : Finals) (r : ExecutionReport) (found : Option ExecutionReport)
    → IsFinal id m found
    → note_fill m r ≡ ok m'
    → IsFinal id m' (if str_eq r.broker_order_id id then some r else found)
unfolding note_fill
note_fill-IsFinal id m m' r found h done =
    let checked = >>-eq-ok (check_fill m r) _ done in
    subst (λ x. IsFinal id x (if str_eq r.broker_order_id id then some r else found))
      (ok_injective _ _ checked.1)
      (
        lookup-of_fill (λ x. x.fill_quantity) id r found m.final_qty h.0,
        lookup-of_fill (λ x. mul x.fill_quantity x.fill_price) id r found m.final_gross h.1,
        lookup-of_fill (λ x. x.fee) id r found m.final_fee h.2,
        lookup-of_fill (λ x. x.slippage) id r found m.final_slippage h.3,
      )

pick-fill :
    (id : String) (found : Option ExecutionReport) (r : ExecutionReport)
    → is_fill r.status ≡ true
    → pick id found r ≡ (if str_eq r.broker_order_id id then some r else found)
unfolding pick
pick-fill id found r fill = rw fill refl

pick-other :
    (id : String) (found : Option ExecutionReport) (r : ExecutionReport)
    → is_fill r.status ≡ false
    → pick id found r ≡ found
unfolding pick
pick-other id found r other = rw other refl

firsts-new :
    (seen : List String) (r : ExecutionReport) (rs : List ExecutionReport)
    → contains r.report_id seen ≡ false
    → firsts seen (r ∷ rs) ≡ r ∷ firsts (r.report_id ∷ seen) rs
unfolding firsts
firsts-new seen r rs new = rw new refl

last_fill-new :
    (id : String) (seen : List String) (found : Option ExecutionReport) (r : ExecutionReport)
    (rs : List ExecutionReport) {next : Option ExecutionReport}
    → contains r.report_id seen ≡ false
    → pick id found r ≡ next
    → last_fill id found (firsts seen (r ∷ rs)) ≡ last_fill id next (firsts (r.report_id ∷ seen) rs)
unfolding last_fill
last_fill-new id seen found r rs new picked =
    ap (last_fill id found) (firsts-new seen r rs new)
    ∙ ap (λ x. last_fill id x (firsts (r.report_id ∷ seen) rs)) picked

note_fills-last :
    (id : String) (seen : List String) (m m' : Finals) (rs : List ExecutionReport)
    (found : Option ExecutionReport)
    → IsFinal id m found
    → note_fills seen m rs ≡ ok m'
    → IsFinal id m' (last_fill id found (firsts seen rs))
unfolding note_fills firsts last_fill
note_fills-last id seen m m' [] found h done =
    subst (λ x. IsFinal id x found) (ok_injective _ _ done) h
note_fills-last id seen m m' (r ∷ rs) found h done = elim (Bool-cases (contains r.report_id seen)) [
  | inl old ↦ rw old (note_fills-last id seen m m' rs found h (rw old at done))
  | inr new ↦ elim (Bool-cases (is_fill r.status)) [
    | inl fill ↦
        let next = >>=-eq-ok (note_fill m r) _ (rw (new, fill) at done) in
        subst (IsFinal id m')
          (sym (last_fill-new id seen found r rs new (pick-fill id found r fill)))
          (note_fills-last id (r.report_id ∷ seen) next.0 m' rs _
            (note_fill-IsFinal id m next.0 r found h next.1) next.2)
    | inr other ↦
        subst (IsFinal id m')
          (sym (last_fill-new id seen found r rs new (pick-other id found r other)))
          (note_fills-last id (r.report_id ∷ seen) m m' rs found h (rw (new, other) at done))
  ]
]

-- Where the loop returns it holds, for every order, the quantity, the gross value, the fee and the
-- slippage of the order's last fill among the reports whose id is new, and nothing where it has none.
pub note_fills-IsFinal :
    (rs : List ExecutionReport) (m : Finals) (id : String)
    → note_fills [] no_finals rs ≡ ok m
    → IsFinal id m (last_fill id none (firsts [] rs))
note_fills-IsFinal rs m id done =
    note_fills-last id [] no_finals m rs none (unfold lookup in (refl, refl, refl, refl)) done

-- ===== src/Reconcile/LongOnly.antt =====
-- The rebuilt portfolio is long-only and solvent.
use project_fifty.Prelude.{
  String, ◌≡◌, refl, subst, inl, inr, Bool, true, false, not, str_eq, eq_iff, contains, Bool-cases,
  Option, none, some, List, [], ◌∷◌, if◌then◌else◌,
}
use project_fifty.Prelude.Dict.{Dict, lookup, insert, erase}
use project_fifty.Outcome.{ok, err, value_error, ◌>>=◌, >>=-eq-ok, >>-eq-ok, ok_injective}
use project_fifty.Decimal.{Decimal, lt, eq, add, sub, mul, div, zero_dec}
use project_fifty.Decimal.Sign.{IsNonneg, lt→IsNonneg}
use project_fifty.Domain.{
  OrderSide, Position, PortfolioState, ExecutionReport, is_buy, non_negative, new_position,
  new_portfolio,
}
use project_fifty.Reconcile.{
  Replay, start, buy_position, sell_position, fill_positions, apply_report, replay_reports,
  add_positions, replay_events,
}
use project_fifty.Reconcile.Inversion.{raise_if-passed, apply_report-cases}

-- A position is listed under its symbol, with a quantity and a price of zero or more.
pub record IsHeld (symbol : String) (p : Position) : Type 0 where
  pub named : p.symbol ≡ symbol
  pub held : IsNonneg p.quantity
  pub priced : IsNonneg p.average_price

abbrev pub AreHeld : Dict Position → Type 0
AreHeld [] = Unit {0}
AreHeld ((symbol, p) ∷ positions) = IsHeld symbol p × AreHeld positions

pub non_negative-IsNonneg : (d : Decimal) → non_negative d ≡ ok tt → IsNonneg d
unfolding non_negative
non_negative-IsNonneg d h = lt→IsNonneg d (raise_if-passed _ _ h)

pub new_position-IsHeld :
    (symbol : String) (quantity price : Decimal) (p : Position)
    → new_position symbol quantity price ≡ ok p
    → IsHeld symbol p
unfolding new_position
new_position-IsHeld symbol quantity price p h =
    let (q, h1) = >>-eq-ok (non_negative quantity) _ h in
    let (a, h2) = >>-eq-ok (non_negative price) _ h1 in
    subst (IsHeld symbol) (ok_injective _ _ h2) (record {
      named = refl;
      held = non_negative-IsNonneg quantity q;
      priced = non_negative-IsNonneg price a;
    })

pub insert-AreHeld :
    (symbol : String) (p : Position) (positions : Dict Position)
    → IsHeld symbol p
    → AreHeld positions
    → AreHeld (insert symbol p positions)
unfolding insert
insert-AreHeld symbol p [] h k = (h, tt)
insert-AreHeld symbol p ((j, w) ∷ positions) h k = elim (Bool-cases (str_eq j symbol)) [
  | inl here ↦ rw here (rw ((eq_iff j symbol).0 here) h, k.1)
  | inr there ↦ rw there (k.0, insert-AreHeld symbol p positions h k.1)
]

pub erase-AreHeld :
    (symbol : String) (positions : Dict Position)
    → AreHeld positions
    → AreHeld (erase symbol positions)
unfolding erase
erase-AreHeld symbol [] k = tt
erase-AreHeld symbol ((j, w) ∷ positions) k = elim (Bool-cases (str_eq j symbol)) [
  | inl here ↦ rw here k.1
  | inr there ↦ rw there (k.0, erase-AreHeld symbol positions k.1)
]

buy_position-IsHeld :
    (symbol : String) (current : Option Position) (quantity gross : Decimal) (p : Position)
    → buy_position symbol current quantity gross ≡ ok p
    → IsHeld symbol p
unfolding buy_position
buy_position-IsHeld symbol none quantity gross p h =
    let (price, _, h1) = >>=-eq-ok (div gross quantity) _ h in
    new_position-IsHeld symbol quantity price p h1
buy_position-IsHeld symbol (some c) quantity gross p h =
    let (price, _, h1) =
      >>=-eq-ok (div (add (mul c.quantity c.average_price) gross) (add c.quantity quantity)) _ h in
    new_position-IsHeld symbol (add c.quantity quantity) price p h1

sell_position-AreHeld :
    (symbol : String) (current : Option Position) (quantity : Decimal)
    (positions positions' : Dict Position)
    → sell_position symbol current quantity positions ≡ ok positions'
    → AreHeld positions
    → AreHeld positions'
unfolding sell_position
sell_position-AreHeld symbol none quantity positions positions' h k = cc
sell_position-AreHeld symbol (some c) quantity positions positions' h k =
    sold (lt c.quantity quantity) (eq (sub c.quantity quantity) zero_dec) h
  where
    sold :
        (short gone : Bool)
        → (if short
            then err (value_error "event replay would create short position")
            else if gone
            then ok (erase symbol positions)
            else (new_position symbol (sub c.quantity quantity) c.average_price >>= λ p.
                ok (insert symbol p positions)))
          ≡ ok positions'
        → AreHeld positions'
    sold true gone e = cc
    sold false true e = subst AreHeld (ok_injective _ _ e) (erase-AreHeld symbol positions k)
    sold false false e =
        let (p, made, e1) =
          >>=-eq-ok (new_position symbol (sub c.quantity quantity) c.average_price) _ e in
        subst AreHeld (ok_injective _ _ e1) (
          insert-AreHeld symbol p positions
            (new_position-IsHeld symbol (sub c.quantity quantity) c.average_price p made) k)

fill_positions-AreHeld :
    (side : OrderSide) (symbol : String) (quantity gross : Decimal)
    (positions positions' : Dict Position)
    → fill_positions side symbol quantity gross positions ≡ ok positions'
    → AreHeld positions
    → AreHeld positions'
unfolding fill_positions
fill_positions-AreHeld side symbol quantity gross positions positions' h k =
    filled (lt zero_dec quantity) (is_buy side) h
  where
    filled :
        (more buys : Bool)
        → (if not more
            then ok positions
            else if buys
            then (buy_position symbol (lookup symbol positions) quantity gross >>= λ p.
                ok (insert symbol p positions))
            else sell_position symbol (lookup symbol positions) quantity positions)
          ≡ ok positions'
        → AreHeld positions'
    filled false buys e = subst AreHeld (ok_injective _ _ e) k
    filled true true e =
        let (p, made, e1) =
          >>=-eq-ok (buy_position symbol (lookup symbol positions) quantity gross) _ e in
        subst AreHeld (ok_injective _ _ e1) (
          insert-AreHeld symbol p positions
            (buy_position-IsHeld symbol (lookup symbol positions) quantity gross p made) k)
    filled true false e =
        sell_position-AreHeld symbol (lookup symbol positions) quantity positions positions' e k

pub apply_report-AreHeld :
    (currency : String) (r : ExecutionReport) (st st' : Replay)
    → apply_report currency r st ≡ ok st'
    → AreHeld st.positions
    → AreHeld st'.positions
apply_report-AreHeld currency r st st' h k = elim (apply_report-cases currency r st st' h).1 [
  | inl (_, same) ↦ rw (← same) k
  | inr (_, a) ↦ fill_positions-AreHeld r.side r.symbol _ _ st.positions st'.positions a.positions k
]

replay_reports-AreHeld :
    (currency : String) (events : List ExecutionReport) (st st' : Replay)
    → replay_reports currency events st ≡ ok st'
    → AreHeld st.positions
    → AreHeld st'.positions
unfolding replay_reports
replay_reports-AreHeld currency [] st st' h k = rw (← ok_injective _ _ h) k
replay_reports-AreHeld currency (r ∷ events) st st' h k =
    elim (Bool-cases (contains r.report_id st.seen_reports)) [
      | inl old ↦ replay_reports-AreHeld currency events st st' (rw (old, replay_reports) at h) k
      | inr new ↦
          let (mid, applied, rest) =
            >>=-eq-ok (apply_report currency r st) _ (rw (new, replay_reports) at h) in
          replay_reports-AreHeld currency events mid st' rest
            (apply_report-AreHeld currency r st mid applied k)
    ]

-- Every replay that ends without an error gives a portfolio with cash and net asset value of zero
-- or more, in which every position is listed under its symbol with a quantity and an average price
-- of zero or more: no history of reports makes a short position or overdraws the cash.
pub replay_events-AreHeld :
    (cash : Decimal) (events : List ExecutionReport) (marks : Dict Decimal) (currency : String)
    (portfolio : PortfolioState)
    → replay_events cash events marks currency ≡ ok portfolio
    → IsNonneg portfolio.cash × IsNonneg portfolio.nav × AreHeld portfolio.positions
unfolding replay_events new_portfolio
replay_events-AreHeld cash events marks currency portfolio h =
    let (st, replayed, h1) = >>=-eq-ok (replay_reports currency events (start cash)) _ h in
    let (nav, _, h2) = >>=-eq-ok (add_positions st.positions marks st.cash) _ h1 in
    let (c, h3) = >>-eq-ok (non_negative st.cash) _ h2 in
    let (n, h4) = >>-eq-ok (non_negative nav) _ h3 in
    rw (← ok_injective _ _ h4) (
      non_negative-IsNonneg st.cash c,
      non_negative-IsNonneg nav n,
      replay_reports-AreHeld currency events (start cash) st replayed tt,
    )

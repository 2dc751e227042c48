-- ===== src/Broker/Simulated/Settle.antt =====
-- What a submission to the simulated broker that returned has done.
use project_fifty.Prelude.{
  ℕ, String, ◌≡◌, refl, ap, true, false, Bool-cases, ◌⊎◌, inl, inr, Option, none, some, ◌+◌,
}
use project_fifty.Prelude.Dict.{Dict, lookup, insert, erase}
use project_fifty.Outcome.{Error, Result, ok, err, ok_injective}
use project_fifty.Outcome.Action.{Action, pure, raise, read, modify, go_on, choose, ◌>>=◌}
use project_fifty.Decimal.{Decimal, lt, eq, add, sub, zero_dec}
use project_fifty.Domain.{OrderIntent, ExecutionReport, Position, is_buy, filled, new_position}
use project_fifty.Broker.Simulated.{
  Simulated, Fill, price_fill, bought, store_position, settle_buy, settle_sell_from, settle_sell,
  enter, order_of, report_of, set_mark_price, submit_fill,
}

pub err-ok :
    {A B : Type 0} (e : Error) (a : A) (b b' : B) → ◌≡◌ {A = Result A × B} (err e, b) (ok a, b') → ⊥
err-ok {A} {B} e a b b' h = let same = ap (λ (x : Result A × B). x.0) h in cc

-- The state after a buy
abbrev pub after_buy : Fill → Position → Simulated → Simulated
after_buy f p b = record b {
  cash = sub b.cash (add f.notional f.fee);
  positions = insert p.symbol p b.positions;
}

pub settle_buy-cases :
    (i : OrderIntent) (f : Fill) (b b' : Simulated)
    → settle_buy i f b ≡ (ok tt, b')
    → (p : Position) × (bought i f (lookup i.symbol b.positions) ≡ ok p) × (after_buy f p b ≡ b')
unfolding settle_buy read choose raise modify store_position ◌>>=◌
settle_buy-cases i f b b' h = elim (Bool-cases (lt b.cash (add f.notional f.fee))) [
  | inl short ↦ absurd (err-ok _ _ _ _ (rw short at h))
  | inr enough ↦ placed (bought i f (lookup i.symbol b.positions)) (rw enough at h)
]
  where
    placed :
        (r : Result Position)
        → go_on (store_position) (r, record b { cash = sub b.cash (add f.notional f.fee) })
          ≡ (ok tt, b')
        → (p : Position) × (r ≡ ok p) × (after_buy f p b ≡ b')
    placed (ok p) e = (p, refl, ap (λ (x : Result (Unit {0}) × Simulated). x.1) e)
    placed (err x) e = absurd (err-ok _ _ _ _ e)

abbrev proceeds : Fill → Simulated → Decimal
proceeds f b = add b.cash (sub f.notional f.fee)

-- The state after a sale that left the positions so
abbrev pub after_sale : Fill → Dict Position → Simulated → Simulated
after_sale f positions b = record b { cash = proceeds f b; positions = positions }

-- A position that is large enough is sold in whole or in part.
pub record IsSold (i : OrderIntent) (f : Fill) (c : Position) (b b' : Simulated) : Type 0 where
  pub enough : lt c.quantity i.quantity ≡ false
  pub left :
      ((eq (sub c.quantity i.quantity) zero_dec ≡ true)
        × (after_sale f (erase i.symbol b.positions) b ≡ b'))
      ⊎ ((p : Position) × (eq (sub c.quantity i.quantity) zero_dec ≡ false)
          × (new_position i.symbol (sub c.quantity i.quantity) c.average_price ≡ ok p)
          × (after_sale f (insert p.symbol p b.positions) b ≡ b'))

settle_sell_from-IsSold :
    (i : OrderIntent) (f : Fill) (c : Position) (b b' : Simulated)
    → settle_sell_from i f (some c) b ≡ (ok tt, b')
    → IsSold i f c b b'
unfolding settle_sell_from read choose raise modify store_position ◌>>=◌
settle_sell_from-IsSold i f c b b' h = elim (Bool-cases (lt c.quantity i.quantity)) [
  | inl short ↦ absurd (err-ok _ _ _ _ (rw short at h))
  | inr enough ↦ elim (Bool-cases (eq (sub c.quantity i.quantity) zero_dec)) [
    | inl gone ↦ record {
      enough = enough;
      left = inl (gone, ap (λ (x : Result (Unit {0}) × Simulated). x.1) (rw (enough, gone) at h));
    }
    | inr part ↦ record {
      enough = enough;
      left = inr (
          placed part (new_position i.symbol (sub c.quantity i.quantity) c.average_price)
            (rw (enough, part) at h));
    }
  ]
]
  where
    placed :
        eq (sub c.quantity i.quantity) zero_dec ≡ false
        → (r : Result Position)
        → go_on store_position (r, record b { cash = proceeds f b }) ≡ (ok tt, b')
        → (p : Position) × (eq (sub c.quantity i.quantity) zero_dec ≡ false)
          × (r ≡ ok p)
          × (after_sale f (insert p.symbol p b.positions) b ≡ b')
    placed part (ok p) e = (p, part, refl, ap (λ (x : Result (Unit {0}) × Simulated). x.1) e)
    placed part (err x) e = absurd (err-ok _ _ _ _ e)

pub settle_sell-cases :
    (i : OrderIntent) (f : Fill) (b b' : Simulated)
    → settle_sell i f b ≡ (ok tt, b')
    → (c : Position) × (lookup i.symbol b.positions ≡ some c) × IsSold i f c b b'
unfolding settle_sell read ◌>>=◌
settle_sell-cases i f b b' h = sold (lookup i.symbol b.positions) h
  where
    sold :
        (found : Option Position)
        → settle_sell_from i f found b ≡ (ok tt, b')
        → (c : Position) × (found ≡ some c) × IsSold i f c b b'
    sold none e = absurd (unfold settle_sell_from raise in err-ok _ _ _ _ e)
    sold (some c) e = (c, refl, settle_sell_from-IsSold i f c b b' e)

module _ (uuid4 : ℕ → String) (i : OrderIntent) where
  -- The report of the order that is filled, which the state after the settlement dates
  abbrev pub fill_report : Fill → Simulated → ExecutionReport
  fill_report f b = report_of (uuid4 (b.drawn + 1)) (uuid4 b.drawn) b.currency i filled i.quantity f

  abbrev pub after_fill : Fill → Simulated → Simulated
  after_fill f b = set_mark_price i.symbol f.price (record b {
    broker_orders = insert (uuid4 b.drawn) (order_of (uuid4 b.drawn) i filled) b.broker_orders;
    orders_by_key = insert i.idempotency_key (fill_report f b) b.orders_by_key;
    drawn = b.drawn + 2;
  })

  pub submit_fill-cases :
      (b b' : Simulated) (r : ExecutionReport)
      → submit_fill uuid4 i b ≡ (ok r, b')
      → (settled : Simulated) × (choose
            (is_buy i.side)
            (settle_buy i (price_fill i b))
            (settle_sell i (price_fill i b))
            b
          ≡ (ok tt, settled))
        × (fill_report (price_fill i b) settled ≡ r)
        × (after_fill (price_fill i b) settled ≡ b')
  unfolding submit_fill read enter modify pure ◌>>=◌
  submit_fill-cases b b' r h = done _ h
    where
      finish : Action Simulated ExecutionReport
      finish s = (ok (fill_report (price_fill i b) s), after_fill (price_fill i b) s)

      done :
          (x : Result (Unit {0}) × Simulated)
          → go_on (λ _. finish) x ≡ (ok r, b')
          → (settled : Simulated) × (x ≡ (ok tt, settled))
            × (fill_report (price_fill i b) settled ≡ r)
            × (after_fill (price_fill i b) settled ≡ b')
      done (ok tt, settled) e = (settled, refl, ok_injective _ _ (ap (λ y. y.0) e), ap (λ y. y.1) e)
      done (err x, s) e = absurd (err-ok _ _ _ _ e)

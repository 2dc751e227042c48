-- ===== src/Broker/Simulated/Fills.antt =====
-- A settlement of the simulated broker and the reconciler's step for the same fill.
use project_fifty.Prelude.{
  ◌≡◌, ◌∙◌, sym, ap, subst, true, false, Bool-cases, inl, inr, Option, none, some,
}
use project_fifty.Prelude.Dict.{Dict, lookup, insert, erase}
use project_fifty.Outcome.{ok, >>=-eq-ok}
use project_fifty.Outcome.Action.{choose}
use project_fifty.Decimal.{Decimal, lt, add, sub, mul, div, zero_dec}
use project_fifty.Decimal.Sign.{IsNonneg}
use project_fifty.Domain.{OrderIntent, Position, is_buy}
use project_fifty.Reconcile.{fill_positions, fill_cash}
use project_fifty.Reconcile.LongOnly.{
  AreHeld, IsHeld, new_position-IsHeld, insert-AreHeld, erase-AreHeld,
}
use project_fifty.Reconcile.Quantities.{
  quantities_of, insert-quantities_of, erase-quantities_of, new_position-fields,
}
use project_fifty.Reconcile.Fills.{
  quantity_after, held_quantity, lookup-some-quantities_of, quantities_bought, quantities_sold,
  fill_positions-buy, fill_positions-sell,
}
use project_fifty.Broker.Simulated.{Simulated, Fill, bought, settle_buy, settle_sell}
use project_fifty.Broker.Simulated.Settle.{settle_buy-cases, settle_sell-cases}
use project_fifty.Reconcile.Marks.{IsMarked, AreMarked, insert-AreMarked, erase-AreMarked}

bought-fields :
    (i : OrderIntent) (f : Fill) (current : Option Position) (p : Position)
    → bought i f current ≡ ok p
    → IsHeld i.symbol p × (p.quantity ≡ quantity_after i.quantity (held_quantity current))
unfolding bought
bought-fields i f none p h = (
  new_position-IsHeld i.symbol i.quantity f.price p h,
  new_position-fields i.symbol i.quantity f.price p h,
)
bought-fields i f (some c) p h =
    let (price, _, made) =
      >>=-eq-ok
        (div (add (mul c.quantity c.average_price) (mul i.quantity f.price))
          (add c.quantity i.quantity))
        _ h in
    (
      new_position-IsHeld i.symbol (add c.quantity i.quantity) price p made,
      new_position-fields i.symbol (add c.quantity i.quantity) price p made,
    )

-- The state after a settlement that left the positions so
abbrev pub settled_with : OrderIntent → Fill → Dict Position → Simulated → Simulated
settled_with i f positions b = record b {
  cash = fill_cash i.side f.notional f.fee b.cash;
  positions = positions;
}

-- The reconciler takes the fill, and both hold the same quantities after it.
pub record Agree (i : OrderIntent) (f : Fill) (replayed : Dict Position) (b settled : Simulated)
    : Type 0 where
  pub new : Dict Position
  pub positions : Dict Position
  pub taken : fill_positions i.side i.symbol i.quantity f.notional replayed ≡ ok new
  pub alike : quantities_of new ≡ quantities_of positions
  pub listed : AreHeld positions
  pub marked :
      (marks : Dict Decimal)
      → IsMarked i.symbol marks
      → AreMarked b.positions marks
      → AreMarked positions marks
  pub after : settled_with i f positions b ≡ settled

settle_buy-Agree :
    (i : OrderIntent) (f : Fill) (replayed : Dict Position) (b settled : Simulated)
    → is_buy i.side ≡ true
    → settle_buy i f b ≡ (ok tt, settled)
    → quantities_of replayed ≡ quantities_of b.positions
    → AreHeld replayed
    → AreHeld b.positions
    → lt zero_dec i.quantity ≡ true
    → IsNonneg f.notional
    → Agree i f replayed b settled
unfolding fill_cash
settle_buy-Agree i f replayed b settled buys h alike held listed more high =
    let (p, made, after) = settle_buy-cases i f b settled h in
    let (kept, size) = bought-fields i f (lookup i.symbol b.positions) p made in
    let named = kept.named in
    let (new, filled, now) =
      fill_positions-buy i.side i.symbol i.quantity f.notional replayed buys held more high in
    let size_now =
      ap (quantity_after i.quantity) (lookup-some-quantities_of i.symbol b.positions) ∙ sym size in
    record {
      new = new;
      positions = insert p.symbol p b.positions;
      taken = filled;
      alike =
          now
          ∙ ap (quantities_bought i.symbol i.quantity) alike
          ∙ (λ j. insert (sym named j) (size_now j) (quantities_of b.positions))
          ∙ insert-quantities_of p.symbol p b.positions;
      listed =
          insert-AreHeld p.symbol p b.positions (subst (λ x. IsHeld x p) (sym named) kept) listed;
      marked = λ marks here.
          insert-AreMarked p.symbol p b.positions marks
            (subst (λ x. IsMarked x marks) (sym named) here);
      after = rw buys after;
    }

settle_sell-Agree :
    (i : OrderIntent) (f : Fill) (replayed : Dict Position) (b settled : Simulated)
    → is_buy i.side ≡ false
    → settle_sell i f b ≡ (ok tt, settled)
    → quantities_of replayed ≡ quantities_of b.positions
    → AreHeld replayed
    → AreHeld b.positions
    → lt zero_dec i.quantity ≡ true
    → Agree i f replayed b settled
unfolding fill_cash
settle_sell-Agree i f replayed b settled sells h alike held listed more =
    let (c, here, s) = settle_sell-cases i f b settled h in
    let found =
      ap (lookup i.symbol) alike
      ∙ lookup-some-quantities_of i.symbol b.positions
      ∙ ap held_quantity here in
    let left = sub c.quantity i.quantity in
    let (new, filled, now) =
      fill_positions-sell i.side i.symbol i.quantity f.notional c.quantity replayed sells held more
        found s.enough in
    let now' = now ∙ ap (quantities_sold i.symbol left) alike in
    elim s.left [
      | inl (gone, after) ↦ record {
        new = new;
        positions = erase i.symbol b.positions;
        taken = filled;
        alike = (rw gone at now') ∙ erase-quantities_of i.symbol b.positions;
        listed = erase-AreHeld i.symbol b.positions listed;
        marked = λ marks _. erase-AreMarked i.symbol b.positions marks;
        after = rw sells after;
      }
      | inr (p, part, made, after) ↦
          let kept = new_position-IsHeld i.symbol left c.average_price p made in
          let named = kept.named in
          let size = new_position-fields i.symbol left c.average_price p made in
          record {
            new = new;
            positions = insert p.symbol p b.positions;
            taken = filled;
            alike =
                (rw part at now')
                ∙ (λ j. insert (sym named j) (sym size j) (quantities_of b.positions))
                ∙ insert-quantities_of p.symbol p b.positions;
            listed =
                insert-AreHeld p.symbol p b.positions (subst (λ x. IsHeld x p) (sym named) kept)
                  listed;
            marked = λ marks here.
                insert-AreMarked p.symbol p b.positions marks
                  (subst (λ x. IsMarked x marks) (sym named) here);
            after = rw sells after;
          }
    ]

pub settle-Agree :
    (i : OrderIntent) (f : Fill) (replayed : Dict Position) (b settled : Simulated)
    → choose (is_buy i.side) (settle_buy i f) (settle_sell i f) b ≡ (ok tt, settled)
    → quantities_of replayed ≡ quantities_of b.positions
    → AreHeld replayed
    → AreHeld b.positions
    → lt zero_dec i.quantity ≡ true
    → IsNonneg f.notional
    → Agree i f replayed b settled
unfolding choose
settle-Agree i f replayed b settled h alike held listed more high =
    elim (Bool-cases (is_buy i.side)) [
      | inl buys ↦
          settle_buy-Agree i f replayed b settled buys (rw buys at h) alike held listed more high
      | inr sells ↦
          settle_sell-Agree i f replayed b settled sells (rw sells at h) alike held listed more
    ]

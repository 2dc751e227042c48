-- ===== src/Reconcile/Fills.antt =====
-- What a fill leaves of each symbol.
use project_fifty.Prelude.{
  String, ◌≡◌, ◌∙◌, refl, sym, subst, true, false, Bool-cases, inl, inr, str_eq, Option, none, some,
  [], ◌∷◌, if◌then◌else◌,
}
use project_fifty.Prelude.Dict.{Dict, lookup, insert, erase}
use project_fifty.Outcome.{ok}
use project_fifty.Decimal.{Decimal, lt, eq, add, sub, mul, zero_dec}
use project_fifty.Decimal.Sign.{
  lt→IsNonneg, lt-asym, IsNonneg, IsNonneg→lt, add-IsNonneg, mul-IsNonneg, sub-IsNonneg,
}
use project_fifty.Decimal.Rounded.{add-positive, div-IsNonneg}
use project_fifty.Domain.{OrderSide, Position, is_buy, new_position, non_negative}
use project_fifty.Reconcile.{buy_position, sell_position, fill_positions}
use project_fifty.Reconcile.Inversion.{gross}
use project_fifty.Reconcile.LongOnly.{AreHeld}
use project_fifty.Reconcile.Quantities.{quantities_of, insert-quantities_of, erase-quantities_of}

-- A position with a quantity and a price that are not negative can be made.
abbrev pub position_of : String → Decimal → Decimal → Position
position_of symbol quantity price = record {
  symbol = symbol;
  quantity = quantity;
  average_price = price;
}

pub new_position-ok :
    (symbol : String) (quantity price : Decimal)
    → IsNonneg quantity
    → IsNonneg price
    → new_position symbol quantity price ≡ ok (position_of symbol quantity price)
unfolding new_position non_negative
new_position-ok symbol quantity price h k = rw (IsNonneg→lt quantity h, IsNonneg→lt price k) refl

-- The quantity after a buy
abbrev pub quantity_after : Decimal → Option Decimal → Decimal
quantity_after quantity none = quantity
quantity_after quantity (some held) = add held quantity

abbrev pub held_quantity : Option Position → Option Decimal
held_quantity none = none
held_quantity (some p) = some p.quantity

pub lookup-some-quantities_of :
    (symbol : String) (positions : Dict Position)
    → lookup symbol (quantities_of positions) ≡ held_quantity (lookup symbol positions)
unfolding lookup
lookup-some-quantities_of symbol [] = refl
lookup-some-quantities_of symbol ((j, p) ∷ positions) = elim (Bool-cases (str_eq j symbol)) [
  | inl same ↦ rw same refl
  | inr other ↦ rw other (lookup-some-quantities_of symbol positions)
]

-- The quantity and the price are not negative.
abbrev pub IsSound : Position → Type 0
IsSound p = IsNonneg p.quantity × IsNonneg p.average_price

pub lookup-IsSound :
    (symbol : String) (positions : Dict Position) (p : Position)
    → AreHeld positions
    → lookup symbol positions ≡ some p
    → IsSound p
unfolding lookup
lookup-IsSound symbol [] p h e = cc
lookup-IsSound symbol ((j, w) ∷ positions) p h e = elim (Bool-cases (str_eq j symbol)) [
  | inl same ↦
      let found : w ≡ p = (let e' : some w ≡ some p = rw (same, lookup) at e in cc) in
      subst IsSound found (h.0.held, h.0.priced)
  | inr other ↦ lookup-IsSound symbol positions p h.1 (rw (other, lookup) at e)
]

pub positive-IsNonneg : (d : Decimal) → lt zero_dec d ≡ true → IsNonneg d
positive-IsNonneg d h = lt→IsNonneg d (lt-asym zero_dec d h)

-- A buy gives a position.
pub buy_position-ok :
    (symbol : String) (current : Option Position) (quantity gross : Decimal)
    → ((p : Position) → current ≡ some p → IsSound p)
    → lt zero_dec quantity ≡ true
    → IsNonneg gross
    → (price : Decimal) × (buy_position symbol current quantity gross
        ≡ ok (position_of symbol (quantity_after quantity (held_quantity current)) price))
unfolding buy_position
buy_position-ok symbol none quantity gross h more high =
    let (price, divided, priced) = div-IsNonneg gross quantity high more in
    (
      price,
      rw divided (new_position-ok symbol quantity price (positive-IsNonneg quantity more) priced),
    )
buy_position-ok symbol (some c) quantity gross h more high =
    let (held, priced) = h c refl in
    let cost = add (mul c.quantity c.average_price) gross in
    let more_now = add-positive c.quantity quantity held more in
    let (price, divided, priced_now) =
      div-IsNonneg cost (add c.quantity quantity)
        (add-IsNonneg (mul c.quantity c.average_price) gross
          (mul-IsNonneg c.quantity c.average_price held priced) high)
        more_now in
    (
      price,
      rw divided (
          new_position-ok symbol (add c.quantity quantity) price
            (positive-IsNonneg (add c.quantity quantity) more_now) priced_now),
    )

-- The quantities after a buy
abbrev pub quantities_bought : String → Decimal → Dict Decimal → Dict Decimal
quantities_bought symbol quantity d = insert symbol (quantity_after quantity (lookup symbol d)) d

-- The quantities after a sale that leaves so much
abbrev pub quantities_sold : String → Decimal → Dict Decimal → Dict Decimal
quantities_sold symbol left d = if eq left zero_dec then erase symbol d else insert symbol left d

pub fill_positions-buy :
    (side : OrderSide) (symbol : String) (quantity gross : Decimal) (positions : Dict Position)
    → is_buy side ≡ true
    → AreHeld positions
    → lt zero_dec quantity ≡ true
    → IsNonneg gross
    → (new : Dict Position) × (fill_positions side symbol quantity gross positions ≡ ok new)
      × (quantities_of new ≡ quantities_bought symbol quantity (quantities_of positions))
unfolding fill_positions
fill_positions-buy side symbol quantity gross positions buys held more high =
    let (price, made) =
      buy_position-ok symbol (lookup symbol positions) quantity gross
        (λ p. lookup-IsSound symbol positions p held) more high in
    let p =
      position_of symbol (quantity_after quantity (held_quantity (lookup symbol positions)))
        price in
    (
      insert symbol p positions,
      rw (more, buys, made) refl,
      rw (lookup-some-quantities_of symbol positions)
          (sym (insert-quantities_of symbol p positions)),
    )

lookup-quantity :
    (held : Decimal) (current : Option Position)
    → held_quantity current ≡ some held
    → (c : Position) × (current ≡ some c) × (c.quantity ≡ held)
lookup-quantity held none h = cc
lookup-quantity held (some c) h = (c, refl, cc)

pub fill_positions-sell :
    (side : OrderSide) (symbol : String) (quantity gross held : Decimal) (positions : Dict Position)
    → is_buy side ≡ false
    → AreHeld positions
    → lt zero_dec quantity ≡ true
    → lookup symbol (quantities_of positions) ≡ some held
    → lt held quantity ≡ false
    → (new : Dict Position) × (fill_positions side symbol quantity gross positions ≡ ok new)
      × (quantities_of new ≡ quantities_sold symbol (sub held quantity) (quantities_of positions))
unfolding fill_positions sell_position
fill_positions-sell side symbol quantity gross held positions sells are_held more found enough =
    let (c, here, same) =
      lookup-quantity held (lookup symbol positions)
        (sym (lookup-some-quantities_of symbol positions) ∙ found) in
    let left = sub held quantity in
    let (_, priced) = lookup-IsSound symbol positions c are_held here in
    elim (Bool-cases (eq left zero_dec)) [
      | inl gone ↦ (
        erase symbol positions,
        rw (more, sells, here, same, enough, gone) refl,
        rw gone (sym (erase-quantities_of symbol positions)),
      )
      | inr part ↦ (
        insert symbol (position_of symbol left c.average_price) positions,
        rw
            (
              more,
              sells,
              here,
              same,
              enough,
              part,
              new_position-ok symbol left c.average_price (sub-IsNonneg held quantity enough)
                  priced,
            )
            refl,
        rw part
            (sym (insert-quantities_of symbol (position_of symbol left c.average_price) positions)),
      )
    ]

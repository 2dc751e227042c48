-- ===== src/Reconcile/Quantities.antt =====
-- What is held of each symbol, without the prices.
use project_fifty.Prelude.{
  String, ◌≡◌, refl, sym, ap, subst, true, false, Bool-cases, inl, inr, str_eq, arith, none, some,
  [], ◌∷◌, map,
}
use project_fifty.Prelude.Dict.{Dict, lookup, lookup_or, insert, erase}
use project_fifty.Outcome.{ok, >>-eq-ok, ok_injective}
use project_fifty.Decimal.{Decimal, lt, eq, zero_dec}
use project_fifty.Decimal.Sign.{IsNonneg}
use project_fifty.Domain.{Position, new_position}
use project_fifty.Reconcile.LongOnly.{AreHeld}

-- The positions without their prices
abbrev pub quantities_of : Dict Position → Dict Decimal
quantities_of positions = map (λ (entry : String × Position). (entry.0, entry.1.quantity)) positions

pub lookup-quantities_of :
    (symbol : String) (positions : Dict Position)
    → lookup_or zero_dec symbol (quantities_of positions)
      ≡ elim (lookup symbol positions) [ none ↦ zero_dec | some p ↦ p.quantity ]
unfolding lookup lookup_or
lookup-quantities_of symbol [] = refl
lookup-quantities_of symbol ((j, p) ∷ positions) =
    ground (arith, lookup-quantities_of symbol positions)

pub insert-quantities_of :
    (symbol : String) (p : Position) (positions : Dict Position)
    → insert symbol p.quantity (quantities_of positions) ≡ quantities_of (insert symbol p positions)
unfolding insert
insert-quantities_of symbol p [] = refl
insert-quantities_of symbol p ((j, w) ∷ positions) =
    ground (arith, insert-quantities_of symbol p positions)

pub erase-quantities_of :
    (symbol : String) (positions : Dict Position)
    → erase symbol (quantities_of positions) ≡ quantities_of (erase symbol positions)
unfolding erase
erase-quantities_of symbol [] = refl
erase-quantities_of symbol ((j, w) ∷ positions) =
    ground (arith, erase-quantities_of symbol positions)

pub lookup-AreHeld :
    (symbol : String) (positions : Dict Position) (p : Position)
    → AreHeld positions
    → lookup symbol positions ≡ some p
    → IsNonneg p.quantity
unfolding lookup
lookup-AreHeld symbol [] p h e = cc
lookup-AreHeld symbol ((j, w) ∷ positions) p h e = elim (Bool-cases (str_eq j symbol)) [
  | inl same ↦
      let found : w ≡ p = (let e' : some w ≡ some p = rw (same, lookup) at e in cc) in
      subst (λ (x : Position). IsNonneg x.quantity) found h.0.held
  | inr other ↦ lookup-AreHeld symbol positions p h.1 (rw (other, lookup) at e)
]

pub positive-eq :
    (d : Decimal) → lt zero_dec d ≡ true → (eq d zero_dec ≡ false) × (lt d zero_dec ≡ false)
unfolding lt eq
positive-eq d h = (ground arith, ground arith)

-- The name and the quantity of a position that was made
pub new_position-fields :
    (symbol : String) (quantity price : Decimal) (p : Position)
    → new_position symbol quantity price ≡ ok p
    → p.quantity ≡ quantity
unfolding new_position
new_position-fields symbol quantity price p h =
    let (_, h1) = >>-eq-ok _ _ h in
    let (_, h2) = >>-eq-ok _ _ h1 in ap (λ (x : Position). x.quantity) (sym (ok_injective _ _ h2))

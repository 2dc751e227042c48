-- ===== src/Reconcile/Marks.antt =====
-- Positions whose symbols have a mark.
use project_fifty.Prelude.{String, ◌≡◌, refl, Bool-cases, inl, inr, str_eq, eq_refl, some, [], ◌∷◌}
use project_fifty.Prelude.Dict.{Dict, lookup, insert, erase, lookup-insert}
use project_fifty.Decimal.{Decimal}
use project_fifty.Domain.{Position}

abbrev pub IsMarked : String → Dict Decimal → Type 0
IsMarked symbol marks = (price : Decimal) × (lookup symbol marks ≡ some price)

abbrev pub AreMarked : Dict Position → Dict Decimal → Type 0
AreMarked [] marks = Unit {0}
AreMarked ((symbol, p) ∷ positions) marks = IsMarked symbol marks × AreMarked positions marks

insert-IsMarked :
    (symbol : String) (price : Decimal) (j : String) (marks : Dict Decimal)
    → IsMarked j marks
    → IsMarked j (insert symbol price marks)
insert-IsMarked symbol price j marks (old, h) = elim (Bool-cases (str_eq symbol j)) [
  | inl same ↦ (price, rw (lookup-insert symbol j price marks, same) refl)
  | inr other ↦ (old, rw (lookup-insert symbol j price marks, other) h)
]

pub insert-IsMarked_self :
    (symbol : String) (price : Decimal) (marks : Dict Decimal)
    → IsMarked symbol (insert symbol price marks)
insert-IsMarked_self symbol price marks =
    (price, rw (lookup-insert symbol symbol price marks, eq_refl symbol) refl)

pub insert-AreMarked_price :
    (symbol : String) (price : Decimal) (positions : Dict Position) (marks : Dict Decimal)
    → AreMarked positions marks
    → AreMarked positions (insert symbol price marks)
insert-AreMarked_price symbol price [] marks h = tt
insert-AreMarked_price symbol price ((j, p) ∷ positions) marks h = (
  insert-IsMarked symbol price j marks h.0,
  insert-AreMarked_price symbol price positions marks h.1,
)

pub insert-AreMarked :
    (symbol : String) (p : Position) (positions : Dict Position) (marks : Dict Decimal)
    → IsMarked symbol marks
    → AreMarked positions marks
    → AreMarked (insert symbol p positions) marks
unfolding insert
insert-AreMarked symbol p [] marks here h = (here, tt)
insert-AreMarked symbol p ((j, w) ∷ positions) marks here h = elim (Bool-cases (str_eq j symbol)) [
  | inl same ↦ rw same h
  | inr other ↦ rw other (h.0, insert-AreMarked symbol p positions marks here h.1)
]

pub erase-AreMarked :
    (symbol : String) (positions : Dict Position) (marks : Dict Decimal)
    → AreMarked positions marks
    → AreMarked (erase symbol positions) marks
unfolding erase
erase-AreMarked symbol [] marks h = tt
erase-AreMarked symbol ((j, w) ∷ positions) marks h = elim (Bool-cases (str_eq j symbol)) [
  | inl same ↦ rw same h.1
  | inr other ↦ rw other (h.0, erase-AreMarked symbol positions marks h.1)
]

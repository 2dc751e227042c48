-- ===== src/Broker/Alpaca/Service/Agreement.antt =====
-- What the comparison of the service with the session means: the same quantities and the same ids.
use project_fifty.Prelude.{
  String, ◌≡◌, ◌∙◌, refl, sym, subst, Bool, true, false, ◌&&◌, str_eq, eq_iff, contains, Bool-cases,
  inl, inr, arith, Option, none, some, List, [], ◌∷◌,
}
use project_fifty.Prelude.Dict.{Dict, lookup, insert, lookup-insert}
use project_fifty.Outcome.{ok, >>=-eq-ok, ok_injective}
use project_fifty.Decimal.{Decimal, eq, zero_dec}
use project_fifty.Broker.Alpaca.Replies.{JsonObject, Format, field, required_str, decimal_of_json}
use project_fifty.Broker.Alpaca.Account.{
  held_quantities, same_quantity, agrees, all_in, is_consistent,
}

-- A dict has one value for a key.
abbrev pub IsDict {ℓ} : {V : Type ℓ} → Dict V → Type ℓ
IsDict [] = Unit
IsDict ((key, v) ∷ d) = (lookup key d ≡ none) × IsDict d

insert-IsDict {ℓ} :
    {V : Type ℓ} (key : String) (v : V) (d : Dict V) → IsDict d → IsDict (insert key v d)
unfolding insert
insert-IsDict key v [] h = (unfold lookup in refl, tt)
insert-IsDict key v ((j, w) ∷ d) h = elim (Bool-cases (str_eq j key)) [
  | inl same ↦ rw same h
  | inr other ↦
      let apart : str_eq key j ≡ false = ground (arith, eq_iff key j, eq_iff j key) in
      rw other (lookup-insert key j v d ∙ (rw apart h.0), insert-IsDict key v d h.1)
]

pub held_quantities-IsDict :
    (f : Format) (d held : Dict Decimal) (raws : List JsonObject)
    → IsDict d
    → held_quantities f d raws ≡ ok held
    → IsDict held
unfolding held_quantities
held_quantities-IsDict f d held [] k h = subst IsDict (ok_injective _ _ h) k
held_quantities-IsDict f d held (raw ∷ raws) k h =
    let (quantity, _, h1) = >>=-eq-ok (decimal_of_json f (field "qty" raw)) _ h in
    elim (Bool-cases (eq quantity zero_dec)) [
      | inl nothing ↦ held_quantities-IsDict f d held raws k (rw nothing at h1)
      | inr something ↦
          let (symbol, _, h2) = >>=-eq-ok (required_str raw "symbol") _ (rw something at h1) in
          held_quantities-IsDict f (insert symbol quantity d) held raws
            (insert-IsDict symbol quantity d k) h2
    ]

-- What one dict has, the other has too, as an equal number.
abbrev pub IsWithin : Dict Decimal → Dict Decimal → Type 0
IsWithin d other =
    (symbol : String) (q : Decimal)
    → lookup symbol d ≡ some q
    → (q' : Decimal) × (lookup symbol other ≡ some q') × (eq q' q ≡ true)

-- The same quantities of the same symbols, and the same ids
abbrev pub IsSame : Dict Decimal → List String → Dict Decimal → List String → Type 0
IsSame held ids expected expected_ids =
    IsWithin held expected
    × IsWithin expected held
    × ((id : String) → contains id ids ≡ contains id expected_ids)

both : (a b : Bool) → (a && b) ≡ true → (a ≡ true) × (b ≡ true)
both a b h = (ground arith, ground arith)

same_quantity-some :
    (o : Option Decimal) (q : Decimal)
    → same_quantity o q ≡ true
    → (q' : Decimal) × (o ≡ some q') × (eq q' q ≡ true)
same_quantity-some none q h = absurd (ground arith)
same_quantity-some (some q') q h = (q', refl, h)

agrees-IsWithin : (d other : Dict Decimal) → agrees d other ≡ true → IsWithin d other
unfolding agrees lookup
agrees-IsWithin [] other h symbol q found = cc
agrees-IsWithin ((j, w) ∷ d) other h symbol q found =
    let (first, rest) = both (same_quantity (lookup j other) w) (agrees d other) h in
    elim (Bool-cases (str_eq j symbol)) [
      | inl same ↦
          let here : j ≡ symbol = (eq_iff j symbol).0 same in
          let value : some w ≡ some q = rw same at found in
          let quantity : w ≡ q = cc in
          same_quantity-some (lookup symbol other) q (
            subst (λ x. same_quantity (lookup symbol other) x ≡ true) quantity
              (subst (λ x. same_quantity (lookup x other) w ≡ true) here first))
      | inr differs ↦ agrees-IsWithin d other rest symbol q (rw differs at found)
    ]

IsWithin-agrees : (d other : Dict Decimal) → IsDict d → IsWithin d other → agrees d other ≡ true
unfolding agrees
IsWithin-agrees [] other k h = refl
IsWithin-agrees ((j, w) ∷ d) other k h =
    let (q, found, same) = h j w (first j w d) in
    rw (found, same)
      (IsWithin-agrees d other k.1 λ symbol x there. h symbol x (later j w d symbol x k.0 there))
  where
    first : (j : String) (w : Decimal) (d : Dict Decimal) → lookup j ((j, w) ∷ d) ≡ some w
    first j w d = unfold lookup in ground (arith, eq_iff j j)

    later :
        (j : String) (w : Decimal) (d : Dict Decimal) (symbol : String) (x : Decimal)
        → lookup j d ≡ none
        → lookup symbol d ≡ some x
        → lookup symbol ((j, w) ∷ d) ≡ some x
    later j w d symbol x gone there =
        unfold lookup in
        elim (Bool-cases (str_eq j symbol)) [
          | inl same ↦
              let here : j ≡ symbol = (eq_iff j symbol).0 same in
              absurd (let gone' = subst (λ y. lookup y d ≡ none) here gone in cc)
          | inr other ↦ rw other there
        ]

all_in-contains :
    (others ids : List String) (id : String)
    → all_in others ids ≡ true
    → contains id others ≡ true
    → contains id ids ≡ true
unfolding contains
all_in-contains [] ids id h k = absurd (ground arith)
all_in-contains (x ∷ others) ids id h k = ground (arith, all_in-contains others ids id, eq_iff x id)

contains-all_in :
    (others ids : List String)
    → ((id : String) → contains id others ≡ true → contains id ids ≡ true)
    → all_in others ids ≡ true
unfolding contains
contains-all_in [] ids h = refl
contains-all_in (x ∷ others) ids h =
    rw (h x (ground (arith, eq_iff x x))) (contains-all_in others ids λ id k. h id (ground arith))

pub is_consistent-IsSame :
    (held : Dict Decimal) (ids : List String) (expected : Dict Decimal) (expected_ids : List String)
    → is_consistent held ids expected expected_ids ≡ true
    → IsSame held ids expected expected_ids
unfolding is_consistent
is_consistent-IsSame held ids expected expected_ids h =
    let (quantities, names) =
      both (agrees held expected && agrees expected held)
        (all_in ids expected_ids && all_in expected_ids ids) h in
    let (over, back) = both (agrees held expected) (agrees expected held) quantities in
    let (there, here) = both (all_in ids expected_ids) (all_in expected_ids ids) names in
    (
      agrees-IsWithin held expected over,
      agrees-IsWithin expected held back,
      λ id. ground (
        arith,
        all_in-contains ids expected_ids id there,
        all_in-contains expected_ids ids id here,
      ),
    )

pub IsSame-is_consistent :
    (held : Dict Decimal) (ids : List String) (expected : Dict Decimal) (expected_ids : List String)
    → IsDict held
    → IsDict expected
    → IsSame held ids expected expected_ids
    → is_consistent held ids expected expected_ids ≡ true
unfolding is_consistent
IsSame-is_consistent held ids expected expected_ids k l (over, back, names) =
    rw
      (
        IsWithin-agrees held expected k over,
        IsWithin-agrees expected held l back,
        contains-all_in ids expected_ids (λ id h. sym (names id) ∙ h),
        contains-all_in expected_ids ids (λ id h. names id ∙ h),
      )
      refl

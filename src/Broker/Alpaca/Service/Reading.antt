-- ===== src/Broker/Alpaca/Service/Reading.antt =====
-- What the guard reads of the service: the positions, then the open orders.
use project_fifty.Prelude.{String, ◌≡◌, ◌∙◌, refl, ap, Bool, List, []}
use project_fifty.Prelude.Dict.{Dict}
use project_fifty.Outcome.{Error, Result, ok, err, ok_injective}
use project_fifty.Outcome.Action.{Action, pure, read, go_on, ◌>>=◌}
use project_fifty.Decimal.{Decimal}
use project_fifty.Broker.Alpaca.Replies.{JsonObject, Format}
use project_fifty.Broker.Alpaca.Orders.{Request, Client, get_objects, lift}
use project_fifty.Broker.Alpaca.Account.{held_quantities, open_client_ids, is_consistent}
use project_fifty.Broker.Alpaca.Service.{read_consistent}

pub err-ok :
    {A S : Type 0} (e : Error) (a : A) (s s' : S) → ◌≡◌ {A = Result A × S} (err e, s) (ok a, s') → ⊥
err-ok {A} {S} e a s s' h = let same = ap (λ (x : Result A × S). x.0) h in cc

bind-cases :
    {S A B : Type 0} (first : Action S A) (next : A → Action S B) (s s' : S) (y : B)
    → (first >>= next) s ≡ (ok y, s')
    → (x : A) × (mid : S) × (first s ≡ (ok x, mid)) × (next x mid ≡ (ok y, s'))
unfolding ◌>>=◌
bind-cases {S} {A} {B} first next s s' y h = through (first s) h
  where
    through :
        (r : Result A × S)
        → go_on next r ≡ (ok y, s')
        → (x : A) × (mid : S) × (r ≡ (ok x, mid)) × (next x mid ≡ (ok y, s'))
    through (ok x, mid) e = (x, mid, refl, e)
    through (err raised, mid) e = absurd (err-ok _ _ _ _ e)

module _ (f : Format) (C : Client) where
  -- The service gives the positions and then the open orders, and both can be read.
  abbrev pub IsReading : C.State → Dict Decimal → List String → C.State → Type 0
  IsReading s held ids s' =
      (positions : List JsonObject) × (orders : List JsonObject) × (mid : C.State) × (get_objects f
          C Request.all_positions s
        ≡ (ok positions, mid))
      × (held_quantities f [] positions ≡ ok held)
      × (get_objects f C Request.open_orders mid ≡ (ok orders, s'))
      × (open_client_ids orders ≡ ok ids)

  module _ (expected : Dict Decimal) (expected_ids : List String) where
    pub IsReading-read_consistent :
        (s s' : C.State) (held : Dict Decimal) (ids : List String)
        → IsReading s held ids s'
        → read_consistent f C expected expected_ids s
          ≡ (ok (is_consistent held ids expected expected_ids), s')
    unfolding read_consistent read pure ◌>>=◌
    IsReading-read_consistent s s' held ids
          (positions, orders, mid, got, quantities, listed, names) =
        rw (got, quantities, listed, names) refl

    lift-cases :
        {A : Type 0} (r : Result A) (s s' : C.State) (a : A)
        → lift f C r s ≡ (ok a, s')
        → (r ≡ ok a) × (s ≡ s')
    unfolding read
    lift-cases r s s' a h = (ap (λ x. x.0) h, ap (λ x. x.1) h)

    pub read_consistent-IsReading :
        (s s' : C.State) (b : Bool)
        → read_consistent f C expected expected_ids s ≡ (ok b, s')
        → (held : Dict Decimal) × (ids : List String) × IsReading s held ids s'
          × (is_consistent held ids expected expected_ids ≡ b)
    unfolding read_consistent pure
    read_consistent-IsReading s s' b h =
        let (positions, s1, got, h1) =
          bind-cases (get_objects f C Request.all_positions) _ s s' b h in
        let (held, s2, lifted, h2) =
          bind-cases (lift f C (held_quantities f [] positions)) _ s1 s' b h1 in
        let (quantities, same1) = lift-cases (held_quantities f [] positions) s1 s2 held lifted in
        let (orders, s3, listed, h3) =
          bind-cases (get_objects f C Request.open_orders) _ s2 s' b h2 in
        let (ids, s4, lifted', h4) = bind-cases (lift f C (open_client_ids orders)) _ s3 s' b h3 in
        let (names, same3) = lift-cases (open_client_ids orders) s3 s4 ids lifted' in
        let outcome = ap (λ (x : Result Bool × C.State). x.0) h4 in
        let last = ap (λ (x : Result Bool × C.State). x.1) h4 in
        (
          held,
          ids,
          (
            positions,
            orders,
            s1,
            got,
            quantities,
            ap (get_objects f C Request.open_orders) same1
                ∙ listed
                ∙ (λ j. (ok orders, (same3 ∙ last) j)),
            names,
          ),
          ok_injective _ _ outcome,
        )

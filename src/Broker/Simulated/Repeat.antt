-- ===== src/Broker/Simulated/Repeat.antt =====
-- A submission that is repeated.
use project_fifty.Prelude.{ℕ, String, ◌≡◌, refl, eq_refl, subst, Option, some, none}
use project_fifty.Prelude.Dict.{lookup, lookup-insert}
use project_fifty.Outcome.{Result, ok, err}
use project_fifty.Outcome.Action.{Action, pure, read, modify, ◌>>=◌}
use project_fifty.Outcome.Hoare.{Triple, Ends, Triple-bind, Triple-pure, Triple-choose, Triple-read}
use project_fifty.Domain.{OrderIntent, BrokerOrder, ExecutionReport}
use project_fifty.Decimal.{Decimal}
use project_fifty.Broker.Simulated.{
  Simulated, submit, submit_new, submit_unknown, submit_fill, enter, set_mark_price,
}

-- No condition
abbrev AnyState : Simulated → Type 0
AnyState b = Unit {0}

abbrev IsAnswered : String → ExecutionReport → Simulated → Type 0
IsAnswered key r b = lookup key b.orders_by_key ≡ some r

any_end : {A : Type 0} (r : Result A × Simulated) → Ends (λ _. AnyState) AnyState r
any_end (ok a, b) = tt
any_end (err e, b) = tt

-- Nothing is claimed of what a call leaves.
no_claim : {A : Type 0} (m : Action Simulated A) → Triple AnyState m (λ _. AnyState) AnyState
no_claim m = record { at = λ b h. any_end (m b) }

enter-IsAnswered :
    (i : OrderIntent) (order : BrokerOrder) (r : ExecutionReport)
    → Triple AnyState (enter i order r) (λ _. IsAnswered i.idempotency_key r) AnyState
unfolding enter modify
enter-IsAnswered i order r = record {
  at = λ b h.
      rw
        (
          lookup-insert i.idempotency_key i.idempotency_key r b.orders_by_key,
          eq_refl i.idempotency_key,
        )
        refl;
}

mark-IsAnswered :
    (key symbol : String) (price : Decimal) (r : ExecutionReport)
    → Triple
        (IsAnswered key r)
        (modify (set_mark_price symbol price))
        (λ _. IsAnswered key r)
        AnyState
unfolding set_mark_price modify
mark-IsAnswered key symbol price r = record { at = λ b h. h }

module _ (uuid4 : ℕ → String) (i : OrderIntent) where
  submit_unknown-IsAnswered :
      Triple AnyState (submit_unknown uuid4 i) (IsAnswered i.idempotency_key) AnyState
  unfolding submit_unknown
  submit_unknown-IsAnswered =
      Triple-bind _ _ _ (no_claim (read _))
        λ r. Triple-bind _ _ _ (enter-IsAnswered i _ r) λ _. Triple-pure r (λ b h. h)

  submit_fill-IsAnswered :
      Triple AnyState (submit_fill uuid4 i) (IsAnswered i.idempotency_key) AnyState
  unfolding submit_fill
  submit_fill-IsAnswered = Triple-bind _ _ _ (no_claim (read _)) λ f.
      Triple-bind _ _ _ (no_claim _) λ _. Triple-bind _ _ _ (no_claim (read _)) λ r.
        Triple-bind _ _ _ (enter-IsAnswered i _ r) λ _.
          Triple-bind _ _ _ (mark-IsAnswered i.idempotency_key i.symbol f.price r)
            λ _. Triple-pure r (λ b h. h)

  submit_new-IsAnswered :
      (earlier : Option ExecutionReport)
      → Triple
          (λ b. lookup i.idempotency_key b.orders_by_key ≡ earlier)
          (submit_new uuid4 earlier i)
          (IsAnswered i.idempotency_key)
          AnyState
  unfolding submit_new
  submit_new-IsAnswered (some r) = Triple-pure r (λ b h. h)
  submit_new-IsAnswered none =
      Triple-bind _ _ (λ _. AnyState) (Triple-read _ (λ b a e h. tt) (λ b h. tt))
        λ fails.
          Triple-choose fails _ _ (λ _. submit_unknown-IsAnswered) (λ _. submit_fill-IsAnswered)

  submit-IsAnswered : Triple AnyState (submit uuid4 i) (IsAnswered i.idempotency_key) AnyState
  unfolding submit
  submit-IsAnswered =
      Triple-bind _ _ (λ earlier b. lookup i.idempotency_key b.orders_by_key ≡ earlier)
        (Triple-read _ (λ b a e h. cc) (λ b h. tt)) submit_new-IsAnswered

  -- A submission that returned can be repeated: the same intent gets the same report again, and
  -- the broker (its cash, positions and orders) stays as the first submission left it.
  pub submit-again :
      (b b' : Simulated) (r : ExecutionReport)
      → submit uuid4 i b ≡ (ok r, b')
      → submit uuid4 i b' ≡ (ok r, b')
  unfolding submit submit_new read pure ◌>>=◌
  submit-again b b' r h =
      let answered : IsAnswered i.idempotency_key r b' =
        subst (Ends (IsAnswered i.idempotency_key) AnyState) h (submit-IsAnswered.at b tt) in
      rw answered refl

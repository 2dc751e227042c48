-- ===== src/Broker/Simulated/Refused.antt =====
-- A submission to the simulated broker that is refused.
use project_fifty.Prelude.{
  ℕ, String, ◌≡◌, refl, sym, ap, Bool, true, false, Bool-cases, inl, inr, Option, none, some,
}
use project_fifty.Prelude.Dict.{lookup}
use project_fifty.Outcome.{Error, Result, ok, err}
use project_fifty.Outcome.Action.{Action, pure, raise, read, modify, go_on, choose, ◌>>=◌}
use project_fifty.Decimal.{lt, eq, add, sub, mul, zero_dec}
use project_fifty.Decimal.Sign.{IsNonneg, mul-IsNonneg, sub-IsNonneg, lt→IsNonneg, lt-asym}
use project_fifty.Domain.{OrderIntent, ExecutionReport, Position, is_buy}
use project_fifty.Reconcile.{buy_position}
use project_fifty.Reconcile.LongOnly.{AreHeld}
use project_fifty.Reconcile.Fills.{
  IsSound, lookup-IsSound, buy_position-ok, new_position-ok, position_of,
}
use project_fifty.Broker.Simulated.{
  Simulated, Fill, price_fill, bought, store_position, settle_buy, settle_sell_from, settle_sell,
  enter, submit_unknown, submit_fill, submit_new, submit,
}
use project_fifty.Broker.Simulated.Settle.{err-ok, fill_report, after_fill}
use project_fifty.Broker.Simulated.Prices.{IsOrder, IsTariff, price_fill-IsPriced}

-- What a buy makes is a position.
bought-ok :
    (i : OrderIntent) (f : Fill) (current : Option Position)
    → ((p : Position) → current ≡ some p → IsSound p)
    → lt zero_dec i.quantity ≡ true
    → IsNonneg f.price
    → (p : Position) × (bought i f current ≡ ok p)
unfolding bought
bought-ok i f none h more high =
    let size = lt→IsNonneg i.quantity (lt-asym zero_dec i.quantity more) in
    (position_of i.symbol i.quantity f.price, new_position-ok i.symbol i.quantity f.price size high)
bought-ok i f (some c) h more high =
    let size = lt→IsNonneg i.quantity (lt-asym zero_dec i.quantity more) in
    let (price, made) =
      buy_position-ok i.symbol (some c) i.quantity (mul i.quantity f.price) h more
        (mul-IsNonneg i.quantity f.price size high) in
    (position_of i.symbol (add c.quantity i.quantity) price, unfold buy_position in made)

settle_buy-refused :
    (i : OrderIntent) (f : Fill) (b b' : Simulated) (e : Error)
    → AreHeld b.positions
    → lt zero_dec i.quantity ≡ true
    → IsNonneg f.price
    → settle_buy i f b ≡ (err e, b')
    → b ≡ b'
unfolding settle_buy read choose raise modify store_position ◌>>=◌
settle_buy-refused i f b b' e held more high h =
    elim (Bool-cases (lt b.cash (add f.notional f.fee))) [
      | inl short ↦
          let stopped : ◌≡◌ {A = Result (Unit {0}) × Simulated} _ (err e, b') = rw short at h in
          ap (λ x. x.1) stopped
      | inr enough ↦
          let (p, made) =
            bought-ok i f (lookup i.symbol b.positions)
              (λ p. lookup-IsSound i.symbol b.positions p held) more high in
          absurd (err-ok _ _ _ _ (sym (rw (enough, made) at h)))
    ]

settle_sell_from-refused :
    (i : OrderIntent) (f : Fill) (current : Option Position) (b b' : Simulated) (e : Error)
    → ((p : Position) → current ≡ some p → IsSound p)
    → settle_sell_from i f current b ≡ (err e, b')
    → b ≡ b'
unfolding settle_sell_from read choose raise modify store_position ◌>>=◌
settle_sell_from-refused i f none b b' e sound h = ap (λ x. x.1) h
settle_sell_from-refused i f (some c) b b' e sound h =
    elim (Bool-cases (lt c.quantity i.quantity)) [
      | inl short ↦
          let stopped : ◌≡◌ {A = Result (Unit {0}) × Simulated} _ (err e, b') = rw short at h in
          ap (λ x. x.1) stopped
      | inr enough ↦ elim (Bool-cases (eq (sub c.quantity i.quantity) zero_dec)) [
        | inl gone ↦ absurd (err-ok _ _ _ _ (sym (rw (enough, gone) at h)))
        | inr part ↦
            let made =
              new_position-ok i.symbol (sub c.quantity i.quantity) c.average_price
                (sub-IsNonneg c.quantity i.quantity enough) (sound c refl).1 in
            absurd (err-ok _ _ _ _ (sym (rw (enough, part, made) at h)))
      ]
    ]

settle-refused :
    (i : OrderIntent) (f : Fill) (b b' : Simulated) (e : Error)
    → AreHeld b.positions
    → lt zero_dec i.quantity ≡ true
    → IsNonneg f.price
    → choose (is_buy i.side) (settle_buy i f) (settle_sell i f) b ≡ (err e, b')
    → b ≡ b'
unfolding choose settle_sell read ◌>>=◌
settle-refused i f b b' e held more high h = elim (Bool-cases (is_buy i.side)) [
  | inl buys ↦ settle_buy-refused i f b b' e held more high (rw buys at h)
  | inr sells ↦
      settle_sell_from-refused i f (lookup i.symbol b.positions) b b' e
        (λ p. lookup-IsSound i.symbol b.positions p held) (rw sells at h)
]

module _ (uuid4 : ℕ → String) (i : OrderIntent) where
  submit_fill-refused :
      (b b' : Simulated) (e : Error)
      → AreHeld b.positions
      → IsTariff b.fee_rate b.slippage_rate
      → IsOrder i
      → submit_fill uuid4 i b ≡ (err e, b')
      → b ≡ b'
  unfolding submit_fill read enter modify pure ◌>>=◌
  submit_fill-refused b b' e held tariff o h = stopped _ h λ e.
      settle-refused i (price_fill i b) b b' _ held o.sized (price_fill-IsPriced i b o tariff).price
        e
    where
      finish : Action Simulated ExecutionReport
      finish s =
          (ok (fill_report uuid4 i (price_fill i b) s), after_fill uuid4 i (price_fill i b) s)

      stopped :
          (x : Result (Unit {0}) × Simulated)
          → go_on (λ _. finish) x ≡ (err e, b')
          → (x ≡ (err e, b') → b ≡ b')
          → b ≡ b'
      stopped (ok tt, s) h k = absurd (err-ok _ _ _ _ (sym h))
      stopped (err raised, s) h k =
          let same : raised ≡ e = (let e' = ap (λ x. x.0) h in cc) in
          k (λ j. (err (same j), (h j).1))

  submit_unknown-returns :
      (b b' : Simulated) (e : Error) → submit_unknown uuid4 i b ≡ (err e, b') → ⊥
  unfolding submit_unknown enter read modify pure ◌>>=◌
  submit_unknown-returns b b' e h = err-ok _ _ _ _ (sym h)

  submit_new-refused :
      (earlier : Option ExecutionReport) (b b' : Simulated) (e : Error)
      → AreHeld b.positions
      → IsTariff b.fee_rate b.slippage_rate
      → IsOrder i
      → submit_new uuid4 earlier i b ≡ (err e, b')
      → b ≡ b'
  unfolding submit_new choose read pure ◌>>=◌
  submit_new-refused (some r) b b' e held tariff o h = absurd (err-ok _ _ _ _ (sym h))
  submit_new-refused none b b' e held tariff o h = either b.fail_with_unknown h
    where
      either :
          (fails : Bool)
          → choose fails (submit_unknown uuid4 i) (submit_fill uuid4 i) b ≡ (err e, b')
          → b ≡ b'
      either true h = absurd (submit_unknown-returns b b' e h)
      either false h = submit_fill-refused b b' e held tariff o h

  -- Where the positions are sound and the rates are not negative with a slippage of at most one, an
  -- order of a positive quantity of at most 28 digits, at a reference price that is not negative,
  -- and which the broker refuses with an error, leaves the broker as it was: its cash, its
  -- positions, its orders and the identifiers that were drawn.
  pub submit-refused :
      (b b' : Simulated) (e : Error)
      → AreHeld b.positions
      → IsTariff b.fee_rate b.slippage_rate
      → IsOrder i
      → submit uuid4 i b ≡ (err e, b')
      → b ≡ b'
  unfolding submit read ◌>>=◌
  submit-refused b b' e held tariff o h =
      submit_new-refused (lookup i.idempotency_key b.orders_by_key) b b' e held tariff o h

-- ===== src/Broker/Simulated/Follow.antt =====
-- The reconciler follows every submission that returned.
use project_fifty.Prelude.{
  ℕ, ◌+◌, ◌≤◌, String, ◌≡◌, ◌∙◌, refl, ap, subst, Bool, true, false, Option, none, some,
}
use project_fifty.Prelude.Dict.{lookup, insert}
use project_fifty.Outcome.{ok, ok_injective}
use project_fifty.Outcome.Action.{pure, read, modify, choose, ◌>>=◌}
use project_fifty.Domain.{OrderIntent, ExecutionReport}
use project_fifty.Reconcile.{Replay}
use project_fifty.Broker.Simulated.{
  Simulated, price_fill, enter, submit_unknown, submit_fill, submit_new, submit,
}
use project_fifty.Broker.Simulated.Settle.{fill_report, after_fill, submit_fill-cases}
use project_fifty.Broker.Simulated.Prices.{IsOrder, price_fill-IsPriced}
use project_fifty.Broker.Simulated.Fills.{settle-Agree}
use project_fifty.Broker.Simulated.Identifiers.{AreDistinctIds}
use project_fifty.Broker.Simulated.Replay.{
  Agrees, Follows, after_unknown, after_unknown-Follows, filled_with, filled_with-Follows,
  submit_again-Follows,
}
use project_fifty.Reconcile.Marks.{insert-IsMarked_self, insert-AreMarked_price}

module _ (uuid4 : ℕ → String) (count : ℕ) (currency : String)
    (distinct : AreDistinctIds uuid4 count) where
  submit_unknown-Follows :
      (i : OrderIntent) (st : Replay) (b b' : Simulated) (r : ExecutionReport)
      → Agrees uuid4 count currency st b
      → b.drawn + 2 ≤ count
      → submit_unknown uuid4 i b ≡ (ok r, b')
      → Follows uuid4 count currency st b r b'
  unfolding submit_unknown enter read modify pure ◌>>=◌
  submit_unknown-Follows i st b b' r a enough h =
      let same = ok_injective _ _ (ap (λ x. x.0) h) in
      let state = ap (λ x. x.1) h in
      subst (Follows uuid4 count currency st b r) state (
        subst
          (λ x.
            Follows uuid4 count currency st b x (after_unknown uuid4 count currency distinct i b))
          same (after_unknown-Follows uuid4 count currency distinct i st b a enough))

  submit_fill-Follows :
      (i : OrderIntent) (st : Replay) (b b' : Simulated) (r : ExecutionReport)
      → Agrees uuid4 count currency st b
      → b.drawn + 2 ≤ count
      → IsOrder i
      → submit_fill uuid4 i b ≡ (ok r, b')
      → Follows uuid4 count currency st b r b'
  submit_fill-Follows i st b b' r a enough o h =
      let f = price_fill i b in
      let p = price_fill-IsPriced i b o a.tariff in
      let (settled, done, report, state) = submit_fill-cases uuid4 i b b' r h in
      let g =
        settle-Agree i f st.positions b settled done a.quantities a.held a.listed o.sized
          p.notional_high in
      let marked =
        g.marked (insert i.symbol f.price b.last_price)
          (insert-IsMarked_self i.symbol f.price b.last_price)
          (insert-AreMarked_price i.symbol f.price b.positions b.last_price a.marked) in
      let reported = ap (fill_report uuid4 i f) g.after ∙ report in
      let left = ap (after_fill uuid4 i f) g.after ∙ state in
      subst (Follows uuid4 count currency st b r) left (
        subst
          (λ x.
            Follows uuid4 count currency st b x
              (filled_with uuid4 count currency distinct i f g.positions b))
          reported
          (filled_with-Follows uuid4 count currency distinct i f st b g.new g.positions a enough o p
            g.taken g.alike g.listed marked))

  submit_new-Follows :
      (i : OrderIntent) (st : Replay) (b b' : Simulated) (r : ExecutionReport)
      (earlier : Option ExecutionReport)
      → Agrees uuid4 count currency st b
      → b.drawn + 2 ≤ count
      → IsOrder i
      → lookup i.idempotency_key b.orders_by_key ≡ earlier
      → submit_new uuid4 earlier i b ≡ (ok r, b')
      → Follows uuid4 count currency st b r b'
  unfolding submit_new choose read pure ◌>>=◌
  submit_new-Follows i st b b' r (some old) a enough o known h =
      let same : old ≡ r = ok_injective _ _ (ap (λ x. x.0) h) in
      let state = ap (λ x. x.1) h in
      subst (Follows uuid4 count currency st b r) state (
        submit_again-Follows uuid4 count currency distinct st b i.idempotency_key r a
          (known ∙ ap some same))
  submit_new-Follows i st b b' r none a enough o known h = either b.fail_with_unknown h
    where
      either :
          (fails : Bool)
          → choose fails (submit_unknown uuid4 i) (submit_fill uuid4 i) b ≡ (ok r, b')
          → Follows uuid4 count currency st b r b'
      either true e = submit_unknown-Follows i st b b' r a enough e
      either false e = submit_fill-Follows i st b b' r a enough o e

  -- A submission that returned
  pub submit-Follows :
      (i : OrderIntent) (st : Replay) (b b' : Simulated) (r : ExecutionReport)
      → Agrees uuid4 count currency st b
      → b.drawn + 2 ≤ count
      → IsOrder i
      → submit uuid4 i b ≡ (ok r, b')
      → Follows uuid4 count currency st b r b'
  unfolding submit read ◌>>=◌
  submit-Follows i st b b' r a enough o h =
      submit_new-Follows i st b b' r (lookup i.idempotency_key b.orders_by_key) a enough o refl h

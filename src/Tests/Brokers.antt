-- ===== src/Tests/Brokers.antt =====
-- Examples for the simulated broker.
use project_fifty.Prelude.Seq.{length}
use project_fifty.Prelude.{
  if◌then◌else◌, zero, ◌≡◌, refl, List, sym, String, ℕ, ◌∷◌, ◌<◌, ◌∙◌, false, none, [], ap, eq_iff,
  suc, str_eq, arith, map,
}
use project_fifty.Prelude.Dict.{lookup, insert, erase}
use project_fifty.Outcome.{ok, value_error, err}
use project_fifty.Outcome.Action.{pure, read, modify, choose, ◌>>=◌, raise}
use project_fifty.Decimal.{fix, lt, add, sub, mul, abs, eq}
use project_fifty.Domain.{OrderSide, OrderIntent, ExecutionReport, filled, new_position}
use project_fifty.Broker.Simulated.{
  get_portfolio, settle_sell, settle_sell_from, Simulated, submit, submit_new, submit_fill,
  settle_buy, bought, store_position, enter, price_fill, report_of, set_mark_price, new_simulated,
}
use project_fifty.Broker.Simulated.Repeat.{submit-again}
use project_fifty.Broker.Simulated.Prices.{IsTariff}
use project_fifty.Broker.Simulated.Identifiers.{AreDistinctIds}
use project_fifty.Broker.Simulated.Refused.{submit-refused}
use project_fifty.Reconcile.{replay_events}
use project_fifty.Broker.Simulated.Portfolio.{without_prices, replay_events-get_portfolio}
use project_fifty.Broker.Simulated.Rebuild.{submit_each, AreOrders}
use project_fifty.Ledger.Events.{Event}
use project_fifty.Session.Observation.{execution_reports_of}
use project_fifty.Session.RuntimeState.{expected_position_quantities}
use project_fifty.Session.RuntimeState.Simulated.{expected_position_quantities-submit_each}
use project_fifty.Reconcile.Quantities.{quantities_of}
use project_fifty.Tests.Data.{intent, uuid4, broker, units, per_thousand}

abbrev order : OrderIntent
order = intent OrderSide.buy 2

abbrev answer : ExecutionReport
answer = report_of "b" "a" "USD" order filled order.quantity (price_fill order broker)

abbrev after : Simulated
after = (submit uuid4 order broker).1

submitted : submit uuid4 order broker ≡ (ok answer, after)
unfolding submit submit_new submit_fill settle_buy bought store_position enter price_fill
    set_mark_price new_simulated lookup insert pure read modify choose ◌>>=◌ lt add sub mul abs
    new_position
submitted = refl

submit-again_example : submit uuid4 order after ≡ (ok answer, after)
submit-again_example = submit-again uuid4 order broker after answer submitted

abbrev index_of : String → ℕ
index_of s =
    if str_eq s "a"
    then 0
    else if str_eq s "b"
    then 1
    else if str_eq s "c"
    then 2
    else if str_eq s "d"
    then 3
    else if str_eq s "e"
    then 4
    else 5

index_of-uuid4 : (n : ℕ) → n < 6 → index_of (uuid4 n) ≡ n
index_of-uuid4 zero h = refl
index_of-uuid4 (suc zero) h = refl
index_of-uuid4 (suc (suc zero)) h = refl
index_of-uuid4 (suc (suc (suc zero))) h = refl
index_of-uuid4 (suc (suc (suc (suc zero)))) h = refl
index_of-uuid4 (suc (suc (suc (suc (suc zero))))) h = refl
index_of-uuid4 (suc (suc (suc (suc (suc (suc n)))))) h = absurd (omega arith)

distinct_ids : AreDistinctIds uuid4 6
distinct_ids j k less below same =
    sym (index_of-uuid4 j less)
    ∙ ap index_of ((eq_iff (uuid4 j) (uuid4 k)).0 same)
    ∙ index_of-uuid4 k below

-- A buy, a sale of more than that, and a sale of a part
abbrev too_much : OrderIntent
too_much = record (intent OrderSide.sell 5) { idempotency_key = "second" }

abbrev orders : List OrderIntent
orders = order ∷ too_much ∷ record (intent OrderSide.sell 1) { idempotency_key = "third" } ∷ []

tariff : IsTariff (per_thousand 1) (per_thousand 1)
unfolding lt
tariff = record { fee = refl; slippage = refl; within_one = refl }

are_orders : AreOrders orders
unfolding lt fix
are_orders = (
  record { sized = refl; rounded = refl; priced = refl },
  (
    record { sized = refl; rounded = refl; priced = refl },
    (record { sized = refl; rounded = refl; priced = refl }, tt),
  ),
)

-- The sale of too much has no report.
reported : length (submit_each uuid4 orders broker).0 ≡ 2
unfolding submit_each length submit submit_new submit_fill settle_buy settle_sell settle_sell_from
    bought store_position enter price_fill set_mark_price new_simulated lookup insert erase pure
    read modify choose raise ◌>>=◌ lt eq add sub mul abs new_position
reported = refl

replay_events-get_portfolio_example :
    let run = submit_each uuid4 orders broker in
    without_prices (replay_events (units 1000) run.0 run.1.last_price "USD")
    ≡ without_prices (get_portfolio run.1)
unfolding length
replay_events-get_portfolio_example =
    replay_events-get_portfolio uuid4 (units 1000) (per_thousand 1) (per_thousand 1) "USD" false
      none orders distinct_ids tariff are_orders

refused : submit uuid4 too_much broker ≡ (err (value_error "short selling forbidden"), broker)
unfolding submit submit_new submit_fill settle_sell settle_sell_from price_fill new_simulated lookup
    pure read modify choose raise ◌>>=◌
refused = refl

submit-refused_example : broker ≡ (submit uuid4 too_much broker).1
unfolding new_simulated
submit-refused_example =
    submit-refused uuid4 too_much broker (submit uuid4 too_much broker).1
      (value_error "short selling forbidden") tt tariff are_orders.1.0
      (λ j. ((refused j).0, (submit uuid4 too_much broker).1))

abbrev reports_in_order : List ExecutionReport → List Event
reports_in_order = map Event.broker_execution_report

read_reports :
    (reports : List ExecutionReport) → execution_reports_of (reports_in_order reports) ≡ reports
unfolding execution_reports_of
read_reports [] = refl
read_reports (r ∷ reports) = ap (λ rest. r ∷ rest) (read_reports reports)

-- A ledger with the reports of the broker
abbrev ledger : List Event
ledger = Event.order_intent_created order ∷ reports_in_order (submit_each uuid4 orders broker).0

kept : execution_reports_of ledger ≡ (submit_each uuid4 orders broker).0
unfolding execution_reports_of
kept = read_reports (submit_each uuid4 orders broker).0

expected_position_quantities-submit_each_example :
    expected_position_quantities ledger
    ≡ ok (quantities_of (submit_each uuid4 orders broker).1.positions)
unfolding length
expected_position_quantities-submit_each_example =
    expected_position_quantities-submit_each uuid4 (units 1000) (per_thousand 1) (per_thousand 1)
      "USD" false none orders ledger distinct_ids tariff are_orders kept

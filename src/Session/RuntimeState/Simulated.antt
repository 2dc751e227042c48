-- ===== src/Session/RuntimeState/Simulated.antt =====
-- The quantities that the session expects and those that the simulated broker holds.
use project_fifty.Prelude.{ℕ, ◌*◌, String, ◌≡◌, sym, ap, subst, Bool, Option, List}
use project_fifty.Prelude.Seq.{length}
use project_fifty.Outcome.{ok}
use project_fifty.Decimal.{Decimal}
use project_fifty.Domain.{OrderIntent}
use project_fifty.Ledger.Events.{Event}
use project_fifty.Reconcile.{replay_reports, start}
use project_fifty.Reconcile.Quantities.{quantities_of}
use project_fifty.Broker.Simulated.{new_simulated}
use project_fifty.Broker.Simulated.Prices.{IsTariff}
use project_fifty.Broker.Simulated.Identifiers.{AreDistinctIds}
use project_fifty.Broker.Simulated.Rebuild.{submit_each, AreOrders, new_simulated-IsRebuilt}
use project_fifty.Session.Observation.{execution_reports_of}
use project_fifty.Session.RuntimeState.{expected_position_quantities}
use project_fifty.Session.RuntimeState.Agreement.{expect_events-expected_of}

-- The session expects what the broker holds: from a new simulated broker with rates that are not
-- negative and a slippage of at most one, after any list of orders (a positive quantity of at
-- most 28 digits, at a reference price that is not negative) of which some may be refused or
-- repeat a key, and where no two identifiers drawn for them are the same, the session calculates
-- from any ledger with the reports that were returned, whatever other events it has, exactly the
-- broker's quantities.
pub expected_position_quantities-submit_each :
    (uuid4 : ℕ → String) (cash fee_rate slippage_rate : Decimal) (currency : String) (fails : Bool)
    (power : Option Decimal) (intents : List OrderIntent) (events : List Event)
    → AreDistinctIds uuid4 (2 * length intents)
    → IsTariff fee_rate slippage_rate
    → AreOrders intents
    → execution_reports_of events
      ≡ (submit_each uuid4 intents
          (new_simulated cash currency fee_rate slippage_rate fails power)).0
    → expected_position_quantities events
      ≡ ok (
          quantities_of
            (submit_each uuid4 intents
              (new_simulated cash currency fee_rate slippage_rate fails power)).1.positions)
unfolding expected_position_quantities
expected_position_quantities-submit_each uuid4 cash fee_rate slippage_rate currency fails power
      intents events distinct tariff orders kept =
    let (last, replayed, a) =
      new_simulated-IsRebuilt uuid4 cash fee_rate slippage_rate currency fails power intents
        distinct tariff orders in
    let replayed_here =
      subst (λ reports. replay_reports currency reports (start cash) ≡ ok last) (sym kept)
        replayed in
    rw (expect_events-expected_of currency events (start cash) last replayed_here tt)
      (ap ok a.quantities)

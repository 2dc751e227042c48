-- ===== src/Tests/Runners.antt =====
-- Examples for the session's runner: the single-market strategy on the kernel and the simulated broker.
use project_fifty.Prelude.Seq.{from_end, length}
use project_fifty.Session.Runner.Bounds.{IsBounded, run_until_close-IsBounded}
use project_fifty.Session.Runner.Repeat.{
  IsCycle, IsUntouched, run_cycle-IsUntouched, run_cycle-IsCycle,
}
use project_fifty.Prelude.{
  ◌≡◌, ◌+◌, ◌-◌, ℕ, String, refl, List, [], ◌∷◌, some, none, true, contains, add_key, subst, sym,
  ap, false,
}
use project_fifty.Outcome.{Result, err, ok, ok_injective}
use project_fifty.Prelude.Dict.{lookup, has_key, lookup_or, erase, set_default, Dict}
use project_fifty.Outcome.Action.{pure, raise, read, modify, ◌>>=◌, choose}
use project_fifty.Decimal.{
  digit_count, round_half_even, fix, lt, le, eq, add, sub, mul, quotient_digits, div, max, abs, min,
  zero_dec,
}
use project_fifty.Domain.{status_eq}
use project_fifty.StateMachine.{status_in, transition, is_terminal}
use project_fifty.Reconcile.{is_fill}
use project_fifty.Risk.{evaluate_intent, is_stale, evaluate}
use project_fifty.Control.{set_mode, transition_mode}
use project_fifty.Kernel.State.{
  Kernel, blank_memory, know_key, note_cost, note_intent, note_status, ensure_machine,
  machine_status, note_report, note_broker_order, hydrate_transition,
}
use project_fifty.Kernel.Capital.{
  filled_from, reserve_intents, reserved_cash, available_authorized_cash, position_quantity,
  sell_quantity, new_order, derive_intent,
}
use project_fifty.Kernel.Handle.{
  normalise_broker_state, assess, emit, remember, set_control, enter_safe_mode, transition_order,
  record_report, state_transition_failure, append_reconciliation, reconcile_order,
  reconcile_execution_report, call_submit, settle_submission, announce, place, trade, carry_out,
  handle_proposal,
}
use project_fifty.Broker.Simulated.{
  Simulated, simulated_broker, buying_power, new_simulated, set_mark_price, price_fill, bought,
  store_position, settle_buy, settle_sell_from, settle_sell, enter, submit_fill, submit_new, submit,
}
use project_fifty.Kernel.Calls.Watched.{BrokerCall, watched}
use project_fifty.Strategies.SingleMarket.{generate_target, SingleMarketTrendConfig}
use project_fifty.Strategies.Proposals.{build_with_plan}
use project_fifty.Session.Runner.{
  Runner, Market, SessionCycleResult, last_completed_bar, benchmark_bar, idle_result,
}
use project_fifty.Session.Runner.Cycle.{Turn, run_cycle, run_until_close}
use project_fifty.Tests.Data.{settings, control, per_thousand, units, uuid4}
use project_fifty.Strategies.Contracts.{MarketBar}

abbrev bar : ℕ → ℕ → MarketBar
bar time price = record {
  timestamp = time;
  open_price = units price;
  high = units (price + 1);
  low = units (price - 1);
  close = units price;
  volume = units 1;
}

abbrev bars : List MarketBar
bars = bar 10 10 ∷ bar 20 11 ∷ bar 30 12 ∷ []

abbrev trend : SingleMarketTrendConfig
trend = record { symbol = "SPY"; rebalance_every_bars = 3; trend_sma_days = 2; momentum_days = 1 }

abbrev runner : Runner
runner = record {
  settings = record settings { authorized_starting_cash = units 400 };
  universe = record { benchmark_symbol = "SPY"; all_symbols = "SPY" ∷ [] };
  strategy = generate_target trend;
  proposal_builder = record {
    min_order_notional = units 1;
    estimated_fee = zero_dec;
    estimated_slippage_rate = per_thousand 1;
    rebalance_policy = none;
  };
  config = record {
    timeframe_seconds = 300;
    history_days = 14;
    history_start = some 0;
    poll_seconds = 60;
    future_quote_tolerance_seconds = 30;
  };
  sha256 = λ text. text;
  state_hash = λ history quotes. "state";
}

abbrev market : Market
market = record {
  is_open = true;
  get_bars = λ symbols start end. ok (("SPY", bars) ∷ []);
  get_latest_quotes = λ symbols. ok (
      ("SPY", record { symbol = "SPY"; bid = units 12; ask = units 12; timestamp = 2000000000 })
      ∷ []);
}

abbrev turn : Turn
turn = record { now = 2000000000; market = market; uuids = uuid4; times = λ n. 2000000000 }

abbrev free_broker : Simulated
free_broker = new_simulated (units 1000) "USD" zero_dec zero_dec false none

abbrev kernel : Kernel Simulated
kernel = record { memory = blank_memory; ledger = []; control = control; broker = free_broker }

abbrev value_or : SessionCycleResult → Result SessionCycleResult → SessionCycleResult
value_or a (ok b) = b
value_or a (err e) = a

abbrev ended : Result SessionCycleResult × Kernel Simulated
ended = run_cycle runner (simulated_broker uuid4) turn kernel

abbrev result : SessionCycleResult
result = value_or (idle_result true none "") ended.0

returned : run_cycle runner (simulated_broker uuid4) turn kernel ≡ (ok result, ended.1)
unfolding run_cycle generate_target build_with_plan min lookup has_key set_default contains add_key
    pure raise read modify ◌>>=◌ choose fix lt le eq add sub mul quotient_digits div max abs
    status_eq transition is_terminal is_fill is_stale evaluate set_mode transition_mode know_key
    note_cost note_intent note_status ensure_machine machine_status note_report note_broker_order
    reserved_cash available_authorized_cash position_quantity sell_quantity new_order derive_intent
    normalise_broker_state assess emit remember set_control enter_safe_mode transition_order
    record_report state_transition_failure append_reconciliation reconcile_order
    reconcile_execution_report call_submit settle_submission announce place trade carry_out
    handle_proposal buying_power new_simulated set_mark_price price_fill bought store_position
    settle_buy settle_sell_from settle_sell enter submit_fill submit_new submit
returned = refl

-- The strategy enters the market, and the purchase is approved.
approves : result.approved_count ≡ 1
unfolding run_cycle generate_target build_with_plan min lookup has_key set_default contains add_key
    pure raise read modify ◌>>=◌ choose fix lt le eq add sub mul quotient_digits div max abs
    status_eq transition is_terminal is_fill is_stale evaluate set_mode transition_mode know_key
    note_cost note_intent note_status ensure_machine machine_status note_report note_broker_order
    reserved_cash available_authorized_cash position_quantity sell_quantity new_order derive_intent
    normalise_broker_state assess emit remember set_control enter_safe_mode transition_order
    record_report state_transition_failure append_reconciliation reconcile_order
    reconcile_execution_report call_submit settle_submission announce place trade carry_out
    handle_proposal buying_power new_simulated set_mark_price price_fill bought store_position
    settle_buy settle_sell_from settle_sell enter submit_fill submit_new submit
approves = refl

run_cycle-IsCycle_example : IsCycle runner (simulated_broker uuid4) turn kernel result ended.1
run_cycle-IsCycle_example =
    run_cycle-IsCycle runner (simulated_broker uuid4) turn kernel result ended.1 returned

decided : last_completed_bar ended.1.ledger ≡ some 30
unfolding last_completed_bar run_cycle generate_target build_with_plan min lookup erase set_default
    contains add_key pure raise read modify ◌>>=◌ choose digit_count round_half_even le eq add sub
    mul quotient_digits div max abs status_in transition is_terminal evaluate_intent is_stale
    evaluate set_mode transition_mode know_key note_cost note_intent note_status ensure_machine
    machine_status note_report note_broker_order hydrate_transition filled_from reserve_intents
    reserved_cash available_authorized_cash position_quantity sell_quantity new_order derive_intent
    normalise_broker_state assess emit remember set_control enter_safe_mode transition_order
    record_report state_transition_failure append_reconciliation reconcile_order
    reconcile_execution_report call_submit settle_submission announce place trade carry_out
    handle_proposal buying_power new_simulated set_mark_price price_fill bought store_position
    settle_buy settle_sell_from settle_sell enter submit_fill submit_new submit
decided = refl

some_injective : (a b : MarketBar) → some a ≡ some b → a ≡ b
some_injective a b h = cc

same_bar :
    (symbols : List String) (start end : ℕ) (history : Dict (List MarketBar)) (b : MarketBar)
    → market.get_bars symbols start end ≡ ok history
    → benchmark_bar runner history ≡ some b
    → b.timestamp ≡ 30
unfolding benchmark_bar
same_bar symbols start end history b got found =
    let last =
      subst (λ (x : Dict (List MarketBar)). from_end 1 (lookup_or [] "SPY" x) ≡ some b)
        (sym (ok_injective (("SPY", bars) ∷ []) history got)) found in
    sym (ap (λ (x : MarketBar). x.timestamp) (some_injective (bar 30 12) b last))

run_cycle-IsUntouched_example :
    IsUntouched ended.1 (run_cycle runner (simulated_broker uuid4) turn ended.1).1
run_cycle-IsUntouched_example =
    run_cycle-IsUntouched runner (simulated_broker uuid4) turn ended.1 30 decided same_bar

abbrev watched_kernel : Kernel (List BrokerCall × Simulated)
watched_kernel = record {
  memory = blank_memory;
  ledger = [];
  control = control;
  broker = ([], free_broker);
}

abbrev list_or : Result (List SessionCycleResult) → List SessionCycleResult
list_or (ok b) = b
list_or (err e) = []

abbrev session : Result (List SessionCycleResult) × Kernel (List BrokerCall × Simulated)
session = run_until_close runner (watched (simulated_broker uuid4)) (λ n. turn) 2 watched_kernel

sessions :
    run_until_close runner (watched (simulated_broker uuid4)) (λ n. turn) 2 watched_kernel
    ≡ (ok (list_or session.0), session.1)
unfolding run_until_close run_cycle generate_target build_with_plan min lookup erase set_default
    contains add_key pure raise read modify ◌>>=◌ choose digit_count round_half_even le eq add sub
    mul quotient_digits div max abs status_in transition is_terminal evaluate_intent is_stale
    evaluate set_mode transition_mode know_key note_cost note_intent note_status ensure_machine
    machine_status note_report note_broker_order hydrate_transition filled_from reserve_intents
    reserved_cash available_authorized_cash position_quantity sell_quantity new_order derive_intent
    normalise_broker_state assess emit remember set_control enter_safe_mode transition_order
    record_report state_transition_failure append_reconciliation reconcile_order
    reconcile_execution_report call_submit settle_submission announce place trade carry_out
    handle_proposal buying_power new_simulated set_mark_price price_fill bought store_position
    settle_buy settle_sell_from settle_sell enter submit_fill submit_new submit
sessions = refl

run_until_close-IsBounded_example :
    IsBounded runner (simulated_broker uuid4) (λ n. turn) 0 2 (list_or session.0) session.1
unfolding length
run_until_close-IsBounded_example =
    run_until_close-IsBounded runner (simulated_broker uuid4) (λ n. turn) 2 watched_kernel session.1
      (list_or session.0) sessions

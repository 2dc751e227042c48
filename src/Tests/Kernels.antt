-- ===== src/Tests/Kernels.antt =====
-- Examples for the kernel, with the simulated broker.
use project_fifty.Prelude.{◌≡◌, refl, List, [], ◌∷◌, contains, add_key}
use project_fifty.Outcome.{ok}
use project_fifty.Prelude.Dict.{lookup, has_key, lookup_or, insert, erase, set_default}
use project_fifty.Outcome.Action.{pure, raise, read, modify, ◌>>=◌, choose}
use project_fifty.Decimal.{
  digit_count, round_half_even, lt, le, eq, add, sub, mul, quotient_digits, div, max, abs,
}
use project_fifty.Domain.{OrderSide, ExecutionReport, non_negative, positive}
use project_fifty.StateMachine.{allowed_transitions, status_in, transition, is_terminal}
use project_fifty.Reconcile.{is_fill, buy_position}
use project_fifty.Risk.{is_stale, evaluate}
use project_fifty.Control.{set_mode, transition_mode}
use project_fifty.Kernel.State.{
  Kernel, blank_memory, start_kernel, note_intent, note_status, ensure_machine, machine_status,
  note_report, note_broker_order, hydrate_from, hydrate,
}
use project_fifty.Kernel.Capital.{
  mark_prices_from, reserve_intents, reserved_cash, available_authorized_cash, position_quantity,
  sell_quantity, new_order, derive_intent,
}
use project_fifty.Kernel.Handle.{
  normalise_broker_state, assess, emit, remember, set_control, enter_safe_mode, transition_order,
  record_report, state_transition_failure, append_reconciliation, reconcile_order,
  reconcile_execution_report, call_submit, settle_submission, announce, place, trade, carry_out,
  handle_proposal,
}
use project_fifty.Broker.Simulated.{
  Simulated, simulated_broker, buying_power, new_simulated, set_mark_price, price_fill, bought,
  store_position, settle_buy, settle_sell_from, settle_sell, enter, submit_fill, submit_new, submit,
}
use project_fifty.Kernel.Calls.Watched.{BrokerCall, watched}
use project_fifty.Kernel.Calls.Distinct.{AreDistinct, submitted_keys, run-AreDistinct}
use project_fifty.Kernel.Calls.Authority.{IsUsed, handle_proposal-IsUsed}
use project_fifty.Kernel.Restart.History.{
  Command, propose, report, restart, step, run, AreNewIds, first_kernel, restart-run,
}
use project_fifty.Tests.Data.{
  settings, control, buy_two, exit_all, fill, per_thousand, uuid4, broker,
}

abbrev watched_kernel : Kernel (List BrokerCall × Simulated)
watched_kernel = record {
  memory = blank_memory;
  ledger = [];
  control = control;
  broker = ([], broker);
}

handle_proposal-IsUsed_example :
    IsUsed settings
      (simulated_broker uuid4)
      "id"
      2000
      buy_two
      watched_kernel
      (handle_proposal settings
        (watched (simulated_broker uuid4))
        "id"
        2000
        buy_two
        watched_kernel).1
handle_proposal-IsUsed_example =
    handle_proposal-IsUsed settings (simulated_broker uuid4) "id" 2000 buy_two watched_kernel

abbrev late : ExecutionReport
late = record (fill "late" OrderSide.buy "a" 2) { fill_price = per_thousand 10010 }

abbrev commands : List Command
commands =
    propose "id" 2000 buy_two ∷ report late ∷ restart control ∷ propose "id2" 3000 exit_all ∷ []

abbrev first : Kernel Simulated
first = first_kernel settings (simulated_broker uuid4) control broker

new_ids : AreNewIds settings (simulated_broker uuid4) commands first
unfolding step lookup has_key lookup_or set_default contains add_key pure raise read modify ◌>>=◌
    choose digit_count le eq add sub mul quotient_digits div max transition is_terminal evaluate
    set_mode note_status ensure_machine machine_status note_report hydrate_from hydrate start_kernel
    mark_prices_from reserve_intents reserved_cash available_authorized_cash position_quantity
    sell_quantity new_order derive_intent normalise_broker_state assess emit remember set_control
    enter_safe_mode transition_order record_report state_transition_failure append_reconciliation
    reconcile_order reconcile_execution_report call_submit settle_submission announce place trade
    carry_out handle_proposal buying_power new_simulated set_mark_price price_fill bought
    store_position settle_buy settle_sell_from settle_sell enter submit_fill submit_new submit
new_ids = (refl, (tt, (tt, (refl, tt))))

restart-run_example :
    let k = run settings (simulated_broker uuid4) commands first in
    start_kernel control k.broker k.ledger ≡ ok (record k { control = control })
restart-run_example =
    restart-run settings (simulated_broker uuid4) control control broker commands new_ids

-- The buy, a late report of its fill with a higher fee, a restart, and the exit: all is sold.
ran : (run settings (simulated_broker uuid4) commands first).broker.positions ≡ []
unfolding run step lookup has_key lookup_or insert erase set_default contains add_key pure raise
    read modify ◌>>=◌ choose digit_count round_half_even le eq add sub mul quotient_digits div max
    abs allowed_transitions status_in transition is_terminal is_fill buy_position is_stale evaluate
    set_mode note_intent note_status ensure_machine machine_status note_report note_broker_order
    hydrate_from hydrate start_kernel available_authorized_cash position_quantity sell_quantity
    new_order derive_intent normalise_broker_state assess emit remember set_control enter_safe_mode
    transition_order record_report state_transition_failure append_reconciliation reconcile_order
    reconcile_execution_report call_submit settle_submission announce place trade carry_out
    handle_proposal buying_power new_simulated set_mark_price price_fill bought store_position
    settle_buy settle_sell_from settle_sell enter submit_fill submit_new submit
ran = refl

abbrev repeated : List Command
repeated =
    propose "id" 2000 buy_two
    ∷ propose "id2" 2500 buy_two
    ∷ restart control
    ∷ propose "id3" 3000 buy_two
    ∷ propose "id4" 3500 exit_all
    ∷ []

abbrev first_watched : Kernel (List BrokerCall × Simulated)
first_watched = first_kernel settings (watched (simulated_broker uuid4)) control ([], broker)

repeated_ids : AreNewIds settings (watched (simulated_broker uuid4)) repeated first_watched
unfolding step lookup has_key lookup_or set_default contains add_key pure raise read modify ◌>>=◌
    choose digit_count le eq add sub mul quotient_digits div max transition is_terminal evaluate
    set_mode note_status ensure_machine machine_status note_report hydrate_from hydrate start_kernel
    mark_prices_from reserve_intents reserved_cash available_authorized_cash position_quantity
    sell_quantity new_order derive_intent normalise_broker_state assess emit remember set_control
    enter_safe_mode transition_order record_report state_transition_failure append_reconciliation
    reconcile_order reconcile_execution_report call_submit settle_submission announce place trade
    carry_out handle_proposal buying_power new_simulated set_mark_price price_fill bought
    store_position settle_buy settle_sell_from settle_sell enter submit_fill submit_new submit
repeated_ids = (refl, (refl, (tt, (refl, (refl, tt)))))

run-AreDistinct_example : AreDistinct (
    submitted_keys
      (run settings (watched (simulated_broker uuid4)) repeated first_watched).broker.0)
run-AreDistinct_example =
    run-AreDistinct settings (simulated_broker uuid4) control broker repeated repeated_ids

-- The purchase is proposed three times and sent once; the sale has a key of its own.
sends_two :
    submitted_keys (run settings (watched (simulated_broker uuid4)) repeated first_watched).broker.0
    ≡ exit_all.idempotency_key ∷ buy_two.idempotency_key ∷ []
unfolding submitted_keys run step lookup has_key lookup_or insert erase set_default contains add_key
    pure raise read modify ◌>>=◌ choose digit_count lt le eq add sub mul quotient_digits div max
    non_negative positive transition is_terminal is_fill buy_position evaluate set_mode
    transition_mode note_status ensure_machine machine_status hydrate start_kernel mark_prices_from
    reserve_intents reserved_cash available_authorized_cash position_quantity sell_quantity
    new_order derive_intent normalise_broker_state assess emit remember set_control enter_safe_mode
    transition_order record_report state_transition_failure append_reconciliation reconcile_order
    reconcile_execution_report call_submit settle_submission announce place trade carry_out
    handle_proposal buying_power new_simulated set_mark_price price_fill bought store_position
    settle_buy settle_sell_from settle_sell enter submit_fill submit_new submit
sends_two = refl

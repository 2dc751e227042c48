-- ===== src/Tests/Records.antt =====
-- Examples for the ledger and the control state. The hash of the examples names the event's number.
use Prim.Native.String.{◌++◌ as str_append}
use project_fifty.Prelude.{
  ℕ, String, ◌≡◌, refl, some, true, false, List, [], ◌∷◌, map, ◌==◌, if◌then◌else◌,
}
use project_fifty.Outcome.{ok}
use project_fifty.Domain.{ExperimentMode, dead}
use project_fifty.Control.{ControlState, ledger_backed, restored_mode}
use project_fifty.Control.Restore.{
  Call, method, function, restart, run, IsRestorable, run-IsRestorable, run-dead,
}
use project_fifty.Ledger.Events.{Event, broker_submission_attempt}
use project_fifty.Ledger.{
  LedgerEvent, Line, blank, entry, LocalLedger, load_existing_events, open_ledger,
}
use project_fifty.Ledger.Durable.{append_all, open_ledger-append_all}
use project_fifty.Ledger.Tamper.{content, load_unique}
use project_fifty.Tests.Data.{dead_event}

abbrev digest : ℕ → Event → ℕ → String → String
digest n body now prev = str_append prev (if n == 1 then "1" else "2")

abbrev first_event : String → LedgerEvent
first_event id = record {
  event_id = id;
  sequence = 1;
  body = dead_event;
  prev_hash = "GENESIS";
  event_hash = "GENESIS1";
  created_at = 5;
}

-- Two files with the same event under different event ids
abbrev file : List Line
file = blank ∷ entry (first_event "a") ∷ []

abbrev other_file : List Line
other_file = entry (first_event "b") ∷ blank ∷ []

loaded : load_existing_events digest file ≡ ok (first_event "a" ∷ [])
unfolding load_existing_events
loaded = refl

other_loaded : load_existing_events digest other_file ≡ ok (first_event "b" ∷ [])
unfolding load_existing_events
other_loaded = refl

load_unique_example : map content (first_event "a" ∷ []) ≡ map content (first_event "b" ∷ [])
load_unique_example =
    load_unique digest file other_file (first_event "a" ∷ []) (first_event "b" ∷ [])
      (λ _. (refl, refl, refl), tt) loaded other_loaded refl refl

abbrev ledger : LocalLedger
ledger = record { events = first_event "a" ∷ []; file = some file }

opened : open_ledger digest (some file) ≡ ok ledger
unfolding open_ledger
opened = refl

abbrev calls : List (String × ℕ × Event)
calls = ("b", 6, broker_submission_attempt "id") ∷ ("c", 7, dead_event) ∷ []

open_ledger-append_all_example :
    open_ledger digest (append_all digest calls ledger).file ≡ ok (append_all digest calls ledger)
open_ledger-append_all_example = open_ledger-append_all digest file ledger calls opened

abbrev backed : ExperimentMode → ControlState
backed mode = record { mode = mode; kill_switch_active = false; class = ledger_backed }

abbrev control_calls : List Call
control_calls =
    method ExperimentMode.safe true
    ∷ function ExperimentMode.dead false
    ∷ restart false
    ∷ method ExperimentMode.normal false
    ∷ []

run-IsRestorable_example :
    let (c, events) = run control_calls (backed ExperimentMode.normal) [] in IsRestorable c events
run-IsRestorable_example =
    run-IsRestorable control_calls (backed ExperimentMode.normal) []
      (refl, unfold restored_mode in refl)

run-dead_example : (run control_calls (backed dead) (dead_event ∷ [])).0.mode ≡ dead
run-dead_example =
    run-dead control_calls (backed dead) (dead_event ∷ []) (refl, unfold restored_mode in refl) refl

-- ===== src/Control.antt =====
-- src/project_fifty/control/state.py and persistence.py: the mode of the experiment and its
-- record in the ledger. A `ControlState` is plain or ledger-backed; the ledger that a backed one
-- writes to is passed in and out of the calls.
pub mod Restore
use project_fifty.Prelude.{◌≡◌, Bool, true, false, ◌&&◌, not, List, [], ◌∷◌, ◌++◌, if◌then◌else◌}
use project_fifty.Outcome.{Result, ok, err, value_error, raise_if, ◌>>=◌, ◌>>◌}
use project_fifty.Domain.{ExperimentMode, mode_eq, normal, dead}
use project_fifty.Ledger.Events.{Event, control_mode_changed}

-- Which class the object has: `ControlState` or `LedgerBackedControlState`.
pub data ControlClass : Type 0 where
  plain ledger_backed : ControlClass

pub record ControlState : Type 0 where
  pub mode : ExperimentMode
  pub kill_switch_active : Bool
  pub class : ControlClass

-- `ControlState.transition_mode`
unfoldable pub set_mode : ExperimentMode → ControlState → Result ControlState
unfolding mode_eq
set_mode next c = do
  raise_if (mode_eq c.mode dead && not (mode_eq next dead))
      (value_error "DEAD mode is terminal for this experiment")
  ok (record c { mode = next })

-- `LedgerBackedControlState.transition_mode`: the event is written before the mode changes.
unfoldable pub set_mode_backed :
    ExperimentMode → Bool → ControlState → List Event → Result ControlState × List Event
unfolding set_mode mode_eq
set_mode_backed next automatic c events =
    if mode_eq c.mode next
    then (ok c, events)
    else if mode_eq c.mode dead && not (mode_eq next dead)
    then (err (value_error "DEAD mode is terminal for this experiment"), events)
    else (set_mode next c, events ++ control_mode_changed c.mode next automatic ∷ [])

-- `control.transition_mode(next, automatic=...)` on an object of either class.
unfoldable pub transition_mode :
    ExperimentMode → Bool → ControlState → List Event → Result ControlState × List Event
unfolding set_mode set_mode_backed
transition_mode next automatic c events = elim c.class [
  | plain ↦ (set_mode next c, events)
  | ledger_backed ↦ set_mode_backed next automatic c events
]

-- `_restored_mode`, one event
unfoldable pub restore_event : ExperimentMode → Event → ExperimentMode
restore_event mode (control_mode_changed from to automatic) = to
restore_event mode _ = mode

unfoldable pub restored_from : ExperimentMode → List Event → ExperimentMode
unfolding restore_event
restored_from mode [] = mode
restored_from mode (e ∷ events) = restored_from (restore_event mode e) events

-- `_restored_mode`
unfoldable pub restored_mode : List Event → ExperimentMode
unfolding restored_from
restored_mode = restored_from normal

-- `LedgerBackedControlState.restore`, and `restore_control_state` for the plain class
unfoldable pub restore : ControlClass → Bool → List Event → ControlState
unfolding restored_mode
restore class kill_switch events = record {
  mode = restored_mode events;
  kill_switch_active = kill_switch;
  class = class;
}

-- `transition_control_state`: the event is written whatever the class, and the mode set without
-- a second event.
unfoldable pub transition_control_state :
    ExperimentMode → Bool → ControlState → List Event → Result ControlState × List Event
unfolding set_mode mode_eq
transition_control_state next automatic c events =
    if mode_eq c.mode next
    then (ok c, events)
    else if mode_eq c.mode dead && not (mode_eq next dead)
    then (err (value_error "DEAD mode is terminal for this experiment"), events)
    else (set_mode next c, events ++ control_mode_changed c.mode next automatic ∷ [])

-- `persist_control_transition`, for callers that have changed the mode already.
unfoldable pub persist_control_transition : ExperimentMode → ControlState → List Event → List Event
unfolding mode_eq
persist_control_transition previous c events =
    if mode_eq previous c.mode
    then events
    else events ++ control_mode_changed previous c.mode true ∷ []

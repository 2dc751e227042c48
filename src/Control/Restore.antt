-- ===== src/Control/Restore.antt =====
-- A restart finds the mode that the running process had, and DEAD is for ever.
use project_fifty.Prelude.{◌≡◌, refl, Bool, List, [], ◌∷◌, ◌++◌, arith}
use project_fifty.Outcome.{Result, ok, err}
use project_fifty.Domain.{ExperimentMode, dead}
use project_fifty.Ledger.Events.{Event, control_mode_changed}
use project_fifty.Control.{
  ControlState, ledger_backed, transition_mode, restore_event, restored_from, restored_mode,
  restore, transition_control_state,
}

restored_from-snoc :
    (mode : ExperimentMode) (events : List Event) (e : Event)
    → restored_from mode (events ++ e ∷ []) ≡ restore_event (restored_from mode events) e
unfolding restored_from
restored_from-snoc mode [] e = refl
restored_from-snoc mode (x ∷ events) e = restored_from-snoc (restore_event mode x) events e

pub restored_mode-snoc :
    (events : List Event) (e : Event)
    → restored_mode (events ++ e ∷ []) ≡ restore_event (restored_mode events) e
unfolding restored_mode
restored_mode-snoc events e = restored_from-snoc ExperimentMode.normal events e

-- The state that a call leaves: a raise leaves the object as it was.
abbrev pub after : ControlState → Result ControlState → ControlState
after c (ok c') = c'
after c (err _) = c

abbrev pub IsRestorable : ControlState → List Event → Type 0
IsRestorable c events = (c.class ≡ ledger_backed) × (restored_mode events ≡ c.mode)

transition_mode-IsRestorable :
    (next : ExperimentMode) (automatic : Bool) (c : ControlState) (events : List Event)
    → IsRestorable c events
    → let (r, events') = transition_mode next automatic c events in IsRestorable (after c r) events'
unfolding transition_mode restore_event
transition_mode-IsRestorable next automatic c events h =
    ground (arith, restored_mode-snoc events (control_mode_changed c.mode next automatic))

transition_control_state-IsRestorable :
    (next : ExperimentMode) (automatic : Bool) (c : ControlState) (events : List Event)
    → IsRestorable c events
    → let (r, events') = transition_control_state next automatic c events in
      IsRestorable (after c r) events'
unfolding transition_control_state restore_event
transition_control_state-IsRestorable next automatic c events h =
    ground (arith, restored_mode-snoc events (control_mode_changed c.mode next automatic))

-- What may happen to a ledger-backed control state: its method, the function that takes a reason,
-- or a restart of the process, which finds nothing but the ledger.
pub data Call : Type 0 where
  method function : ExperimentMode → Bool → Call
  restart : Bool → Call

pub call : Call → ControlState → List Event → ControlState × List Event
call (method next automatic) c events =
    let (r, events') = transition_mode next automatic c events in (after c r, events')
call (function next automatic) c events =
    let (r, events') = transition_control_state next automatic c events in (after c r, events')
call (restart kill_switch) c events = (restore ledger_backed kill_switch events, events)

pub run : List Call → ControlState → List Event → ControlState × List Event
run [] c events = (c, events)
run (x ∷ calls) c events = let (c', events') = call x c events in run calls c' events'

call-IsRestorable :
    (x : Call) (c : ControlState) (events : List Event)
    → IsRestorable c events
    → let (c', events') = call x c events in IsRestorable c' events'
unfolding call
call-IsRestorable (method next automatic) c events h =
    transition_mode-IsRestorable next automatic c events h
call-IsRestorable (function next automatic) c events h =
    transition_control_state-IsRestorable next automatic c events h
call-IsRestorable (restart kill_switch) c events h = unfold restore in (refl, refl)

-- A ledger-backed control state whose mode is the one on record keeps it on record: after any
-- transitions, granted or refused, and any restarts, the mode read back from the ledger is the
-- mode of the object.
pub run-IsRestorable :
    (calls : List Call) (c : ControlState) (events : List Event)
    → IsRestorable c events
    → let (c', events') = run calls c events in IsRestorable c' events'
unfolding run
run-IsRestorable [] c events h = h
run-IsRestorable (x ∷ calls) c events h =
    let (c', events') = call x c events in
    run-IsRestorable calls c' events' (call-IsRestorable x c events h)

call-dead :
    (x : Call) (c : ControlState) (events : List Event)
    → IsRestorable c events
    → c.mode ≡ dead
    → (call x c events).0.mode ≡ dead
unfolding call transition_mode transition_control_state restore
call-dead (method next automatic) c events h e = ground arith
call-dead (function next automatic) c events h e = ground arith
call-dead (restart kill_switch) c events h e = ground arith

-- DEAD is terminal: once a ledger-backed control state is DEAD and that is on record, no
-- transition and no restart brings back another mode.
pub run-dead :
    (calls : List Call) (c : ControlState) (events : List Event)
    → IsRestorable c events
    → c.mode ≡ dead
    → (run calls c events).0.mode ≡ dead
unfolding run
run-dead [] c events h e = e
run-dead (x ∷ calls) c events h e =
    let (c', events') = call x c events in
    run-dead calls c' events' (call-IsRestorable x c events h) (call-dead x c events h e)

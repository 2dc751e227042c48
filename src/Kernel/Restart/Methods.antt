-- ===== src/Kernel/Restart/Methods.antt =====
-- Each method of the kernel keeps the fields and the ledger in step, whether it returns or raises.
use project_fifty.Prelude.{◌≡◌, refl, inl, inr, Bool, false, arith, List, Bool-cases}
use project_fifty.Outcome.{Error, Result, ok, err}
use project_fifty.Outcome.Action.{Action, ◌>>=◌, choose, read, pure, raise}
use project_fifty.Outcome.Hoare.{
  Triple, Ends, Triple-bind, Triple-pure, Triple-raise, Triple-read, Triple-choose,
}
use project_fifty.Domain.{ExperimentMode, mode_eq}
use project_fifty.Settings.{Settings}
use project_fifty.Control.{ControlState, transition_mode}
use project_fifty.Ledger.Events.{Event}
use project_fifty.Kernel.State.{Memory, Kernel, hydrate, hydrate_event}
use project_fifty.Kernel.Handle.{
  emit, set_control, enter_safe_mode, state_transition_failure, append_reconciliation,
}
use project_fifty.Kernel.Restart.Events.{
  hydrate-snoc, Frame, IsSynced, anything, IsSynced-weaken, emit-IsPending, same,
}

-- A method that keeps the frame when it returns, and the step in any case
abbrev pub Keeps : {S A : Type 0} → Frame → Action (Kernel S) A → Type 0
Keeps F m = Triple (IsSynced F) m (λ _. IsSynced F) (IsSynced anything)

-- A change of mode writes at most an event that hydration passes over.
transition_mode-hydrated :
    (m : Memory) (c : ControlState) (events : List Event)
    → hydrate events ≡ ok m
    → hydrate (transition_mode ExperimentMode.safe false c events).1 ≡ ok m
unfolding transition_mode hydrate_event
transition_mode-hydrated m c events h =
    ground
      (arith, hydrate-snoc events m (Event.control_mode_changed c.mode ExperimentMode.safe false) h)

module _ {S : Type 0} {F : Frame} where
  -- Events that hydration passes over
  pub emit_passive :
      (e : Event) → ((m : Memory) → hydrate_event m e ≡ ok m) → Keeps {S = S} F (emit e)
  emit_passive e passive = emit-IsPending e same passive

  pub Keeps-bind :
      {A B : Type 0} (m : Action (Kernel S) A) (f : A → Action (Kernel S) B)
      → Keeps F m
      → ((a : A) → Keeps F (f a))
      → Keeps F (m >>= f)
  Keeps-bind m f first rest = Triple-bind m f (λ _. IsSynced F) first rest

  pub Keeps-pure : {A : Type 0} (a : A) → Keeps {S = S} F (pure a)
  Keeps-pure a = Triple-pure a (λ k h. h)

  pub Keeps-raise : {A : Type 0} (e : Error) → Keeps {S = S} {A = A} F (raise e)
  Keeps-raise e = Triple-raise e IsSynced-weaken

  pub Keeps-read : {A : Type 0} (f : Kernel S → Result A) → Keeps F (read f)
  Keeps-read f = Triple-read f (λ k a e h. h) IsSynced-weaken

  pub Keeps-choose :
      {A : Type 0} (b : Bool) (m n : Action (Kernel S) A)
      → Keeps F m
      → Keeps F n
      → Keeps F (choose b m n)
  Keeps-choose b m n h h' = Triple-choose b m n (λ _. h) (λ _. h')

  set_control-IsSynced :
      (k : Kernel S) (r : Result ControlState) (events : List Event)
      → hydrate events ≡ ok k.memory
      → IsSynced F k
      → Ends (λ (_ : Unit {0}). IsSynced F) (IsSynced anything) (set_control (r, events) k)
  unfolding set_control
  set_control-IsSynced k (ok c) events e h = record {
    hydrated = e;
    linked = h.linked;
    frame = h.frame;
  }
  set_control-IsSynced k (err x) events e h = record { hydrated = e; linked = h.linked; frame = tt }

  pub enter_safe_mode-Keeps : Keeps {S = S} F enter_safe_mode
  unfolding enter_safe_mode
  enter_safe_mode-Keeps = record {
    at = λ k h. elim (Bool-cases (mode_eq k.control.mode ExperimentMode.dead)) [
      | inl dead ↦ rw dead h
      | inr alive ↦
          let (r, events) = transition_mode ExperimentMode.safe false k.control k.ledger in
          rw alive (
            set_control-IsSynced k r events
              (transition_mode-hydrated k.memory k.control k.ledger h.hydrated) h)
    ];
  }

  pub state_transition_failure-Keeps : Keeps {S = S} F state_transition_failure
  unfolding state_transition_failure hydrate_event
  state_transition_failure-Keeps =
      Keeps-bind _ _ enter_safe_mode-Keeps
        λ _. Keeps-bind _ _ (emit_passive _ (λ m. refl)) λ _. Keeps-pure _

  pub append_reconciliation-Keeps : (s : Settings) → Keeps {S = S} F (append_reconciliation s)
  unfolding append_reconciliation hydrate_event
  append_reconciliation-Keeps s = Keeps-bind _ _ (Keeps-read _) λ authorized.
      Keeps-bind _ _ (emit_passive _ (λ m. refl)) λ _. Keeps-bind _ _ (Keeps-read _) λ reserved.
        Keeps-bind _ _ (Keeps-read _)
          λ available. Keeps-bind _ _ (emit_passive _ (λ m. refl)) λ _. Keeps-pure _

-- ===== src/Kernel/Restart/Events.antt =====
-- Hydration, one event at a time, and the updates that keep the fields and the ledger in step.
use project_fifty.Prelude.{
  String, ◌≡◌, refl, ap, ◌∙◌, inl, inr, Bool, true, false, ◌||◌, contains, Bool-cases, some, List,
  [], ◌∷◌, ◌++◌,
}
use project_fifty.Prelude.Dict.{Dict, lookup, has_key}
use project_fifty.Outcome.{Result, ok, err, ◌>>=◌}
use project_fifty.Outcome.Hoare.{Triple}
use project_fifty.Domain.{OrderStatus, ExecutionReport}
use project_fifty.Ledger.Events.{Event}
use project_fifty.Kernel.State.{
  Memory, Kernel, hydrate, hydrate_from, hydrate_event, hydrate_report, know_key, note_report,
  note_broker_order,
}
use project_fifty.Kernel.Handle.{emit, remember, record_report}

hydrate_from-snoc :
    (m : Memory) (events : List Event) (e : Event)
    → hydrate_from m (events ++ e ∷ []) ≡ (hydrate_from m events >>= λ m'. hydrate_event m' e)
unfolding hydrate_from
hydrate_from-snoc m [] e = after (hydrate_event m e)
  where
    after : (r : Result Memory) → (r >>= λ m'. ok m') ≡ r
    after (ok m') = refl
    after (err x) = refl
hydrate_from-snoc m (x ∷ events) e = after (hydrate_event m x) (λ m'. hydrate_from-snoc m' events e)
  where
    after :
        (r : Result Memory)
        → ((m' : Memory)
            → hydrate_from m' (events ++ e ∷ [])
              ≡ (hydrate_from m' events >>= λ n. hydrate_event n e))
        → (r >>= λ m'. hydrate_from m' (events ++ e ∷ []))
          ≡ ((r >>= λ m'. hydrate_from m' events) >>= λ n. hydrate_event n e)
    after (ok m') ih = ih m'
    after (err x) ih = refl

-- One more event is one more update.
pub hydrate-snoc :
    (events : List Event) (m : Memory) (e : Event)
    → hydrate events ≡ ok m
    → hydrate (events ++ e ∷ []) ≡ hydrate_event m e
unfolding hydrate
hydrate-snoc events m e h = rw (hydrate_from-snoc _ events e, h)

-- Every order id on record, but for the given one, has a machine.
abbrev pub IsLinkedBut : (String → Bool) → Memory → Type 0
IsLinkedBut but m =
    (key id : String)
    → lookup key m.intent_id_by_key ≡ some id
    → (but id || has_key id m.state_by_order) ≡ true

abbrev pub nobody : String → Bool
nobody _ = false

abbrev pub Frame : Type 1
Frame = Dict OrderStatus → Type 0

-- Hydrating the ledger gives the fields, once the update `f` that is still to come is made.
pub record IsPending {S : Type 0} (f : Memory → Memory) (F : Frame) (k : Kernel S) : Type 0 where
  pub hydrated : hydrate k.ledger ≡ ok (f k.memory)
  pub linked : IsLinkedBut nobody k.memory
  pub frame : F k.memory.state_by_order

abbrev pub same : Memory → Memory
same m = m

-- Nothing is to come: hydrating the ledger gives exactly the fields.
abbrev pub IsSynced : {S : Type 0} → Frame → Kernel S → Type 0
IsSynced F = IsPending same F

abbrev pub anything : Frame
anything _ = Unit {0}

-- An update that leaves the orders' states and ids alone
abbrev pub IsApart : (Memory → Memory) → Type 0
IsApart f =
    (m : Memory)
    → ((f m).state_by_order ≡ m.state_by_order) × ((f m).intent_id_by_key ≡ m.intent_id_by_key)

hydrate_report-new :
    (r : ExecutionReport) (m : Memory)
    → contains r.report_id m.report_ids ≡ false
    → hydrate_report r m ≡ note_broker_order r (know_key r.idempotency_key (note_report r m))
unfolding hydrate_report know_key note_report
hydrate_report-new r m h = rw h

record_report-IsApart :
    (r : ExecutionReport)
    → IsApart (λ m. note_broker_order r (know_key r.idempotency_key (note_report r m)))
unfolding note_broker_order know_key note_report
record_report-IsApart r m = elim (Bool-cases (has_key r.idempotency_key m.intents_by_key)) [
  | inl known ↦ rw known (refl, refl)
  | inr unknown ↦ rw unknown (refl, refl)
]

module _ {S : Type 0} {F : Frame} where
  pub IsSynced-weaken : (k : Kernel S) → IsSynced F k → IsSynced anything k
  IsSynced-weaken k h = record { hydrated = h.hydrated; linked = h.linked; frame = tt }

  -- An event is written, and the update that hydration makes for it is to come.
  pub emit-IsPending :
      (e : Event) (f : Memory → Memory)
      → ((m : Memory) → hydrate_event m e ≡ ok (f m))
      → Triple {S = Kernel S} (IsSynced F) (emit e) (λ _. IsPending f F) (IsSynced anything)
  unfolding emit
  emit-IsPending e f update = record {
    at = λ k h. record {
      hydrated = hydrate-snoc k.ledger k.memory e h.hydrated ∙ update k.memory;
      linked = h.linked;
      frame = h.frame;
    };
  }

  pub remember-IsSynced :
      (f : Memory → Memory)
      → IsApart f
      → Triple {S = Kernel S} (IsPending f F) (remember f) (λ _. IsSynced F) (IsSynced anything)
  unfolding remember
  remember-IsSynced f apart = record {
    at = λ k h. record {
      hydrated = h.hydrated;
      linked = λ key id e. rw (apart k.memory).0 (h.linked key id (rw (apart k.memory).1 at e));
      frame = rw (apart k.memory).0 h.frame;
    };
  }

  pub record_report-IsSynced :
      (r : ExecutionReport)
      → Triple {S = Kernel S} (IsSynced F) (record_report r) (λ _. IsSynced F) (IsSynced anything)
  unfolding hydrate_event record_report
  record_report-IsSynced r = record {
    at = λ k h. elim (Bool-cases (contains r.report_id k.memory.report_ids)) [
      | inl old ↦ rw (old, record_report) h
      | inr new ↦
          rw (new, record_report)
            (record {
              hydrated =
                  hydrate-snoc k.ledger k.memory (Event.broker_execution_report r) h.hydrated
                  ∙ ap ok (hydrate_report-new r k.memory new);
              linked = λ key id e.
                  rw (record_report-IsApart r k.memory).0
                    (h.linked key id (rw (record_report-IsApart r k.memory).1 at e));
              frame = rw (record_report-IsApart r k.memory).0 h.frame;
            })
    ];
  }

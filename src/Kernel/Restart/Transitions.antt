-- ===== src/Kernel/Restart/Transitions.antt =====
-- The moves of an order's state machine, in the fields and in the ledger at once.
use project_fifty.Prelude.{
  String, ◌≡◌, refl, ap, sym, ◌∙◌, inl, inr, Bool, true, false, arith, Bool-cases, [], ◌∷◌, ◌++◌,
  str_eq, eq_iff, eq_refl,
}
use project_fifty.Prelude.Dict.{
  Dict, has_key, lookup-insert, has_key-insert, has_key-set_default, set_default-has_key,
  lookup_or-set_default,
}
use project_fifty.Outcome.{Result, ok, err}
use project_fifty.Outcome.Action.{◌>>=◌}
use project_fifty.Outcome.Hoare.{Triple, Ends}
use project_fifty.Domain.{OrderIntent, OrderStatus, created, status_eq, status_eq_iff}
use project_fifty.StateMachine.{transition}
use project_fifty.Ledger.Events.{Event}
use project_fifty.Settings.{Settings}
use project_fifty.Broker.{BrokerAdapter}
use project_fifty.Kernel.State.{
  Memory, Kernel, hydrate, hydrate_event, hydrate_transition, note_intent, note_status,
  ensure_machine, machine_status,
}
use project_fifty.Kernel.Handle.{emit, remember, announce, transition_order, moved}
use project_fifty.Kernel.Restart.Events.{
  hydrate-snoc, IsLinkedBut, nobody, Frame, IsSynced, anything,
}

-- The order has a machine, or has none.
abbrev pub Has : String → Frame
Has id states = has_key id states ≡ true

abbrev pub Lacks : String → Frame
Lacks id states = has_key id states ≡ false

-- The order may lack a machine in the fields, and has the one to come in the ledger.
pub record IsReady {S : Type 0} (id : String) (k : Kernel S) : Type 0 where
  pub hydrated : hydrate k.ledger ≡ ok (ensure_machine id k.memory)
  pub linked : IsLinkedBut (str_eq id) k.memory

ensure_machine-Has : (id : String) (m : Memory) → Has id m.state_by_order → ensure_machine id m ≡ m
unfolding ensure_machine
ensure_machine-Has id m h =
    ap (λ (d : Dict OrderStatus). record m { state_by_order = d })
      (set_default-has_key id created m.state_by_order h)

Has-IsReady : {S : Type 0} (id : String) (k : Kernel S) → IsSynced (Has id) k → IsReady id k
Has-IsReady id k h = record {
  hydrated = h.hydrated ∙ ap ok (sym (ensure_machine-Has id k.memory h.frame));
  linked = λ key other e. rw (h.linked key other e) (ground arith);
}

-- Once the order has its machine, every order id on record has one.
ensured-linked :
    (id : String) (m : Memory)
    → IsLinkedBut (str_eq id) m
    → IsLinkedBut nobody (ensure_machine id m)
unfolding ensure_machine
ensured-linked id m linked key other e =
    rw (has_key-set_default id other created m.state_by_order) (linked key other e)

ensured-Has : (id : String) (m : Memory) → Has id (ensure_machine id m).state_by_order
unfolding ensure_machine
ensured-Has id m = rw (has_key-set_default id id created m.state_by_order, eq_refl id) refl

noted-linked :
    (id : String) (next : OrderStatus) (m : Memory)
    → IsLinkedBut nobody m
    → IsLinkedBut nobody (note_status id next m)
unfolding note_status
noted-linked id next m linked key other e =
    rw (has_key-insert id other next m.state_by_order, linked key other e) (ground arith)

noted-Has :
    (id : String) (next : OrderStatus) (m : Memory) → Has id (note_status id next m).state_by_order
unfolding note_status
noted-Has id next m = rw (has_key-insert id id next m.state_by_order, eq_refl id) refl

-- Hydration makes the same move on the same fields.
hydrate_transition-moved :
    (id : String) (to next : OrderStatus) (m : Memory)
    → Has id m.state_by_order
    → status_eq (machine_status id m) to ≡ false
    → transition (machine_status id m) to ≡ ok next
    → hydrate_transition id to m ≡ ok (note_status id next m)
unfolding hydrate_transition
hydrate_transition-moved id to next m has differs allowed =
    rw (ensure_machine-Has id m has, differs, allowed) refl

module _ {S : Type 0} (id : String) (to : OrderStatus) where
  moved-IsSynced :
      (k : Kernel S) (r : Result OrderStatus)
      → IsSynced (Has id) k
      → status_eq (machine_status id k.memory) to ≡ false
      → transition (machine_status id k.memory) to ≡ r
      → Ends
          (λ (_ : Bool). IsSynced (Has id))
          (IsSynced anything)
          (moved id (machine_status id k.memory) to r k)
  unfolding hydrate_event
  moved-IsSynced k (ok next) h differs allowed = record {
    hydrated =
        hydrate-snoc k.ledger k.memory
          (Event.order_state_transition id (machine_status id k.memory) to) h.hydrated
        ∙ hydrate_transition-moved id to next k.memory h.frame differs allowed;
    linked = noted-linked id next k.memory h.linked;
    frame = noted-Has id next k.memory;
  }
  moved-IsSynced k (err x) h differs allowed = h

  ensured-IsSynced :
      (k : Kernel S)
      → IsReady id k
      → IsSynced (Has id) (record k { memory = ensure_machine id k.memory })
  ensured-IsSynced k h = record {
    hydrated = h.hydrated;
    linked = ensured-linked id k.memory h.linked;
    frame = ensured-Has id k.memory;
  }

  -- A move, made or refused, of an order that is ready for it keeps the fields and the ledger in step.
  pub transition_order-IsReady :
      Triple {S = Kernel S}
        (IsReady id)
        (transition_order id to)
        (λ _. IsSynced (Has id))
        (IsSynced anything)
  unfolding transition_order
  transition_order-IsReady = record {
    at = λ k h.
        let k' : Kernel S = record k { memory = ensure_machine id k.memory } in
        elim (Bool-cases (status_eq (machine_status id k'.memory) to)) [
          | inl there ↦ rw there (ensured-IsSynced k h)
          | inr away ↦ rw away (
              moved-IsSynced k' (transition (machine_status id k'.memory) to) (ensured-IsSynced k h)
                away refl)
        ];
  }

  pub transition_order-IsSynced :
      Triple {S = Kernel S}
        (IsSynced (Has id))
        (transition_order id to)
        (λ _. IsSynced (Has id))
        (IsSynced anything)
  transition_order-IsSynced = record {
    at = λ k h. transition_order-IsReady.at k (Has-IsReady id k h);
  }

announced-linked :
    (i : OrderIntent) (m : Memory)
    → IsLinkedBut nobody m
    → IsLinkedBut (str_eq i.intent_id) (note_intent i m)
unfolding note_intent
announced-linked i m linked key id e = ground (
  arith,
  lookup-insert i.idempotency_key key i.intent_id m.intent_id_by_key,
  linked key id,
  eq_iff i.intent_id id,
)

machine_status-ensured :
    (id : String) (m : Memory)
    → Lacks id m.state_by_order
    → machine_status id (ensure_machine id m) ≡ created
unfolding machine_status ensure_machine
machine_status-ensured id m lacks = lookup_or-set_default id created m.state_by_order lacks

-- The event of a new order gives it its machine.
hydrate_transition-created :
    (id : String) (m : Memory)
    → Lacks id m.state_by_order
    → hydrate_transition id created m ≡ ok (ensure_machine id m)
unfolding hydrate_transition
hydrate_transition-created id m lacks =
    rw (machine_status-ensured id m lacks, (status_eq_iff created created).1 refl) refl

-- A new order, under an id that has no machine, is ready for its first move.
pub announce-IsReady :
    (B : BrokerAdapter) (s : Settings) (i : OrderIntent)
    → Triple {S = Kernel B.State}
        (IsSynced (Lacks i.intent_id))
        (announce s B i)
        (λ _. IsReady i.intent_id)
        (IsSynced anything)
unfolding announce emit remember note_intent ◌>>=◌ hydrate_event
announce-IsReady B s i = record {
  at = λ k h. record {
    hydrated =
        hydrate-snoc (k.ledger ++ Event.order_intent_created i ∷ []) (note_intent i k.memory)
          (Event.order_state_transition i.intent_id created created)
          (hydrate-snoc k.ledger k.memory (Event.order_intent_created i) h.hydrated)
        ∙ hydrate_transition-created i.intent_id (note_intent i k.memory) h.frame;
    linked = announced-linked i k.memory h.linked;
  };
}

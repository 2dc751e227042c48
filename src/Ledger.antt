-- ===== src/Ledger.antt =====
-- src/project_fifty/ledger/local.py, behind the protocol of ledger/base.py: the append-only,
-- hash-chained list of events and its file. The hash (sha256 of the canonical JSON text) is a
-- parameter. A line of the file is blank, an event, or text that JSON or the model refuses.
pub mod Events
pub mod Chain
pub mod Durable
pub mod Tamper
use project_fifty.Prelude.{
  ℕ, suc, ◌+◌, String, Bool, true, false, not, ◌==◌, str_eq, Option, none, some, List, [], ◌∷◌,
  ◌++◌,
}
use project_fifty.Outcome.{Result, ok, err, value_error, raise_if, ◌>>=◌, ◌>>◌}
use Events.{Event}

pub record LedgerEvent : Type 0 where
  pub event_id : String
  pub sequence : ℕ
  pub body : Event
  pub prev_hash : String
  pub event_hash : String
  pub created_at : ℕ

pub data Line : Type 0 where
  blank malformed : Line
  entry : LedgerEvent → Line

abbrev pub genesis_hash : String
genesis_hash = "GENESIS"

-- `LocalAppendOnlyLedger`; a ledger made without a path has no file.
pub record LocalLedger : Type 0 where
  pub events : List LedgerEvent
  pub file : Option (List Line)

abbrev pub length : List LedgerEvent → ℕ
length [] = 0
length (_ ∷ es) = suc (length es)

-- `self._events[-1].event_hash if self._events else _GENESIS_HASH`
abbrev pub last_hash : String → List LedgerEvent → String
last_hash prev [] = prev
last_hash prev (e ∷ es) = last_hash e.event_hash es

abbrev write_line : LedgerEvent → Option (List Line) → Option (List Line)
write_line e none = none
write_line e (some lines) = some (lines ++ entry e ∷ [])

-- `sequence`, event type and payload, `created_at`, `prev_hash`
module _ (hash : ℕ → Event → ℕ → String → String) where
  -- The checks on one line's event, with the sequence and hash that are expected.
  unfoldable pub check_event : ℕ → String → LedgerEvent → Result (Unit {0})
  check_event expected prev e = do
    raise_if (not (e.sequence == expected)) (value_error "ledger sequence is non-monotonic")
    raise_if (not (str_eq e.prev_hash prev)) (value_error "ledger hash chain is invalid")
    raise_if (not (str_eq e.event_hash (hash e.sequence e.body e.created_at e.prev_hash)))
        (value_error "ledger event hash mismatch")

  -- The loop of `_load_existing_events`
  unfoldable pub load_from : ℕ → String → List Line → Result (List LedgerEvent)
  unfolding check_event
  load_from expected prev [] = ok []
  load_from expected prev (blank ∷ lines) = load_from expected prev lines
  load_from expected prev (malformed ∷ lines) = err (value_error "invalid ledger line")
  load_from expected prev (entry e ∷ lines) =
      let rest = load_from (expected + 1) e.event_hash lines in
      do check_event expected prev e; events ← rest; ok (e ∷ events)

  -- `_load_existing_events`
  unfoldable pub load_existing_events : List Line → Result (List LedgerEvent)
  unfolding load_from
  load_existing_events = load_from 1 genesis_hash

  -- `LocalAppendOnlyLedger(path)` over the lines of the file, an empty one if there was none
  unfoldable pub open_ledger : Option (List Line) → Result LocalLedger
  unfolding load_existing_events
  open_ledger none = ok (record { events = []; file = none })
  open_ledger (some lines) = do
    events ← load_existing_events lines
    ok (record { events = events; file = some lines })

  -- The event that `append` makes, with the uuid and the clock's time.
  unfoldable pub next_event : String → ℕ → Event → LocalLedger → LedgerEvent
  next_event event_id now body l = record {
    event_id = event_id;
    sequence = length l.events + 1;
    body = body;
    prev_hash = last_hash genesis_hash l.events;
    event_hash = hash (length l.events + 1) body now (last_hash genesis_hash l.events);
    created_at = now;
  }

  unfoldable pub append : String → ℕ → Event → LocalLedger → LocalLedger
  unfolding next_event
  append event_id now body l =
      let e = next_event event_id now body l in
      record { events = l.events ++ e ∷ []; file = write_line e l.file }

-- ===== src/Ledger/Durable.antt =====
-- The ledger and its file: a restart finds the events that the running object had.
use project_fifty.Prelude.{
  ℕ, ◌+◌, String, ◌≡◌, refl, arith, some, List, [], ◌∷◌, ◌++◌, ap, add_comm,
}
use project_fifty.Outcome.{ok, >>=-eq-ok}
use project_fifty.Ledger.Events.{Event}
use project_fifty.Ledger.{
  Line, entry, genesis_hash, LocalLedger, length, last_hash, load_existing_events, open_ledger,
  next_event, append,
}
use project_fifty.Ledger.Chain.{check_event_complete, load_from-snoc}

module _ (hash : ℕ → Event → ℕ → String → String) where
  -- The object has a file, and a new object over that file would hold the same events.
  abbrev pub IsDurable : LocalLedger → Type 0
  IsDurable l =
      (lines : List Line) × (l.file ≡ some lines) × (load_existing_events hash lines ≡ ok l.events)

  pub open_ledger-IsDurable : (l : LocalLedger) → IsDurable l → open_ledger hash l.file ≡ ok l
  unfolding open_ledger
  open_ledger-IsDurable l (lines, has_file, loads) = rw (has_file, loads) (ground arith)

  pub append-IsDurable :
      (event_id : String) (now : ℕ) (body : Event) (l : LocalLedger)
      → IsDurable l
      → IsDurable (append hash event_id now body l)
  unfolding append load_existing_events
  append-IsDurable event_id now body l (lines, has_file, loads) =
      let e = next_event hash event_id now body l in
      let hashed =
        ap (λ (n : ℕ). hash n body now (last_hash genesis_hash l.events))
          (add_comm (length l.events) 1) in
      let checked =
        check_event_complete hash (1 + length l.events) (last_hash genesis_hash l.events) e
          (omega arith) refl hashed in
      (
        lines ++ entry e ∷ [],
        ground arith,
        load_from-snoc hash 1 genesis_hash lines l.events e loads checked,
      )

  -- Calls of `append`: uuid, time and event of each.
  pub append_all : List (String × ℕ × Event) → LocalLedger → LocalLedger
  append_all [] l = l
  append_all ((event_id, now, body) ∷ calls) l = append_all calls (append hash event_id now body l)

  append_all-IsDurable :
      (calls : List (String × ℕ × Event)) (l : LocalLedger)
      → IsDurable l
      → IsDurable (append_all calls l)
  unfolding append_all
  append_all-IsDurable [] l h = h
  append_all-IsDurable ((event_id, now, body) ∷ calls) l h =
      append_all-IsDurable calls (append hash event_id now body l)
        (append-IsDurable event_id now body l h)

  open_ledger-starts :
      (lines : List Line) (l : LocalLedger) → open_ledger hash (some lines) ≡ ok l → IsDurable l
  unfolding open_ledger
  open_ledger-starts lines l h =
      let (events, loads, opened) = >>=-eq-ok (load_existing_events hash lines) _ h in
      (lines, cc, rw loads (cc))

  -- A ledger opened on a file, after any appends, is the ledger that a new process opens on the
  -- file as it then stands: every check of the loader passes, and the events are the same.
  pub open_ledger-append_all :
      (lines : List Line) (l : LocalLedger) (calls : List (String × ℕ × Event))
      → open_ledger hash (some lines) ≡ ok l
      → open_ledger hash (append_all calls l).file ≡ ok (append_all calls l)
  open_ledger-append_all lines l calls h =
      open_ledger-IsDurable (append_all calls l)
        (append_all-IsDurable calls l (open_ledger-starts lines l h))

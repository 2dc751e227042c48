-- ===== src/Ledger/Tamper.antt =====
-- What the hash chain protects, where the hash has no collision.
use project_fifty.Prelude.{ℕ, ◌+◌, String, ◌≡◌, refl, sym, ◌∙◌, arith, List, [], ◌∷◌, map}
use project_fifty.Outcome.{ok}
use project_fifty.Ledger.Events.{Event}
use project_fifty.Ledger.{LedgerEvent, Line, genesis_hash, length, last_hash, load_existing_events}
use project_fifty.Ledger.Chain.{IsChain, load_from-IsChain}

-- An event without its `event_id`.
abbrev pub Content : Type 0
Content = ℕ × Event × ℕ × String × String

abbrev pub content : LedgerEvent → Content
content e = (e.sequence, e.body, e.created_at, e.prev_hash, e.event_hash)

-- At no place do two lists of events have two different inputs of one hash.
abbrev pub AreCollisionFree :
    (ℕ → Event → ℕ → String → String) → List LedgerEvent → List LedgerEvent → Type 0
AreCollisionFree hash (x ∷ xs) (y ∷ ys) =
    (hash x.sequence x.body x.created_at x.prev_hash
        ≡ hash y.sequence y.body y.created_at y.prev_hash
      → (x.body ≡ y.body) × (x.created_at ≡ y.created_at) × (x.prev_hash ≡ y.prev_hash))
    × AreCollisionFree hash xs ys
AreCollisionFree hash _ _ = Unit {0}

module _ (hash : ℕ → Event → ℕ → String → String) where
  -- Two chains of one length that end in the same hash agree, also on what they start from.
  IsChain-unique :
      (n : ℕ) (p q : String) (xs ys : List LedgerEvent)
      → AreCollisionFree hash xs ys
      → IsChain hash n p xs
      → IsChain hash n q ys
      → length xs ≡ length ys
      → last_hash p xs ≡ last_hash q ys
      → (p ≡ q) × (map content xs ≡ map content ys)
  IsChain-unique n p q [] [] free h k e f = (f, refl)
  IsChain-unique n p q [] (y ∷ ys) free h k e f = absurd (omega arith)
  IsChain-unique n p q (x ∷ xs) [] free h k e f = absurd (omega arith)
  IsChain-unique n p q (x ∷ xs) (y ∷ ys) free (number, linked, hashed, rest)
        (number', linked', hashed', rest') e f =
      let (same_hash, tails) =
        IsChain-unique (n + 1) x.event_hash y.event_hash xs ys free.1 rest rest' (omega arith) f in
      let inputs : hash x.sequence x.body x.created_at x.prev_hash
          ≡ hash y.sequence y.body y.created_at y.prev_hash =
        rw (number, linked, number', linked') (sym hashed ∙ same_hash ∙ hashed') in
      let (bodies, times, links) = free.0 inputs in (sym linked ∙ links ∙ linked', cc)

  -- Tampering shows: two files that the loader accepts, with as many events and the same last hash,
  -- hold the same events in the same order, up to their event ids, if the hash has no collision
  -- between the two events of any one place.
  pub load_unique :
      (lines lines' : List Line) (xs ys : List LedgerEvent)
      → AreCollisionFree hash xs ys
      → load_existing_events hash lines ≡ ok xs
      → load_existing_events hash lines' ≡ ok ys
      → length xs ≡ length ys
      → last_hash genesis_hash xs ≡ last_hash genesis_hash ys
      → map content xs ≡ map content ys
  unfolding load_existing_events
  load_unique lines lines' xs ys free h k e f =
      (IsChain-unique 1 genesis_hash genesis_hash xs ys free
        (load_from-IsChain hash 1 genesis_hash lines xs h)
        (load_from-IsChain hash 1 genesis_hash lines' ys k) e f).1

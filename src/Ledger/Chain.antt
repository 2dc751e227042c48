-- ===== src/Ledger/Chain.antt =====
-- The hash chain: what is appended loads again, and an accepted file is fixed by its last hash.
use native.Mathlib.Nat.{add-zero}
use project_fifty.Prelude.{
  subst, sym, ◌≢◌, ℕ, suc, ◌+◌, String, ◌≡◌, refl, arith, eq_iff, List, [], ◌∷◌, ◌++◌,
}
use project_fifty.Outcome.{ok, >>=-eq-ok, >>-eq-ok}
use project_fifty.Ledger.Events.{Event}
use project_fifty.Ledger.{
  LedgerEvent, Line, blank, malformed, entry, length, last_hash, check_event, load_from,
}

regroup : (a n : ℕ) → a + 1 + n ≡ a + suc n
regroup a n = omega arith

module _ (hash : ℕ → Event → ℕ → String → String) where
  -- The chain as a predicate on the events, from a sequence number and a previous hash.
  abbrev pub IsChain : ℕ → String → List LedgerEvent → Type 0
  IsChain expected prev [] = Unit {0}
  IsChain expected prev (e ∷ es) =
      (e.sequence ≡ expected)
      × (e.prev_hash ≡ prev)
      × (e.event_hash ≡ hash expected e.body e.created_at prev)
      × IsChain (expected + 1) e.event_hash es

  check_event_sound :
      (expected : ℕ) (prev : String) (e : LedgerEvent)
      → check_event hash expected prev e ≡ ok tt
      → (e.sequence ≡ expected)
        × (e.prev_hash ≡ prev)
        × (e.event_hash ≡ hash expected e.body e.created_at prev)
  unfolding check_event
  check_event_sound expected prev e h = ground (
    arith,
    eq_iff e.prev_hash prev,
    eq_iff e.event_hash (hash e.sequence e.body e.created_at e.prev_hash),
  )

  pub check_event_complete :
      (expected : ℕ) (prev : String) (e : LedgerEvent)
      → e.sequence ≡ expected
      → e.prev_hash ≡ prev
      → e.event_hash ≡ hash expected e.body e.created_at prev
      → check_event hash expected prev e ≡ ok tt
  unfolding check_event
  check_event_complete expected prev e h k m = ground (
    arith,
    eq_iff e.prev_hash prev,
    eq_iff e.event_hash (hash e.sequence e.body e.created_at e.prev_hash),
  )

  -- A line that the loop accepts passed the checks, and heads the events that were read.
  load_from-entry :
      (expected : ℕ) (prev : String) (e : LedgerEvent) (lines : List Line) (es : List LedgerEvent)
      → load_from hash expected prev (entry e ∷ lines) ≡ ok es
      → (check_event hash expected prev e ≡ ok tt)
        × (rest : List LedgerEvent) × (load_from hash (expected + 1) e.event_hash lines ≡ ok rest)
        × (e ∷ rest ≡ es)
  unfolding load_from
  load_from-entry expected prev e lines es h =
      let (checked, h') = >>-eq-ok (check_event hash expected prev e) _ h in
      let (rest, read, same) = >>=-eq-ok (load_from hash (expected + 1) e.event_hash lines) _ h' in
      (checked, rest, read, cc)

  load_from-accepts :
      (expected : ℕ) (prev : String) (e : LedgerEvent) (lines : List Line) (rest : List LedgerEvent)
      → check_event hash expected prev e ≡ ok tt
      → load_from hash (expected + 1) e.event_hash lines ≡ ok rest
      → load_from hash expected prev (entry e ∷ lines) ≡ ok (e ∷ rest)
  unfolding load_from
  load_from-accepts expected prev e lines rest checked read = rw (checked, read)

  load_from-nil :
      (expected : ℕ) (prev : String) (es : List LedgerEvent)
      → load_from hash expected prev [] ≡ ok es
      → [] ≡ es
  unfolding load_from
  load_from-nil expected prev es h = cc

  load_from-blank :
      (expected : ℕ) (prev : String) (lines : List Line)
      → load_from hash expected prev (blank ∷ lines) ≡ load_from hash expected prev lines
  unfolding load_from
  load_from-blank expected prev lines = refl

  load_from-malformed :
      (expected : ℕ) (prev : String) (lines : List Line) (es : List LedgerEvent)
      → load_from hash expected prev (malformed ∷ lines) ≢ ok es
  unfolding load_from
  load_from-malformed expected prev lines es h = cc

  pub load_from-IsChain :
      (expected : ℕ) (prev : String) (lines : List Line) (es : List LedgerEvent)
      → load_from hash expected prev lines ≡ ok es
      → IsChain expected prev es
  load_from-IsChain expected prev [] es h =
      subst (IsChain expected prev) (load_from-nil expected prev es h) tt
  load_from-IsChain expected prev (blank ∷ lines) es h =
      load_from-IsChain expected prev lines es (rw (load_from-blank expected prev lines) at h)
  load_from-IsChain expected prev (malformed ∷ lines) es h =
      absurd (load_from-malformed expected prev lines es h)
  load_from-IsChain expected prev (entry e ∷ lines) es h =
      let (checked, rest, read, same) = load_from-entry expected prev e lines es h in
      let (number, linked, hashed) = check_event_sound expected prev e checked in
      let tail = load_from-IsChain (expected + 1) e.event_hash lines rest read in
      subst (IsChain expected prev) same (number, linked, hashed, tail)

  pub load_from-snoc :
      (expected : ℕ) (prev : String) (lines : List Line) (es : List LedgerEvent) (e : LedgerEvent)
      → load_from hash expected prev lines ≡ ok es
      → check_event hash (expected + length es) (last_hash prev es) e ≡ ok tt
      → load_from hash expected prev (lines ++ entry e ∷ []) ≡ ok (es ++ e ∷ [])
  load_from-snoc expected prev [] es e h c =
      let none_read = load_from-nil expected prev es h in
      let checked : check_event hash expected prev e ≡ ok tt = rw (← add-zero expected) (
        subst (λ x. check_event hash (expected + length x) (last_hash prev x) e ≡ ok tt)
          (sym none_read) c) in
      rw (← none_read) (load_from-accepts expected prev e [] [] checked (unfold load_from in refl))
  load_from-snoc expected prev (blank ∷ lines) es e h c =
      rw (load_from-blank expected prev (lines ++ entry e ∷ []))
        (load_from-snoc expected prev lines es e (rw (load_from-blank expected prev lines) at h) c)
  load_from-snoc expected prev (malformed ∷ lines) es e h c =
      absurd (load_from-malformed expected prev lines es h)
  load_from-snoc expected prev (entry d ∷ lines) es e h c =
      let (checked, rest, read, same) = load_from-entry expected prev d lines es h in
      let c' =
        subst (λ x. check_event hash (expected + length x) (last_hash prev x) e ≡ ok tt) (sym same)
          c in
      rw (← same) (
        load_from-accepts expected prev d (lines ++ entry e ∷ []) (rest ++ e ∷ []) checked (
          load_from-snoc (expected + 1) d.event_hash lines rest e read
            (rw (regroup expected (length rest)) c')))

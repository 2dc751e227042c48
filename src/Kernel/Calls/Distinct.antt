-- ===== src/Kernel/Calls/Distinct.antt =====
-- No two orders that reach the broker have one idempotency key, whatever the history.
use project_fifty.Prelude.{
  add_key, Bool-cases, str_eq, eq_iff, ℕ, String, ◌≡◌, refl, sym, ◌∙◌, subst, inl, inr, true, false,
  contains, contains-add_key, List, [], ◌∷◌,
}
use project_fifty.Prelude.Sort.{All, All-weaken}
use project_fifty.Outcome.{Result, ok, err}
use project_fifty.Outcome.Hoare.{Ends, Triple-bind, Triple-pure, Triple-choose}
use project_fifty.Domain.{TradeProposal}
use project_fifty.Settings.{Settings}
use project_fifty.Broker.{BrokerAdapter}
use project_fifty.Control.{ControlState}
use project_fifty.Kernel.State.{Kernel, note_cost}
use project_fifty.Kernel.Handle.{handle_proposal, reconcile_execution_report}
use project_fifty.Kernel.Calls.Quiet.{
  IsStable, Quiet-read, emit-Quiet, remember-Quiet, know_key-Quiet,
  reconcile_execution_report-Quiet,
}
use project_fifty.Kernel.Calls.Watched.{
  BrokerCall, submitted, cancelled_order, watched, Given-IsStable, OneMore, before_call,
}
use project_fifty.Kernel.Calls.Single.{MakesOne, carry_out-MakesOne}
use project_fifty.Kernel.Calls.Authority.{
  authorised_order, authorised_cancel, IsUsed, handle_proposal-IsUsed,
}
use project_fifty.Kernel.Restart.Events.{IsSynced, anything}
use project_fifty.Kernel.Restart.History.{
  Command, propose, report, restart, step, run, AreNewIds, first_kernel, first_kernel-IsSynced,
  step-IsSynced, start_kernel-synced,
}

module _ (s : Settings) (B : BrokerAdapter) (uuid : String) (now : ℕ) (p : TradeProposal)
    (key : String) where
  abbrev Anything : BrokerCall → Type 0
  Anything c = Unit {0}

  handle_proposal-MakesOne :
      (calls : List BrokerCall)
      → MakesOne s B calls key Anything (handle_proposal s (watched B) uuid now p)
  unfolding handle_proposal note_cost
  handle_proposal-MakesOne calls =
      let st = Given-IsStable s B calls key calls in
      Triple-bind _ _ _ (before_call s B calls key Anything (emit-Quiet _ st _)) λ _.
        Triple-bind _ _ _
          (before_call s B calls key Anything (remember-Quiet _ st (note_cost p) (λ m. refl)))
          λ _.
            Triple-bind _ _ _ (before_call s B calls key Anything (Quiet-read _ st _)) λ assessed.
              Triple-bind _ _ _ (before_call s B calls key Anything (emit-Quiet _ st _)) λ _.
                Triple-choose assessed.1.approved _ _
                  (λ _.
                    Triple-bind _ _ _
                      (before_call s B calls key Anything (know_key-Quiet _ st p.idempotency_key))
                      λ _.
                        carry_out-MakesOne s B calls key Anything p.action p assessed.0 assessed.1
                          (λ _ i _. tt) (λ _ id _. tt))
                  (λ _. Triple-pure _ (λ k h. inl h))

  OneMore-Knows :
      {A : Type 0} (calls : List BrokerCall) (r : Result A × Kernel (List BrokerCall × B.State))
      → Ends
          (λ _ k. OneMore s B calls key Anything k.memory.known_idempotency_keys k.broker)
          (λ k. OneMore s B calls key Anything k.memory.known_idempotency_keys k.broker)
          r
      → contains key r.1.memory.known_idempotency_keys ≡ true
  OneMore-Knows calls (ok a, k) (inl h) = h.1
  OneMore-Knows calls (ok a, k) (inr (c, _, h)) = h.1
  OneMore-Knows calls (err e, k) (inl h) = h.1
  OneMore-Knows calls (err e, k) (inr (c, _, h)) = h.1

  -- A key that is known stays known.
  handle_proposal-Knows :
      (k : Kernel (List BrokerCall × B.State))
      → contains key k.memory.known_idempotency_keys ≡ true
      → contains key (handle_proposal s (watched B) uuid now p k).1.memory.known_idempotency_keys
        ≡ true
  handle_proposal-Knows k h =
      OneMore-Knows k.broker.0 (handle_proposal s (watched B) uuid now p k)
        ((handle_proposal-MakesOne k.broker.0).at k (refl, h))

-- The idempotency keys of the orders among the calls
unfoldable pub submitted_keys : List BrokerCall → List String
submitted_keys [] = []
submitted_keys (submitted i ∷ calls) = i.idempotency_key ∷ submitted_keys calls
submitted_keys (cancelled_order id ∷ calls) = submitted_keys calls

abbrev pub AreDistinct : List String → Type 0
AreDistinct [] = Unit {0}
AreDistinct (key ∷ keys) = (contains key keys ≡ false) × AreDistinct keys

abbrev AreKnown : List String → List String → Type 0
AreKnown known keys = All (λ key. contains key known ≡ true) keys

contains-add_key_old :
    (key other : String) (known : List String)
    → contains key known ≡ true
    → contains key (add_key other known) ≡ true
contains-add_key_old key other known old = rw (contains-add_key key other known, old) refl

AreKnown-new :
    (known keys : List String) (key : String)
    → contains key known ≡ false
    → AreKnown known keys
    → contains key keys ≡ false
unfolding contains
AreKnown-new known [] key new h = refl
AreKnown-new known (other ∷ keys) key new h = elim (Bool-cases (str_eq other key)) [
  | inl same ↦
      let clash : true ≡ false =
        sym (subst (λ k. contains k known ≡ true) ((eq_iff other key).0 same) h.0) ∙ new in
      absurd cc
  | inr apart ↦ rw apart (AreKnown-new known keys key new h.1)
]

module _ (s : Settings) (B : BrokerAdapter) where
  -- The keys of the orders differ, and the kernel knows them.
  abbrev pub IsUnique : Kernel (List BrokerCall × B.State) → Type 0
  IsUnique k =
      AreDistinct (submitted_keys k.broker.0)
      × AreKnown k.memory.known_idempotency_keys (submitted_keys k.broker.0)

  used-IsUnique :
      (uuid : String) (now : ℕ) (p : TradeProposal) (k k' : Kernel (List BrokerCall × B.State))
      → IsUnique k
      → AreKnown k'.memory.known_idempotency_keys (submitted_keys k.broker.0)
      → IsUsed s B uuid now p k k'
      → IsUnique k'
  unfolding submitted_keys
  used-IsUnique uuid now p k k' h known (inl same) =
      subst
        (λ calls.
          AreDistinct (submitted_keys calls)
          × AreKnown k'.memory.known_idempotency_keys (submitted_keys calls))
        (sym same) (h.0, known)
  used-IsUnique uuid now p k k' h known (inr (_, authorised_cancel id _ _ _, one, _)) =
      subst
        (λ calls.
          AreDistinct (submitted_keys calls)
          × AreKnown k'.memory.known_idempotency_keys (submitted_keys calls))
        (sym one) (h.0, known)
  used-IsUnique uuid now p k k' h known
        (inr (_, authorised_order i _ _ admitted key _ _ _, one, learned)) =
      subst
        (λ calls.
          AreDistinct (submitted_keys calls)
          × AreKnown k'.memory.known_idempotency_keys (submitted_keys calls))
        (sym one)
        (
          (
            rw key (
                AreKnown-new k.memory.known_idempotency_keys (submitted_keys k.broker.0)
                  p.idempotency_key admitted.new_key h.1),
            h.0,
          ),
          (rw key learned, known),
        )

  handle_proposal-IsUnique :
      (uuid : String) (now : ℕ) (p : TradeProposal) (k : Kernel (List BrokerCall × B.State))
      → IsUnique k
      → IsUnique (handle_proposal s (watched B) uuid now p k).1
  handle_proposal-IsUnique uuid now p k h =
      used-IsUnique uuid now p k (handle_proposal s (watched B) uuid now p k).1 h
        (All-weaken (submitted_keys k.broker.0)
          (λ key known. handle_proposal-Knows s B uuid now p key k known) h.1)
        (handle_proposal-IsUsed s B uuid now p k)

  -- Keys and calls as they are, or more keys
  IsUnique-IsStable :
      IsStable {S = List BrokerCall × B.State}
        (λ known b. AreDistinct (submitted_keys b.0) × AreKnown known (submitted_keys b.0))
  IsUnique-IsStable = record {
    grows = λ other known b h. (
      h.0,
      All-weaken (submitted_keys b.0) (λ key old. contains-add_key_old key other known old) h.1,
    );
  }

  Ends-IsUnique :
      {A : Type 0} (r : Result A × Kernel (List BrokerCall × B.State))
      → Ends (λ _. IsUnique) IsUnique r
      → IsUnique r.1
  Ends-IsUnique (ok a, k) h = h
  Ends-IsUnique (err e, k) h = h

  step-IsUnique :
      (c : Command) (k : Kernel (List BrokerCall × B.State))
      → IsSynced anything k
      → IsUnique k
      → IsUnique (step s (watched B) c k)
  unfolding step
  step-IsUnique (propose uuid now p) k synced h = handle_proposal-IsUnique uuid now p k h
  step-IsUnique (report r) k synced h =
      Ends-IsUnique (reconcile_execution_report s r k)
        ((reconcile_execution_report-Quiet _ IsUnique-IsStable s r).at k h)
  step-IsUnique (restart control) k synced h =
      rw (start_kernel-synced s (watched B) control k synced) h

  run-IsUnique :
      (commands : List Command) (k : Kernel (List BrokerCall × B.State))
      → AreNewIds s (watched B) commands k
      → IsSynced anything k
      → IsUnique k
      → IsUnique (run s (watched B) commands k)
  unfolding run
  run-IsUnique [] k new synced h = h
  run-IsUnique (c ∷ commands) k new synced h =
      run-IsUnique commands (step s (watched B) c k) new.1
        (step-IsSynced s (watched B) c k new.0 synced) (step-IsUnique c k synced h)

  -- One order for a key: over any history of proposals, later reports and restarts, in which calls
  -- may raise and every new order gets an id that no order has, no two of the orders that the broker
  -- is given have the same idempotency key.
  pub run-AreDistinct :
      (control : ControlState) (broker : B.State) (commands : List Command)
      → AreNewIds s (watched B) commands (first_kernel s (watched B) control ([], broker))
      → AreDistinct (
          submitted_keys
            (run s (watched B) commands (first_kernel s (watched B) control ([], broker))).broker.0)
  run-AreDistinct control broker commands new =
      (run-IsUnique commands (first_kernel s (watched B) control ([], broker)) new
        (first_kernel-IsSynced s (watched B) control ([], broker))
        (unfold submitted_keys in (tt, tt))).0

-- ===== src/Session/Runner/Bounds.antt =====
-- How much a cycle and a session do: broker calls for each proposal, and cycles.
use project_fifty.Strategies.Proposals.{build_with_plan}
use project_fifty.Strategies.Contracts.{StrategyContext}
use project_fifty.Kernel.Handle.{handle_proposal, emit}
use project_fifty.Domain.{TradeProposal}
use project_fifty.Session.Runner.Cycle.{
  Turn, handle_all, run_cycle, act, decide_cycle, run_until_close, cycles,
}
use project_fifty.Broker.{BrokerAdapter}
use project_fifty.Session.Runner.{Runner, SessionCycleResult, prepare, Prepared}
use project_fifty.Prelude.{
  ℕ, suc, ◌+◌, ◌≤◌, String, ◌≡◌, subst, inl, inr, true, ◌==◌, arith, List, [], ◌∷◌, sym,
}
use project_fifty.Prelude.Seq.{length}
use project_fifty.Outcome.{Result, ok, err}
use project_fifty.Outcome.Hoare.{
  Triple, Ends, Triple-bind, Triple-pure, Triple-raise, Triple-read, Triple-choose, Triple-weaken,
}
use project_fifty.Kernel.State.{Kernel}
use project_fifty.Kernel.Calls.Watched.{BrokerCall, watched}
use project_fifty.Kernel.Calls.Authority.{IsUsed, handle_proposal-IsUsed}

-- What holds of the state after a method, returned or raised
Ends-state : {S A : Type 0} (P : S → Type 0) (x : Result A × S) → P x.1 → Ends (λ _. P) P x
Ends-state P (ok a, s) h = h
Ends-state P (err e, s) h = h

-- The broker was called at most so many times in all.
abbrev pub HasCalls : {S : Type 0} → ℕ → Kernel (List BrokerCall × S) → Type 0
HasCalls n k = length k.broker.0 ≤ n

module _ (r : Runner) (B : BrokerAdapter) (turn : Turn) where
  IsUsed-HasCalls :
      (uuid : String) (now n : ℕ) (p : TradeProposal) (k k' : Kernel (List BrokerCall × B.State))
      → HasCalls n k
      → IsUsed r.settings B uuid now p k k'
      → HasCalls (suc n) k'
  unfolding length
  IsUsed-HasCalls uuid now n p k k' h (inl same) =
      subst (λ (calls : List BrokerCall). length calls ≤ suc n) {x = k.broker.0} {y = k'.broker.0}
        (sym same) (omega (arith, h))
  IsUsed-HasCalls uuid now n p k k' h (inr (c, _, same, _)) =
      subst (λ (calls : List BrokerCall). length calls ≤ suc n) {x = c ∷ k.broker.0}
        {y = k'.broker.0} (sym same) (omega (arith, h))

  handle_proposal-HasCalls :
      (i n : ℕ) (p : TradeProposal)
      → Triple
          (HasCalls n)
          (handle_proposal r.settings (watched B) (turn.uuids i) (turn.times i) p)
          (λ _. HasCalls (suc n))
          (HasCalls (suc n))
  handle_proposal-HasCalls i n p = record {
    at = λ k h.
        let ended = handle_proposal r.settings (watched B) (turn.uuids i) (turn.times i) p k in
        Ends-state (HasCalls (suc n)) ended (
          IsUsed-HasCalls (turn.uuids i) (turn.times i) n p k ended.1 h
            (handle_proposal-IsUsed r.settings B (turn.uuids i) (turn.times i) p k));
  }

  handle_all-HasCalls :
      (ps : List TradeProposal) (i n : ℕ)
      → Triple
          (HasCalls n)
          (handle_all r (watched B) turn i ps)
          (λ _. HasCalls (n + length ps))
          (HasCalls (n + length ps))
  unfolding handle_all length
  handle_all-HasCalls [] i n = Triple-pure _ (λ k h. omega (arith, h))
  handle_all-HasCalls (p ∷ ps) i n =
      Triple-bind _ _ (λ _. HasCalls (suc n))
        (Triple-weaken (λ k h. h) (λ a k h. h) (λ k h. omega (arith, h))
          (handle_proposal-HasCalls i n p))
        λ answer.
          Triple-bind _ _ (λ _. HasCalls (n + suc (length ps)))
            (Triple-weaken (λ k h. h) (λ a k h. omega (arith, h)) (λ k h. omega (arith, h))
              (handle_all-HasCalls ps (suc i) (suc n)))
            λ counts. Triple-pure _ (λ k h. h)

  decide_cycle-HasCalls :
      (time n : ℕ) (context : StrategyContext)
      → Triple
          (HasCalls n)
          (decide_cycle r (watched B) turn time context)
          (λ result. HasCalls (n + result.proposal_count))
          (λ _. Unit {0})
  unfolding decide_cycle emit
  decide_cycle-HasCalls time n context =
      Triple-bind _ _ (λ _. HasCalls n)
        (Triple-read (λ k. r.strategy context) (λ k a e h. h) (λ k h. tt))
        λ target.
          Triple-bind _ _ (λ _. HasCalls n) (record { at = λ k h. h })
            λ _.
              Triple-bind _ _ (λ _. HasCalls n)
                (Triple-read (λ k. build_with_plan r.sha256 r.proposal_builder target context)
                  (λ k a e h. h) (λ k h. tt))
                λ built.
                  Triple-bind _ _ (λ _. HasCalls (n + length built.0))
                    (Triple-weaken (λ k h. h) (λ a k h. h) (λ k h. tt)
                      (handle_all-HasCalls built.0 0 n))
                    λ counts.
                      Triple-bind _ _ (λ _. HasCalls (n + length built.0))
                        (record { at = λ k h. h }) λ _. Triple-pure _ (λ k h. h)

  act-HasCalls :
      (n : ℕ) (p : Prepared)
      → Triple
          (HasCalls n)
          (act r (watched B) turn p)
          (λ result. HasCalls (n + result.proposal_count))
          (λ _. Unit {0})
  unfolding act emit
  act-HasCalls n Prepared.closed = Triple-pure _ (λ k h. omega (arith, h))
  act-HasCalls n (Prepared.skipped reason) =
      Triple-bind _ _ (λ _. HasCalls n) (record { at = λ k h. h })
        λ _. Triple-pure _ (λ k h. omega (arith, h))
  act-HasCalls n (Prepared.duplicate time) = Triple-pure _ (λ k h. omega (arith, h))
  act-HasCalls n (Prepared.ready time context) = record {
    at = (decide_cycle-HasCalls time n context).at;
  }

  run_cycle-HasCalls :
      (n : ℕ)
      → Triple
          (HasCalls n)
          (run_cycle r (watched B) turn)
          (λ result. HasCalls (n + result.proposal_count))
          (λ _. Unit {0})
  unfolding run_cycle
  run_cycle-HasCalls n =
      Triple-bind _ _ (λ _. HasCalls n)
        (Triple-read (λ k. prepare r turn.market turn.now k.ledger) (λ k a e h. h) (λ k h. tt))
        (act-HasCalls n)

-- The proposals of a session
abbrev pub total_proposals : List SessionCycleResult → ℕ
total_proposals [] = 0
total_proposals (result ∷ results) = result.proposal_count + total_proposals results

-- Every result but the last is that of an open market.
abbrev pub IsOpenBefore : List SessionCycleResult → Type 0
IsOpenBefore [] = Unit {0}
IsOpenBefore (result ∷ []) = Unit {0}
IsOpenBefore (result ∷ next ∷ results) = (result.market_open ≡ true) × IsOpenBefore (next ∷ results)

module _ (r : Runner) (B : BrokerAdapter) (turns : ℕ → Turn) where
  -- No more cycles than asked for, and no more calls than proposals
  abbrev pub IsBounded :
      ℕ → ℕ → List SessionCycleResult → Kernel (List BrokerCall × B.State) → Type 0
  IsBounded n left results k =
      (length results ≤ left) × HasCalls (n + total_proposals results) k × IsOpenBefore results

  IsOpenBefore-cons :
      (result : SessionCycleResult) (results : List SessionCycleResult)
      → result.market_open ≡ true
      → IsOpenBefore results
      → IsOpenBefore (result ∷ results)
  IsOpenBefore-cons result [] h k = tt
  IsOpenBefore-cons result (next ∷ results) h k = (h, k)

  cycles-IsBounded :
      (i n left : ℕ)
      → Triple (HasCalls n) (cycles r (watched B) turns i left) (IsBounded n left) (λ _. Unit {0})
  unfolding cycles length
  cycles-IsBounded i n ℕ.zero = Triple-pure _ (λ k h. (omega arith, omega (arith, h), tt))
  cycles-IsBounded i n (suc left) =
      Triple-bind _ _ (λ result. HasCalls (n + result.proposal_count))
        (run_cycle-HasCalls r B (turns i) n)
        λ result.
          Triple-bind _ _
            (λ rest k.
              (length rest ≤ left)
              × HasCalls (n + result.proposal_count + total_proposals rest) k
              × IsOpenBefore (result ∷ rest))
            (Triple-choose result.market_open _ _
              (λ begun.
                Triple-weaken (λ k h. h)
                  (λ rest k h. (h.0, h.1, IsOpenBefore-cons result rest begun h.2)) (λ k h. tt)
                  (cycles-IsBounded (suc i) (n + result.proposal_count) left))
              (λ shut. Triple-pure _ (λ k h. (omega arith, omega (arith, h), tt))))
            λ rest. Triple-pure _ (λ k h. (omega (arith, h.0), omega (arith, h.1), h.2))

  -- A session that returns ran at most as many cycles as asked for, stopped at the first closed
  -- market, and called the broker at most once for each proposal of its cycles.
  pub run_until_close-IsBounded :
      (max_cycles : ℕ) (k k' : Kernel (List BrokerCall × B.State))
      (results : List SessionCycleResult)
      → run_until_close r (watched B) turns max_cycles k ≡ (ok results, k')
      → IsBounded (length k.broker.0) max_cycles results k'
  unfolding run_until_close
  run_until_close-IsBounded max_cycles k k' results h =
      let bounded =
        Triple-choose (max_cycles == 0) _ (cycles r (watched B) turns 0 max_cycles)
          (λ none_left. Triple-raise _ (λ k h. tt))
          (λ some_left. cycles-IsBounded 0 (length k.broker.0) max_cycles) in
      subst (Ends (IsBounded (length k.broker.0) max_cycles) (λ _. Unit {0})) h
        (bounded.at k (omega arith))

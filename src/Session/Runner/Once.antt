-- ===== src/Session/Runner/Once.antt =====
-- A cycle acts at most once on a bar, and reports what it did.
use project_fifty.Strategies.Proposals.{build_with_plan}
use project_fifty.Kernel.Handle.{handle_proposal, emit}
use project_fifty.Kernel.State.{Kernel}
use project_fifty.Session.Runner.Cycle.{
  handle_all, Turn, count_decision, decide_cycle, summary_of, suppressed_of, completed_result,
}
use project_fifty.Broker.{BrokerAdapter}
use project_fifty.Strategies.Rebalance.{keys}
use project_fifty.Session.Quotes.{MarketQuote, midpoints, quote_problem}
use project_fifty.Session.Runner.{
  completed_bar_from, Runner, last_completed_bar, Market, completed_bar, prepare, prepare_decision,
  prepare_quotes, prepare_context, same_time, prepare_open, benchmark_bar, Prepared,
  portfolio_with_fill_marks, marked_portfolio, start_of, cycle_context, SessionCycleResult,
}
use project_fifty.Prelude.{
  ℕ, suc, String, ◌≡◌, ◌+◌, ◌-◌, ◌*◌, refl, subst, inl, inr, false, true, leb, arith, Option, none,
  some, List, [], ◌∷◌, ◌++◌, Bool, Bool-cases, Option-cases,
}
use project_fifty.Prelude.Dict.{Dict}
use project_fifty.Prelude.Sort.{sorted_keys}
use project_fifty.Prelude.Seq.{length}
use project_fifty.Outcome.{Result, ok, err, >>=-eq-ok}
use project_fifty.Domain.{TradeProposal}
use project_fifty.Outcome.Action.{Action, read}
use project_fifty.Outcome.Hoare.{Triple, Ends, Triple-bind, Triple-pure}
use project_fifty.Ledger.Events.{Event}
use project_fifty.Strategies.Contracts.{StrategyContext, MarketBar, validate_context}

completed_bar_from-snoc :
    (last : Option ℕ) (events : List Event) (e : Event)
    → completed_bar_from last (events ++ e ∷ []) ≡ completed_bar (completed_bar_from last events) e
unfolding completed_bar_from
completed_bar_from-snoc last [] e = refl
completed_bar_from-snoc last (x ∷ events) e =
    completed_bar_from-snoc (completed_bar last x) events e

pub last_completed_bar-snoc :
    (events : List Event) (e : Event)
    → last_completed_bar (events ++ e ∷ []) ≡ completed_bar (last_completed_bar events) e
unfolding last_completed_bar
last_completed_bar-snoc events e = completed_bar_from-snoc none events e

module _ (r : Runner) (market : Market) where
  -- A decision's bar is the benchmark's last one, and not the one that was decided on last.
  abbrev pub IsNewBar : List Event → ℕ → Type 0
  IsNewBar events time =
      (same_time (last_completed_bar events) time ≡ false)
      × ((symbols : List String) × (start : ℕ) × (end : ℕ) × (history : Dict (List MarketBar))
          × (bar : MarketBar) × (market.get_bars symbols start end ≡ ok history)
          × (benchmark_bar r history ≡ some bar)
          × (bar.timestamp ≡ time))

  prepare_context-ready :
      (events : List Event) (now : ℕ) (history : Dict (List MarketBar)) (bar : ℕ)
      (quotes : Dict MarketQuote) (time : ℕ) (context : StrategyContext)
      → prepare_context r events now history bar quotes ≡ ok (Prepared.ready time context)
      → bar ≡ time
  unfolding prepare_context
  prepare_context-ready events now history bar quotes time context h =
      let (marks, _, h1) = >>=-eq-ok (midpoints quotes) _ h in
      let (portfolio, _, h2) = >>=-eq-ok (marked_portfolio r.settings marks events) _ h1 in
      let (c, _, h3) =
        >>=-eq-ok (validate_context (cycle_context r now history quotes marks portfolio))
          (λ c. ok (Prepared.ready bar c)) h2 in
      ground arith

  prepare_quotes-ready :
      (events : List Event) (now : ℕ) (symbols : List String) (history : Dict (List MarketBar))
      (bar : ℕ) (quotes : Dict MarketQuote) (time : ℕ) (context : StrategyContext)
      → prepare_quotes r events now symbols history bar quotes ≡ ok (Prepared.ready time context)
      → bar ≡ time
  unfolding prepare_quotes
  prepare_quotes-ready events now symbols history bar quotes time context h =
      elim (Option-cases
        (quote_problem r.settings r.config.future_quote_tolerance_seconds now symbols quotes)) [
          | inl fine ↦
              prepare_context-ready events now history bar quotes time context (ground arith)
          | inr (reason, problem) ↦ absurd (ground arith)
        ]

  prepare_decision-ready :
      (events : List Event) (now : ℕ) (symbols : List String) (history : Dict (List MarketBar))
      (found : Option MarketBar) (time : ℕ) (context : StrategyContext)
      → prepare_decision r market events now symbols history found
        ≡ ok (Prepared.ready time context)
      → (bar : MarketBar) × (found ≡ some bar)
        × (bar.timestamp ≡ time)
        × (same_time (last_completed_bar events) time ≡ false)
  unfolding prepare_decision
  prepare_decision-ready events now symbols history none time context h = absurd (ground arith)
  prepare_decision-ready events now symbols history (some bar) time context h =
      elim (Bool-cases (same_time (last_completed_bar events) bar.timestamp)) [
        | inl same ↦ absurd (ground arith)
        | inr new ↦
            let (quotes, _, h1) =
              >>=-eq-ok (market.get_latest_quotes symbols)
                (prepare_quotes r events now symbols history bar.timestamp) (ground arith) in
            let at =
              prepare_quotes-ready events now symbols history bar.timestamp quotes time context
                h1 in
            (bar, refl, at, subst (λ t. same_time (last_completed_bar events) t ≡ false) at new)
      ]

  prepare_open-ready :
      (now : ℕ) (events : List Event) (symbols : List String) (time : ℕ) (context : StrategyContext)
      → prepare_open r market events now symbols ≡ ok (Prepared.ready time context)
      → IsNewBar events time
  unfolding prepare_open
  prepare_open-ready now events symbols time context h =
      let end = now - r.config.timeframe_seconds * 1000000 in
      let start = start_of r.config end in
      elim (Bool-cases (leb end start)) [
        | inl empty ↦ absurd (ground arith)
        | inr full ↦
            let (history, got, h1) =
              >>=-eq-ok (market.get_bars symbols start end)
                (λ history.
                  prepare_decision r market events now symbols history (benchmark_bar r history))
                (ground arith) in
            let (bar, found, at, new) =
              prepare_decision-ready events now symbols history (benchmark_bar r history) time
                context h1 in
            (new, (symbols, start, end, history, bar, got, found, at))
      ]

  pub prepare-ready :
      (now : ℕ) (events : List Event) (time : ℕ) (context : StrategyContext)
      → prepare r market now events ≡ ok (Prepared.ready time context)
      → IsNewBar events time
  unfolding prepare
  prepare-ready now events time context h = elim (Bool-cases market.is_open) [
    | inr shut ↦ absurd (ground arith)
    | inl begun ↦
        let (provisional, _, h1) =
          >>=-eq-ok (portfolio_with_fill_marks r.settings events)
            (λ provisional.
              prepare_open r market events now
                (sorted_keys r.universe.all_symbols (keys provisional.positions)))
            (ground arith) in
        prepare_open-ready now events
          (sorted_keys r.universe.all_symbols (keys provisional.positions)) time context h1
  ]

Ends-any : {S A : Type 0} (x : Result A × S) → Ends (λ _ _. Unit {0}) (λ _. Unit {0}) x
Ends-any (ok a, s) = tt
Ends-any (err e, s) = tt

Triple-any :
    {S A : Type 0} (m : Action S A) → Triple (λ _. Unit {0}) m (λ _ _. Unit {0}) (λ _. Unit {0})
Triple-any m = record { at = λ s h. Ends-any (m s) }

count_decision-suc :
    (approved : Bool) (counts : ℕ × ℕ) (n : ℕ)
    → counts.0 + counts.1 ≡ n
    → (count_decision approved counts).0 + (count_decision approved counts).1 ≡ suc n
count_decision-suc true counts n h = omega (arith, h)
count_decision-suc false counts n h = omega (arith, h)

module _ (r : Runner) (B : BrokerAdapter) (turn : Turn) where
  -- The loop counts every proposal once.
  handle_all-length :
      (n : ℕ) (ps : List TradeProposal)
      → Triple
          (λ _. Unit {0})
          (handle_all r B turn n ps)
          (λ counts _. counts.0 + counts.1 ≡ length ps)
          (λ _. Unit {0})
  unfolding handle_all length
  handle_all-length n [] = Triple-pure _ (λ k h. refl)
  handle_all-length n (p ∷ ps) =
      Triple-bind _ _ (λ _ _. Unit {0})
        (Triple-any (handle_proposal r.settings B (turn.uuids n) (turn.times n) p))
        λ answer.
          Triple-bind _ _ (λ counts _. counts.0 + counts.1 ≡ length ps)
            (handle_all-length (suc n) ps)
            λ counts. Triple-pure _ (λ k h. count_decision-suc answer.0.approved counts _ h)

  -- A decision: the ledger has its bar from then on, and every proposal is approved or rejected.
  abbrev pub IsDecided : ℕ → SessionCycleResult → Kernel B.State → Type 0
  IsDecided time result k =
      (result.skipped_reason ≡ none)
      × (result.decision_bar_time ≡ some time)
      × (last_completed_bar k.ledger ≡ some time)
      × (result.approved_count + result.rejected_count ≡ result.proposal_count)

  pub decide_cycle-IsDecided :
      (time : ℕ) (context : StrategyContext)
      → Triple (λ _. Unit {0}) (decide_cycle r B turn time context) (IsDecided time) (λ _. Unit {0})
  unfolding decide_cycle emit
  decide_cycle-IsDecided time context =
      Triple-bind _ _ (λ _ _. Unit {0}) (Triple-any (read (λ k. r.strategy context)))
        λ target.
          Triple-bind _ _ (λ _ _. Unit {0})
            (Triple-any (emit (Event.strategy_target_generated target)))
            λ _.
              Triple-bind _ _ (λ _ _. Unit {0})
                (Triple-any
                  (read (λ k. build_with_plan r.sha256 r.proposal_builder target context)))
                λ built.
                  Triple-bind _ _ (λ counts _. counts.0 + counts.1 ≡ length built.0)
                    (handle_all-length 0 built.0)
                    λ counts.
                      let summary =
                        summary_of context time target (length built.0) counts
                          (suppressed_of built.1) in
                      Triple-bind _ _ (λ _. IsDecided time (completed_result summary))
                        (record {
                          at = λ k h. (
                            refl,
                            refl,
                            last_completed_bar-snoc k.ledger
                                (Event.strategy_cycle_completed summary),
                            h,
                          );
                        })
                        λ _. Triple-pure (completed_result summary) (λ k h. h)

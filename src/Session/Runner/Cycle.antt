-- ===== src/Session/Runner/Cycle.antt =====
-- src/project_fifty/session/runner.py, `run_cycle` from the decision on, and `run_until_close`.
use project_fifty.Outcome.{value_error}
use project_fifty.Kernel.Handle.{handle_proposal, emit}
use project_fifty.Session.Runner.{
  Market, Runner, SessionCycleResult, Prepared, prepare, idle_result,
}
use project_fifty.Prelude.{
  ℕ, suc, ◌==◌, String, Bool, true, false, Option, none, some, List, [], ◌∷◌, if◌then◌else◌,
}
use project_fifty.Prelude.Dict.{Dict, insert, lookup_or}
use project_fifty.Prelude.Seq.{length}
use project_fifty.Outcome.Action.{Action, pure, read, ◌>>=◌, ◌>>◌, choose, raise}
use project_fifty.Domain.{TradeProposal}
use project_fifty.Broker.{BrokerAdapter}
use project_fifty.Kernel.State.{Kernel}
use project_fifty.Ledger.Events.{Event, CycleSummary}
use project_fifty.Strategies.Contracts.{StrategyContext, TargetPortfolio}
use project_fifty.Strategies.Rebalance.{RebalanceInstruction, RebalancePlan, RebalanceReason}
use project_fifty.Strategies.Proposals.{build_with_plan}

-- `plan.suppressed`
unfoldable pub suppressed : List RebalanceInstruction → List RebalanceInstruction
suppressed [] = []
suppressed (item ∷ items) =
    let rest = suppressed items in if item.executes then rest else item ∷ rest

abbrev pub suppressed_of : Option RebalancePlan → List RebalanceInstruction
suppressed_of none = []
suppressed_of (some plan) = suppressed plan.instructions

-- `reason.value`
abbrev pub reason_text : RebalanceReason → String
reason_text RebalanceReason.execute = "EXECUTE"
reason_text RebalanceReason.forced_exit = "FORCED_EXIT"
reason_text RebalanceReason.below_economic_threshold = "BELOW_ECONOMIC_THRESHOLD"
reason_text RebalanceReason.no_change = "NO_CHANGE"

unfoldable pub count_reasons : Dict ℕ → List RebalanceInstruction → Dict ℕ
unfolding insert lookup_or
count_reasons counts [] = counts
count_reasons counts (item ∷ items) =
    let reason = reason_text item.reason in
    count_reasons (insert reason (suc (lookup_or 0 reason counts)) counts) items

-- What one cycle is given: the time, the market, and the uuid and the time of each proposal
pub record Turn : Type 0 where
  pub now : ℕ
  pub market : Market
  pub uuids : ℕ → String
  pub times : ℕ → ℕ

abbrev pub count_decision : Bool → ℕ × ℕ → ℕ × ℕ
count_decision approved counts =
    if approved then (suc counts.0, counts.1) else (counts.0, suc counts.1)

abbrev pub summary_of :
    StrategyContext → ℕ → TargetPortfolio → ℕ → ℕ × ℕ → List RebalanceInstruction → CycleSummary
summary_of context time target proposals counts left_out = record {
  as_of = context.as_of;
  decision_bar_time = time;
  market_state_hash = context.market_state_hash;
  strategy_id = target.strategy_id;
  strategy_version = target.strategy_version;
  proposal_count = proposals;
  approved_count = counts.0;
  rejected_count = counts.1;
  suppressed_count = length left_out;
  suppressed_reasons = count_reasons [] left_out;
}

abbrev pub completed_result : CycleSummary → SessionCycleResult
completed_result c = record {
  market_open = true;
  decision_bar_time = some c.decision_bar_time;
  market_state_hash = some c.market_state_hash;
  proposal_count = c.proposal_count;
  approved_count = c.approved_count;
  rejected_count = c.rejected_count;
  suppressed_count = c.suppressed_count;
  skipped_reason = none;
}

module _ (r : Runner) (B : BrokerAdapter) where
  -- The loop over the proposals, from a position in the list; the approvals and the rejections
  unfoldable pub handle_all : Turn → ℕ → List TradeProposal → Action (Kernel B.State) (ℕ × ℕ)
  handle_all turn n [] = pure (0, 0)
  handle_all turn n (p ∷ ps) = do
    answer ← handle_proposal r.settings B (turn.uuids n) (turn.times n) p
    counts ← handle_all turn (suc n) ps
    pure (count_decision answer.0.approved counts)

  -- The cycle from its decision on
  unfoldable pub decide_cycle :
      Turn → ℕ → StrategyContext → Action (Kernel B.State) SessionCycleResult
  unfolding handle_all build_with_plan
  decide_cycle turn time context = do
    target ← read (λ k. r.strategy context)
    emit (Event.strategy_target_generated target)
    built ← read (λ k. build_with_plan r.sha256 r.proposal_builder target context)
    counts ← handle_all turn 0 built.0
    let summary = summary_of context time target (length built.0) counts (suppressed_of built.1)
    emit (Event.strategy_cycle_completed summary)
    pure (completed_result summary)

  -- What follows the reading part
  unfoldable pub act : Turn → Prepared → Action (Kernel B.State) SessionCycleResult
  unfolding decide_cycle
  act turn Prepared.closed = pure (idle_result false none "market_closed")
  act turn (Prepared.skipped reason) = do
    emit (Event.strategy_cycle_skipped turn.now reason)
    pure (idle_result true none reason)
  act turn (Prepared.duplicate time) = pure (idle_result true (some time) "duplicate_decision_bar")
  act turn (Prepared.ready time context) = decide_cycle turn time context

  -- `run_cycle`
  unfoldable pub run_cycle : Turn → Action (Kernel B.State) SessionCycleResult
  unfolding prepare act
  run_cycle turn = do
    prepared ← read (λ k. prepare r turn.market turn.now k.ledger)
    act turn prepared

  -- The loop of `run_until_close`, with the rounds that `max_cycles` leaves
  unfoldable pub cycles : (ℕ → Turn) → ℕ → ℕ → Action (Kernel B.State) (List SessionCycleResult)
  unfolding run_cycle
  cycles turns n ℕ.zero = pure []
  cycles turns n (suc left) = do
    result ← run_cycle (turns n)
    rest ← choose result.market_open (cycles turns (suc n) left) (pure [])
    pure (result ∷ rest)

  -- `run_until_close` with `max_cycles`
  unfoldable pub run_until_close :
      (ℕ → Turn) → ℕ → Action (Kernel B.State) (List SessionCycleResult)
  unfolding cycles
  run_until_close turns max_cycles =
      choose (max_cycles == 0) (raise (value_error "max_cycles must be positive when supplied"))
        (cycles turns 0 max_cycles)

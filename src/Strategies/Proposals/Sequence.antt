-- ===== src/Strategies/Proposals/Sequence.antt =====
-- The order of the proposals, and what a plan keeps from being proposed.
use project_fifty.Prelude.{str_eq, ℕ, String, ◌≡◌, true, false, Option, some, List, ◌∷◌, ◌++◌}
use project_fifty.Prelude.Sort.{All}
use project_fifty.Outcome.{ok}
use project_fifty.Decimal.{Decimal}
use project_fifty.Domain.{TradeAction, TradeProposal}
use project_fifty.Strategies.Contracts.{StrategyContext, TargetPortfolio}
use project_fifty.Strategies.Rebalance.{
  plan, EconomicRebalanceConfig, RebalanceInstruction, RebalancePlan,
}
use project_fifty.Strategies.Proposals.{ProposalBuilder, is_suppressed}

-- Exits free cash first, then reductions; purchases use it.
abbrev pub rank : TradeProposal → ℕ
rank p = elim p.action [ TradeAction.exit ↦ 0 | TradeAction.reduce ↦ 1 | _ ↦ 2 ]

-- The first instruction of a symbol in a plan is one that executes.
abbrev pub IsExecuted : String → RebalancePlan → Type 0
IsExecuted symbol p =
    (before after : List RebalanceInstruction) (item : RebalanceInstruction)
    → p.instructions ≡ before ++ item ∷ after
    → All (λ x. str_eq x.symbol symbol ≡ false) before
    → str_eq item.symbol symbol ≡ true
    → item.executes ≡ true

-- Under a rebalance policy the plan is the policy's, and has the proposal executed.
abbrev pub IsPlanned :
    ProposalBuilder
    → TargetPortfolio
    → StrategyContext
    → Option RebalancePlan
    → TradeProposal
    → Type 0
IsPlanned b target context p q =
    (config : EconomicRebalanceConfig)
    → b.rebalance_policy ≡ some config
    → (made : RebalancePlan) × (plan config target context ≡ ok made)
      × (p ≡ some made)
      × IsExecuted q.symbol made

module _ (sha256 : String → String) (b : ProposalBuilder) (target : TargetPortfolio)
    (context : StrategyContext) where
  -- The plan does not suppress the proposal's symbol.
  abbrev IsWanted : Option RebalancePlan → TradeProposal → Type 0
  IsWanted p q = is_suppressed q.symbol p ≡ false

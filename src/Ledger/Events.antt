-- ===== src/Ledger/Events.antt =====
-- The events that the program appends to its ledger: the event type with its payload. A payload is
-- the model that `model_dump` wrote, which `model_validate` gives back (pydantic's round trip).
use project_fifty.Prelude.{ℕ, String, Bool, Option}
use project_fifty.Prelude.Dict.{Dict}
use project_fifty.Decimal.{Decimal}
use project_fifty.Domain.{
  TradeProposal, RiskDecision, OrderIntent, OrderStatus, ExecutionReport, BrokerOrder,
  PortfolioState, ExperimentMode,
}
use project_fifty.Strategies.Contracts.{TargetPortfolio}

-- The payload of a completed cycle of the session
pub record CycleSummary : Type 0 where
  pub as_of : ℕ
  pub decision_bar_time : ℕ
  pub market_state_hash : String
  pub strategy_id : String
  pub strategy_version : String
  pub proposal_count : ℕ
  pub approved_count : ℕ
  pub rejected_count : ℕ
  pub suppressed_count : ℕ
  pub suppressed_reasons : Dict ℕ

-- The payload of an observation of the session
pub record Snapshot : Type 0 where
  pub as_of : ℕ
  pub decision_bar_time : ℕ
  pub nav : Decimal
  pub spy_mark : Decimal
  pub position_quantities : Dict Decimal

pub data Event : Type 0 where
  proposal_created : TradeProposal → Event
  -- the key is in the payload of the first decision on a proposal only
  risk_decision : RiskDecision → Option String → Event
  order_intent_created : OrderIntent → Event
  -- order id, from, to
  order_state_transition : String → OrderStatus → OrderStatus → Event
  broker_submission_attempt : String → Event
  broker_execution_report : ExecutionReport → Event
  -- proposal id, cancelled order id
  cancellation_requested : String → String → Event
  broker_cancelled : BrokerOrder → Event
  reconciliation_result : PortfolioState → Event
  -- nav, cash, reserved cash, available cash
  portfolio_nav_snapshot : Decimal → Decimal → Decimal → Decimal → Event
  -- from, to, automatic
  control_mode_changed : ExperimentMode → ExperimentMode → Bool → Event
  strategy_target_generated : TargetPortfolio → Event
  strategy_cycle_completed : CycleSummary → Event
  -- the time and the reason
  strategy_cycle_skipped : ℕ → String → Event
  forward_observation_snapshot : Snapshot → Event

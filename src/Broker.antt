-- ===== src/Broker.antt =====
-- src/project_fifty/brokers/base.py: what the kernel asks of a broker. The state is the broker's
-- own; a call returns or raises, and leaves a state in either case.
pub mod Simulated
pub mod Alpaca
use project_fifty.Prelude.{String, List}
use project_fifty.Outcome.{Result}
use project_fifty.Domain.{OrderIntent, ExecutionReport, BrokerOrder, PortfolioState}

pub record BrokerAdapter : Type 1 where
  pub State : Type 0
  pub get_portfolio : State → Result PortfolioState
  pub get_open_orders : State → Result (List BrokerOrder)
  pub submit : OrderIntent → State → Result ExecutionReport × State
  pub cancel : String → State → Result BrokerOrder × State

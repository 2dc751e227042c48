-- ===== src/Strategies.antt =====
-- src/project_fifty/strategies/: from a strategy's target weights to proposals for the kernel.
pub mod Contracts
pub mod Indicators
pub mod SingleMarket
pub mod LowFrequency
pub mod Baseline
pub mod Persistent
pub mod Confirmed
pub mod RegimePersistent
pub mod Rebalance
pub mod Proposals

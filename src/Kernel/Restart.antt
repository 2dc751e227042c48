-- ===== src/Kernel/Restart.antt =====
-- What a restart rebuilds: the fields and the ledger of a running kernel stay in step.
pub mod Events
pub mod Transitions
pub mod Methods
pub mod Reports
pub mod Proposals
pub mod History

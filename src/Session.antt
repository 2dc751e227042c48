-- ===== src/Session.antt =====
-- src/project_fifty/session/: what the autonomous session reads back from the ledger.
pub mod RuntimeState
pub mod Quotes
pub mod Runner
pub mod Observation

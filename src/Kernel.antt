-- ===== src/Kernel.antt =====
-- src/project_fifty/execution/kernel.py: the execution kernel.
pub mod State
pub mod Capital
pub mod Handle
pub mod Assess
pub mod Restart
pub mod Calls

-- ===== src/Kernel/Calls.antt =====
-- Which calls reach the broker, and on what authority.
pub mod Quiet
pub mod Watched
pub mod Single
pub mod Authority
pub mod Twice
pub mod Distinct

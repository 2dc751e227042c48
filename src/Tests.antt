-- ===== src/Tests.antt =====
-- The theorems at concrete inputs, and runs of the code.
mod Data
mod Orders
mod Records
mod Brokers
mod Kernels
mod Strategies
mod Sessions
mod Targets
mod Backtests
mod Runners
mod Alpacas
mod Observations
mod Technical

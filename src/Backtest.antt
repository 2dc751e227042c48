-- ===== src/Backtest.antt =====
-- src/project_fifty/backtest/engine.py: replay of a strategy on bars, with orders at the next bar's
-- open. `History` has the bars
-- that a moment reads, `Rebalance` the trades of a bar, `Engine` the loop over the bars, `WalkForward` the windows.
pub mod History
pub mod Rebalance
pub mod Engine
pub mod WalkForward

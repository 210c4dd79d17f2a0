-- ===== src/Engine.antt =====
-- The back-test engine (stock_backend/app/backtest/engine.py), with the strategy as a parameter.
pub mod Types
pub mod Fill
pub mod Run
pub mod Counts
pub mod Outcome
pub mod Moves
pub mod Steps
pub mod Bars
pub mod Position
pub mod Guards
pub mod Replay
pub mod Curve
pub mod Delay
pub mod Examples
mod Tests

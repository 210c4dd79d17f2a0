-- ===== src/Runner.antt =====
-- backtest/runner.py: a back-test in a process of its own, and the loop of the process that waits
-- for it.
pub mod Child
pub mod Process
pub mod Watch
pub mod Isolated
pub mod Rounds
pub mod Ends
pub mod Relay
pub mod Calm
pub mod Lines
pub mod Sent
pub mod Reported
pub mod Faithful
pub mod Watchdog
pub mod Stopped
pub mod Backtest
pub mod Samples
mod Tests

-- ===== src/Validator.antt =====
-- The check of a strategy's code before a back-test: stock_backend/app/agent/strategy_validator.py, and
-- the compilation of backtest/sandbox.py.
pub mod Sandbox
pub mod Check
pub mod Valid
mod Tests

-- ===== src/Metrics.antt =====
-- The performance figures of a back-test (stock_backend/app/backtest/metrics.py).
pub mod Pairing
pub mod Agreement
mod Tests

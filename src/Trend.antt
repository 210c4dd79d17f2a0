-- ===== src/Trend.antt =====
-- The swing states of a price, close by close (stock_backend/app/services/trend_engine.py).
pub mod Swing
pub mod State
pub mod Turns
pub mod Signals
mod Tests

-- ===== src/Quota.antt =====
-- The limit on the back-tests of one user and the queue they wait in
-- (stock_backend/app/services/backtest_quota.py).
pub mod Zset
pub mod Slots
pub mod Limit
pub mod Held
pub mod Queue
pub mod Table
mod Tests

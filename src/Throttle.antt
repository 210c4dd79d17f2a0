-- ===== src/Throttle.antt =====
-- The throttle of requests to the quote services: stock_backend/app/data_providers/traffic.py.
pub mod Acquire
pub mod Spacing
mod Tests

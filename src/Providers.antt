-- ===== src/Providers.antt =====
-- The chain of quote providers with a circuit breaker each (stock_backend/app/data_providers/factory.py).
pub mod Circuit
pub mod Chain
pub mod Recovery
pub mod Order
pub mod Checked
mod Tests

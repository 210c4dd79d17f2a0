-- ===== src/Tokens.antt =====
-- The token budget of a prompt (stock_backend/app/agent/token_budget.py).
pub mod Estimate
pub mod Window
mod Tests

-- ===== src/Llm.antt =====
-- The protected LLM calls (stock_backend/app/services/llm/llm_service.py): the token bucket, the
-- checks before a call, and the retries, over the circuit breaker.
pub mod Service
pub mod Retry
pub mod Leak
mod Tests

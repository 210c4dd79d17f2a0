-- ===== src/Breaker.antt =====
-- The circuit breaker of the LLM calls (stock_backend/app/services/llm/circuit_breaker.py).
-- Times are readings of the monotonic clock, in ticks of one unit; each call that reads the clock
-- takes the reading as its argument. The lock makes each method one step.
pub mod Step
pub mod Trip
pub mod Probe
mod Tests

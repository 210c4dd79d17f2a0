-- ===== src/Breaker/Trip.antt =====
-- When the breaker opens: its failure count, and the run of failures that reaches the threshold.
use stock_invest_system.Prelude.{ℕ, suc, ◌+◌, ◌≤◌, ◌<◌, ◌≡◌, refl, List, [], ◌∷◌, arith, length}
use stock_invest_system.Breaker.Step.{
  BreakerState, closed, opened, half_open, CircuitBreaker, Call, fails, step, run,
}

-- What the state says about the count of failures.
abbrev pub Counted : BreakerState → CircuitBreaker → Type 0
Counted closed b = b.failures < b.failure_threshold
Counted opened b = b.failure_threshold ≤ b.failures
Counted half_open b = b.failure_threshold ≤ b.failures

pub record IsValid (b : CircuitBreaker) : Type 0 where
  pub threshold_pos : 0 < b.failure_threshold
  pub counted : Counted b.state b

-- A sequence of failures, each with its time.
abbrev pub failures_at : List ℕ → List Call
failures_at [] = []
failures_at (now ∷ times) = fails now ∷ failures_at times

run-failures :
    (b : CircuitBreaker) (times : List ℕ)
    → b.state ≡ closed
    → b.failures + length times < b.failure_threshold
    → ((run b (failures_at times)).state ≡ closed)
      × ((run b (failures_at times)).failures ≡ b.failures + length times)
      × ((run b (failures_at times)).failure_threshold ≡ b.failure_threshold)
unfolding run step
run-failures b [] e h = (e, omega arith, refl)
run-failures b (now ∷ times) e h = ground (arith, run-failures (step b (fails now)) times)

-- From a fresh or just reset breaker, consecutive failures leave it closed as long as there are
-- fewer than the threshold, and the failure that reaches the threshold opens it, at its own time.
pub trips_at_threshold :
    (b : CircuitBreaker) (times : List ℕ) (last : ℕ)
    → b.state ≡ closed
    → b.failures ≡ 0
    → suc (length times) ≡ b.failure_threshold
    → ((run b (failures_at times)).state ≡ closed)
      × ((step (run b (failures_at times)) (fails last)).state ≡ opened)
      × ((step (run b (failures_at times)) (fails last)).opened_at ≡ last)
unfolding step
trips_at_threshold b times last e fresh h = ground (arith, run-failures b times)

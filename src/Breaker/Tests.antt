-- ===== src/Breaker/Tests.antt =====
-- The breaker's theorems at a breaker with threshold 3 and a cooldown of 60.
use stock_invest_system.Prelude.{◌≤◌, ◌≡◌, refl, [], ◌∷◌}
use stock_invest_system.Breaker.Step.{
  opened, CircuitBreaker, init, allows, fails, step, run, granted,
}
use stock_invest_system.Breaker.Probe.{requests_at, granted-le-one}

abbrev fresh_breaker : CircuitBreaker
unfolding init
fresh_breaker = init 3 60

abbrev open_breaker : CircuitBreaker
open_breaker = record {
  failure_threshold = 3;
  cooldown = 60;
  state = opened;
  failures = 3;
  opened_at = 10;
}

-- Three failures open it, a request after the cooldown is the probe, and its failure opens it again.
reopened :
    run fresh_breaker
      (fails 1 ∷ fails 2 ∷ fails 10 ∷ allows 69 ∷ allows 70 ∷ allows 71 ∷ fails 80 ∷ [])
    ≡ record open_breaker { opened_at = 80 }
unfolding run step init
reopened = refl

granted-le-one_example : granted open_breaker (requests_at (20 ∷ 70 ∷ 71 ∷ 500 ∷ [])) ≤ 1
granted-le-one_example = granted-le-one open_breaker (20 ∷ 70 ∷ 71 ∷ 500 ∷ []) (λ e. cc)

-- ===== src/Llm/Tests.antt =====
-- The protected calls at concrete guards, with whole numbers for the bucket's floats.
use stock_invest_system.Prelude.{ℕ, zero, suc, ◌≡◌, refl, [], ◌∷◌, arith, All}
use stock_invest_system.Prelude.Int.{ℤ, pos, ◌+ℤ◌, ◌-ℤ◌, ◌*ℤ◌}
use stock_invest_system.Floating.Whole.{whole}
use stock_invest_system.Breaker.Step.{opened, half_open, allow_request}
use stock_invest_system.Llm.Service.{
  TokenBucket, acquire, circuit_open, rate_limited, auth, other, is_retryable, Outcome, failed,
  cancelled, Guards, preflight, ainvoke, attempts,
}
use stock_invest_system.Llm.Retry.{IsRetried, attempts-IsRetried}
use stock_invest_system.Llm.Leak.{requests, preflight_leaks_probe, Reported, ainvoke-Reported}

abbrev empty_bucket : TokenBucket ℤ
empty_bucket = record {
  capacity = pos 20;
  tokens = pos 0;
  refill_per_sec = pos 1;
  last_refill = pos 100;
}

abbrev open_guards : Guards ℤ
open_guards = record {
  breaker = record {
    failure_threshold = 5;
    cooldown = 60;
    state = opened;
    failures = 5;
    opened_at = 30;
  };
  bucket = empty_bucket;
}

-- At 100 the cooldown is over and the bucket is empty; at 500 the bucket is full again.
preflight_leaks_probe_example :
    ((preflight open_guards 100 (pos 100)).1 ≡ failed rate_limited)
    × All
        (λ o. o ≡ failed circuit_open)
        (requests (preflight open_guards 100 (pos 100)).0 ((101, pos 101) ∷ (500, pos 500) ∷ []))
unfolding acquire ◌+ℤ◌ ◌-ℤ◌ ◌*ℤ◌
preflight_leaks_probe_example =
    preflight_leaks_probe open_guards 100 (pos 100) ((101, pos 101) ∷ (500, pos 500) ∷ []) refl
      (omega arith) refl

-- Fails twice in a way that is tried again, and then for the key.
abbrev unlucky : ℕ → Outcome ℕ
unlucky zero = failed other
unlucky (suc zero) = failed other
unlucky (suc (suc n)) = failed auth

unlucky-attempts : attempts 5 unlucky other 6 0 ≡ (failed auth, 3)
unfolding attempts is_retryable
unlucky-attempts = refl

attempts-IsRetried_example : IsRetried 5 unlucky 0 (attempts 5 unlucky other 6 0)
attempts-IsRetried_example = attempts-IsRetried 5 unlucky other 6 0 (omega arith) refl

ainvoke-Reported_example :
    let r = ainvoke 5 unlucky open_guards 100 (pos 105) 110 in
    Reported (preflight open_guards 100 (pos 105)).0.breaker r.1 r.0.breaker
unfolding preflight allow_request acquire ◌+ℤ◌ ◌-ℤ◌ ◌*ℤ◌
ainvoke-Reported_example = ainvoke-Reported 5 unlucky open_guards 100 (pos 105) 110 refl

abbrev drops : ℕ → Outcome ℕ
drops n = cancelled

-- A probe that is cancelled.
probe_lost : (ainvoke 5 drops open_guards 100 (pos 105) 110).0.breaker.state ≡ half_open
unfolding ainvoke attempts preflight allow_request acquire ◌+ℤ◌ ◌-ℤ◌ ◌*ℤ◌
probe_lost = refl

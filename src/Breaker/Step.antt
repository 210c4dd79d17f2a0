-- ===== src/Breaker/Step.antt =====
-- `class CircuitBreaker`: its fields, its methods, and the calls of several threads as a sequence.
use stock_invest_system.Prelude.{
  ℕ, suc, ◌+◌, ◌-◌, Bool, true, false, List, [], ◌∷◌, leb, if◌then◌else◌,
}

-- `BreakerState`
pub data BreakerState : Type 0 where
  closed opened half_open : BreakerState

pub record CircuitBreaker : Type 0 where
  pub failure_threshold : ℕ
  pub cooldown : ℕ
  pub state : BreakerState
  pub failures : ℕ
  pub opened_at : ℕ

unfoldable pub init : ℕ → ℕ → CircuitBreaker
init failure_threshold cooldown = record {
  failure_threshold = failure_threshold;
  cooldown = cooldown;
  state = closed;
  failures = 0;
  opened_at = 0;
}

-- The three cases of `allow_request`, by the state.
abbrev allow_in : BreakerState → CircuitBreaker → ℕ → CircuitBreaker × Bool
allow_in closed b now = (b, true)
allow_in opened b now =
    if leb b.cooldown (now - b.opened_at)
    then (record b { state = half_open }, true)
    else (b, false)
allow_in half_open b now = (b, false)

unfoldable pub allow_request : CircuitBreaker → ℕ → CircuitBreaker × Bool
allow_request b now = allow_in b.state b now

unfoldable pub on_success : CircuitBreaker → CircuitBreaker
on_success b = record b { failures = 0; state = closed }

-- A failure that is counted: outside of the half-open state.
abbrev count_failure : CircuitBreaker → ℕ → CircuitBreaker
count_failure b now =
    if leb b.failure_threshold (b.failures + 1)
    then record b { failures = b.failures + 1; state = opened; opened_at = now }
    else record b { failures = b.failures + 1 }

abbrev fail_in : BreakerState → CircuitBreaker → ℕ → CircuitBreaker
fail_in half_open b now = record b { state = opened; opened_at = now }
fail_in closed b now = count_failure b now
fail_in opened b now = count_failure b now

unfoldable pub on_failure : CircuitBreaker → ℕ → CircuitBreaker
on_failure b now = fail_in b.state b now

unfoldable pub reset : CircuitBreaker → CircuitBreaker
reset b = record b { state = closed; failures = 0 }

-- One call by some thread, with the reading of the clock at that moment.
pub data Call : Type 0 where
  allows : ℕ → Call
  succeeds : Call
  fails : ℕ → Call
  resets : Call

unfoldable pub step : CircuitBreaker → Call → CircuitBreaker
unfolding allow_request on_success on_failure reset
step b (allows now) = (allow_request b now).0
step b succeeds = on_success b
step b (fails now) = on_failure b now
step b resets = reset b

unfoldable pub run : CircuitBreaker → List Call → CircuitBreaker
run b [] = b
run b (c ∷ cs) = run (step b c) cs

-- How many of the requests in the sequence are let through.
unfoldable pub granted : CircuitBreaker → List Call → ℕ
granted b [] = 0
granted b (allows now ∷ cs) =
    let rest = granted (step b (allows now)) cs in
    if (allow_request b now).1 then suc rest else rest
granted b (succeeds ∷ cs) = granted (step b succeeds) cs
granted b (fails now ∷ cs) = granted (step b (fails now)) cs
granted b (resets ∷ cs) = granted (step b resets) cs

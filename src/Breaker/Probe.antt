-- ===== src/Breaker/Probe.antt =====
-- What an open breaker lets through: nothing before its cooldown is over, and then one probe.
use stock_invest_system.Prelude.{ℕ, ◌-◌, ◌≤◌, ◌<◌, ◌≡◌, refl, ◌≢◌, true, List, [], ◌∷◌, arith, All}
use stock_invest_system.Breaker.Step.{
  closed, opened, half_open, CircuitBreaker, allow_request, Call, allows, step, run, granted,
}

-- A sequence of requests, each with its time.
abbrev pub requests_at : List ℕ → List Call
requests_at [] = []
requests_at (now ∷ times) = allows now ∷ requests_at times

-- While the one probe is out, every request is refused, at whatever time, and the breaker stays as
-- it is.
pub half_open_refuses :
    (b : CircuitBreaker) (times : List ℕ)
    → b.state ≡ half_open
    → (granted b (requests_at times) ≡ 0) × (run b (requests_at times) ≡ b)
unfolding granted run step
half_open_refuses b [] e = (refl, refl)
half_open_refuses b (now ∷ times) e = ground (arith, half_open_refuses b times e)

-- As long as no outcome of a request is reported, a breaker that is not closed lets through one
-- request at most, however many ask.
pub granted-le-one :
    (b : CircuitBreaker) (times : List ℕ) → b.state ≢ closed → granted b (requests_at times) ≤ 1
unfolding granted step
granted-le-one b [] h = omega arith
granted-le-one b (now ∷ times) h =
    ground (
      arith,
      granted-le-one b times h,
      half_open_refuses (record b { state = half_open }) times refl,
    )

-- An open breaker refuses every request that comes before its cooldown is over, and stays as it is.
pub cooldown_refuses :
    (b : CircuitBreaker) (times : List ℕ)
    → b.state ≡ opened
    → All (λ now. now - b.opened_at < b.cooldown) times
    → (granted b (requests_at times) ≡ 0) × (run b (requests_at times) ≡ b)
unfolding granted run step
cooldown_refuses b [] e h = (refl, refl)
cooldown_refuses b (now ∷ times) e h = ground (arith, cooldown_refuses b times e h.1)

-- The first request after the cooldown is the probe.
pub probe_after_cooldown :
    (b : CircuitBreaker) (now : ℕ)
    → b.state ≡ opened
    → b.cooldown ≤ now - b.opened_at
    → allow_request b now ≡ (record b { state = half_open }, true)
unfolding allow_request
probe_after_cooldown b now e h = ground arith

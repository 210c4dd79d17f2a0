-- ===== src/Llm/Leak.antt =====
-- The checks before a call, and what becomes of the breaker's probe. A call that gets past them ends
-- in one report to the breaker, unless it is cancelled; a request that the token bucket refuses reports nothing, also when
-- it has just been let through as the probe.
use stock_invest_system.Prelude.{ℕ, ◌+◌, ◌-◌, ◌≤◌, ◌≡◌, refl, ◌≢◌, false, List, [], ◌∷◌, arith, All}
use stock_invest_system.Floating.{Floating}
use stock_invest_system.Breaker.Step.{
  opened, half_open, CircuitBreaker, allow_request, on_success, on_failure,
}
use stock_invest_system.Llm.Service.{
  acquire, circuit_open, rate_limited, Outcome, done, failed, cancelled, Guards, preflight, ainvoke,
  invoke_after, attempts, report, other,
}

-- What a call leaves behind, by its outcome: a breaker that is not half-open, or, when it was
-- cancelled, the breaker as it was.
pub Reported {ℓ} : {A : Type ℓ} → CircuitBreaker → Outcome A → CircuitBreaker → Type 0
Reported b (done a) b' = b'.state ≢ half_open
Reported b (failed e) b' = b'.state ≢ half_open
Reported b cancelled b' = b' ≡ b

report-Reported {ℓ} :
    {A : Type ℓ} (o : Outcome A) (b : CircuitBreaker) (ended : ℕ) → Reported b o (report o b ended)
unfolding on_success on_failure Reported
report-Reported (done a) b ended = ground arith
report-Reported (failed e) b ended = ground arith
report-Reported cancelled b ended = refl

module _ {ℓ} {F : Type ℓ} ⦃d : Floating F⦄ where
  -- Several requests, each with its two readings of the clock, and what `preflight` says to each.
  pub requests : Guards F → List (ℕ × F) → List (Outcome (Unit {0}))
  requests g [] = []
  requests g ((tick, now) ∷ times) =
      (preflight g tick now).1 ∷ requests (preflight g tick now).0 times

  requests_half_open :
      (g : Guards F) (times : List (ℕ × F))
      → g.breaker.state ≡ half_open
      → All (λ o. o ≡ failed circuit_open) (requests g times)
  unfolding requests preflight allow_request
  requests_half_open g [] e = tt
  requests_half_open g ((tick, now) ∷ times) e = rw refused (refl, requests_half_open g times e)
    where
      refused : preflight g tick now ≡ (g, failed circuit_open)
      refused = ground arith

  -- A request that comes when the cooldown is over and the token bucket is empty is refused for its
  -- rate, but the breaker has gone half-open for it, and nobody will report on this probe: from then
  -- on every request is refused by the breaker, at whatever time it comes.
  pub preflight_leaks_probe :
      (g : Guards F) (tick : ℕ) (now : F) (times : List (ℕ × F))
      → g.breaker.state ≡ opened
      → g.breaker.cooldown ≤ tick - g.breaker.opened_at
      → (acquire g.bucket now).1 ≡ false
      → ((preflight g tick now).1 ≡ failed rate_limited)
        × All (λ o. o ≡ failed circuit_open) (requests (preflight g tick now).0 times)
  unfolding preflight allow_request
  preflight_leaks_probe g tick now times e cool empty =
      (ground arith, requests_half_open _ times (ground arith))

  -- A call that gets past both checks and is not cancelled never leaves the breaker half-open: its
  -- outcome, a result or an error, is reported, so a probe of this kind ends. One that is cancelled
  -- leaves the breaker as the checks did: half-open, if it was the probe.
  pub ainvoke-Reported {κ} :
      {A : Type κ} (max_retries : ℕ) (provider : ℕ → Outcome A) (g : Guards F) (tick : ℕ) (now : F)
      (ended : ℕ)
      → (preflight g tick now).1 ≡ done tt
      → let r = ainvoke max_retries provider g tick now ended in
        Reported (preflight g tick now).0.breaker r.1 r.0.breaker
  unfolding ainvoke
  ainvoke-Reported max_retries provider g tick now ended passed =
      by_check (preflight g tick now) passed
    where
      by_check :
          (r : Guards F × Outcome (Unit {0}))
          → r.1 ≡ done tt
          → let x = invoke_after max_retries provider r ended in
            Reported r.0.breaker x.1 x.0.breaker
      by_check (g', failed e) h = absurd (cc)
      by_check (g', cancelled) h = absurd (cc)
      by_check (g', done t) h =
          report-Reported (attempts max_retries provider other (max_retries + 1) 0).0 g'.breaker
            ended

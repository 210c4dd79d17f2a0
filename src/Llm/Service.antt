-- ===== src/Llm/Service.antt =====
-- `TokenBucket` and `LLMService`: `preflight`, `ainvoke` and `astream`. What the provider answers
-- to each attempt is a parameter, and so are the readings of the clock. A pause between two attempts
-- changes nothing and is left out, and so are the logs and the usage report.
use stock_invest_system.Prelude.{
  ℕ, zero, suc, ◌+◌, Bool, true, false, not, ◌||◌, List, [], ◌∷◌, Option, none, some, leb,
  if◌then◌else◌,
}
use stock_invest_system.Floating.{Floating}
use stock_invest_system.Breaker.Step.{CircuitBreaker, allow_request, on_success, on_failure}

pub record TokenBucket {ℓ} (F : Type ℓ) : Type ℓ where
  pub capacity : F
  pub tokens : F
  pub refill_per_sec : F
  pub last_refill : F

-- The errors that `_classify_provider_error` tells apart, and `LLMCircuitOpenError`.
pub data LlmError : Type 0 where
  circuit_open rate_limited auth quota content_filtered timed_out other : LlmError

-- `_is_retryable`
unfoldable pub is_retryable : LlmError → Bool
is_retryable auth = false
is_retryable quota = false
is_retryable content_filtered = false
is_retryable circuit_open = true
is_retryable rate_limited = true
is_retryable timed_out = true
is_retryable other = true

-- A call that is cancelled while it waits raises an exception that `except Exception` lets through.
pub data Outcome {ℓ} (A : Type ℓ) : Type ℓ where
  done : A → Outcome A
  failed : LlmError → Outcome A
  cancelled : Outcome A

-- What one attempt at a stream does: it yields pieces, and then ends or breaks off.
pub record Stream {ℓ} (A : Type ℓ) : Type ℓ where
  pub pieces : List A
  pub broken : Option LlmError

module _ {ℓ} {F : Type ℓ} ⦃d : Floating F⦄ where
  -- Python's `min(a, b)`.
  abbrev lesser : F → F → F
  lesser a b = if d.ltb b a then b else a

  unfoldable pub refill : TokenBucket F → F → TokenBucket F
  refill b now = record b {
    tokens = lesser b.capacity (d.add b.tokens (d.mul (d.sub now b.last_refill) b.refill_per_sec));
    last_refill = now;
  }

  unfoldable pub take_token : TokenBucket F → TokenBucket F × Bool
  take_token b =
      if d.leb d.unit b.tokens
      then (record b { tokens = d.sub b.tokens d.unit }, true)
      else (b, false)

  unfoldable pub acquire : TokenBucket F → F → TokenBucket F × Bool
  unfolding refill take_token
  acquire b now = take_token (refill b now)

-- The two guards of a service, shared by all that `with_api_key` derives from it.
pub record Guards {ℓ} (F : Type ℓ) : Type ℓ where
  pub breaker : CircuitBreaker
  pub bucket : TokenBucket F

module _ {ℓ} {F : Type ℓ} ⦃d : Floating F⦄ where
  abbrev pub after_breaker :
      CircuitBreaker × Bool → TokenBucket F → F → Guards F × Outcome (Unit {0})
  after_breaker (breaker, false) bucket now =
      (record { breaker = breaker; bucket = bucket }, failed circuit_open)
  after_breaker (breaker, true) bucket now =
      let (bucket', granted) = acquire bucket now in
      (
        record { breaker = breaker; bucket = bucket' },
        if granted then done tt else failed rate_limited,
      )

  -- `tick` is the breaker's reading of the clock, `now` the bucket's.
  unfoldable pub preflight : Guards F → ℕ → F → Guards F × Outcome (Unit {0})
  preflight g tick now = after_breaker (allow_request g.breaker tick) g.bucket now

-- The attempts from number `attempt` on, while `left` of them are left: the outcome, and how many
-- were made in all.
unfoldable pub attempts {ℓ} : {A : Type ℓ} → ℕ → (ℕ → Outcome A) → LlmError → ℕ → ℕ → Outcome A × ℕ
attempts max_retries provider last_exc zero attempt = (failed last_exc, attempt)
attempts max_retries provider last_exc (suc left) attempt = elim (provider attempt) [
  | done a ↦ (done a, suc attempt)
  | cancelled ↦ (cancelled, suc attempt)
  | failed e ↦
      let rest = attempts max_retries provider e left (suc attempt) in
      if not (is_retryable e) || leb max_retries attempt then (failed e, suc attempt) else rest
]

-- The same for a stream: no attempt follows one that has yielded a piece. The result is what has
-- been yielded in all, the error if there is one, and the number of attempts.
unfoldable pub stream_attempts {ℓ} :
    {A : Type ℓ} → ℕ → (ℕ → Stream A) → ℕ → ℕ → List A × Option LlmError × ℕ
stream_attempts max_retries provider zero attempt = ([], some other, attempt)
stream_attempts max_retries provider (suc left) attempt = elim (provider attempt).broken [
  | none ↦ ((provider attempt).pieces, none, suc attempt)
  | some e ↦
      let rest = stream_attempts max_retries provider left (suc attempt) in
      elim (provider attempt).pieces [
        | piece ∷ pieces ↦ (piece ∷ pieces, some e, suc attempt)
        | [] ↦
            if not (is_retryable e) || leb max_retries attempt
            then ([], some e, suc attempt)
            else rest
      ]
]

-- The report to the breaker, which is made once, after the last attempt, unless it is cancelled.
abbrev pub report {ℓ} : {A : Type ℓ} → Outcome A → CircuitBreaker → ℕ → CircuitBreaker
report (done a) b ended = on_success b
report (failed e) b ended = on_failure b ended
report cancelled b ended = b

abbrev pub stream_report : Option LlmError → CircuitBreaker → ℕ → CircuitBreaker
stream_report none b ended = on_success b
stream_report (some e) b ended = on_failure b ended

module _ {ℓ κ} {F : Type ℓ} {A : Type κ} ⦃d : Floating F⦄ where
  -- `ended` is the clock's reading when a failure is reported.
  abbrev pub invoke_after :
      ℕ → (ℕ → Outcome A) → Guards F × Outcome (Unit {0}) → ℕ → Guards F × Outcome A
  invoke_after max_retries provider (g, failed e) ended = (g, failed e)
  invoke_after max_retries provider (g, cancelled) ended = (g, cancelled)
  invoke_after max_retries provider (g, done _) ended =
      let (out, made) = attempts max_retries provider other (max_retries + 1) 0 in
      (record g { breaker = report out g.breaker ended }, out)

  unfoldable pub ainvoke : ℕ → (ℕ → Outcome A) → Guards F → ℕ → F → ℕ → Guards F × Outcome A
  ainvoke max_retries provider g tick now ended =
      invoke_after max_retries provider (preflight g tick now) ended

  abbrev pub stream_after :
      ℕ → (ℕ → Stream A) → Guards F × Outcome (Unit {0}) → ℕ → Guards F × List A × Option LlmError
  stream_after max_retries provider (g, failed e) ended = (g, [], some e)
  stream_after max_retries provider (g, cancelled) ended = (g, [], none)
  stream_after max_retries provider (g, done _) ended =
      let (yielded, e, made) = stream_attempts max_retries provider (max_retries + 1) 0 in
      (record g { breaker = stream_report e g.breaker ended }, yielded, e)

  unfoldable pub astream :
      ℕ → (ℕ → Stream A) → Guards F → ℕ → F → ℕ → Guards F × List A × Option LlmError
  astream max_retries provider g tick now ended =
      stream_after max_retries provider (preflight g tick now) ended

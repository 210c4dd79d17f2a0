-- ===== src/Llm/Retry.antt =====
-- The retry loops: how many attempts are made, what ends them, and what is never tried again.
use stock_invest_system.Prelude.{
  ℕ, zero, suc, ◌+◌, ◌≤◌, ◌<◌, ◌≡◌, refl, subst, Bool, true, false, not, ◌||◌, arith, leb, ◌⊎◌, inl,
  inr,
}
use stock_invest_system.Llm.Service.{
  LlmError, is_retryable, Outcome, done, failed, cancelled, attempts,
}

-- The test that ends a loop after a failure.
stops : ℕ → LlmError → ℕ → Bool
stops max_retries e attempt = not (is_retryable e) || leb max_retries attempt

stops-cases :
    (max_retries : ℕ) (e : LlmError) (attempt : ℕ)
    → ((stops max_retries e attempt ≡ true) × ((is_retryable e ≡ false) ⊎ (max_retries ≤ attempt)))
      ⊎ ((stops max_retries e attempt ≡ false) × (is_retryable e ≡ true) × (attempt < max_retries))
unfolding stops
stops-cases max_retries e attempt = ground arith

module _ {ℓ} {A : Type ℓ} (max_retries : ℕ) (provider : ℕ → Outcome A) where
  -- Attempts `first`, `first + 1`, … , so many of them, all failed in a way that is tried again.
  abbrev pub AllRetried : ℕ → ℕ → Type ℓ
  AllRetried first zero = Unit
  AllRetried first (suc n) =
      ((e : LlmError) × (provider first ≡ failed e) × (is_retryable e ≡ true))
      × AllRetried (suc first) n

  -- A loop ends with a success, a cancellation, or with a failure that is not tried again or is the last allowed.
  abbrev pub IsFinal : Outcome A → ℕ → Type 0
  IsFinal (done a) last = Unit
  IsFinal cancelled last = Unit
  IsFinal (failed e) last = (is_retryable e ≡ false) ⊎ (max_retries ≤ last)

  pub record IsRetried (first : ℕ) (r : Outcome A × ℕ) : Type ℓ where
    pub retries : ℕ
    pub made : r.1 ≡ suc (first + retries)
    pub bounded : first + retries ≤ max_retries
    pub returned : provider (first + retries) ≡ r.0
    pub retried : AllRetried first retries
    pub final : IsFinal r.0 (first + retries)

  ends_here :
      {first : ℕ} {o : Outcome A}
      → provider first ≡ o
      → first ≤ max_retries
      → IsFinal o first
      → IsRetried first (o, suc first)
  ends_here {first} {o} p h f = record {
    retries = 0;
    made = omega arith;
    bounded = omega arith;
    returned = subst (λ k. provider k ≡ o) (zero_more first) p;
    retried = tt;
    final = subst (IsFinal o) (zero_more first) f;
  }
    where
      zero_more : (n : ℕ) → n ≡ n + 0
      zero_more n = omega arith

  goes_on :
      {first : ℕ} {x : LlmError} {r : Outcome A × ℕ}
      → provider first ≡ failed x
      → is_retryable x ≡ true
      → IsRetried (suc first) r
      → IsRetried first r
  goes_on {first} {x} {r} p again h = record {
    retries = suc h.retries;
    made = omega arith;
    bounded = omega arith;
    returned = subst (λ k. provider k ≡ r.0) (one_more first h.retries) h.returned;
    retried = ((x, p, again), h.retried);
    final = subst (IsFinal r.0) (one_more first h.retries) h.final;
  }
    where
      one_more : (n m : ℕ) → suc n + m ≡ n + suc m
      one_more n m = omega arith

  -- Started at the first of `max_retries + 1` attempts, the loop returns the outcome of its last
  -- attempt; every attempt before it failed in a retryable way; at most `max_retries` are repeated;
  -- and a failure is returned only if it is not retryable or no attempt is left.
  pub attempts-IsRetried :
      (last_exc : LlmError) (left first : ℕ)
      → 0 < left
      → first + left ≡ max_retries + 1
      → IsRetried first (attempts max_retries provider last_exc left first)
  unfolding attempts stops
  attempts-IsRetried last_exc zero first h e = absurd (omega arith)
  attempts-IsRetried last_exc (suc left) first h e =
      by_outcome (λ x room. attempts-IsRetried x left (suc first) (omega arith) (omega arith))
        (provider first) refl
    where
      by_outcome :
          ((x : LlmError)
            → first < max_retries
            → IsRetried (suc first) (attempts max_retries provider x left (suc first)))
          → (o : Outcome A) → provider first ≡ o
          → IsRetried first (attempts max_retries provider last_exc (suc left) first)
      by_outcome rest (done a) p = rw (p, attempts) (ends_here p (omega arith) tt)
      by_outcome rest cancelled p = rw (p, attempts) (ends_here p (omega arith) tt)
      by_outcome rest (failed x) p = elim (stops-cases max_retries x first) [
        | inl (stop, why) ↦ rw (p, attempts) (rw stop (ends_here p (omega arith) why))
        | inr (go_on, again, room) ↦ rw (p, attempts) (rw go_on (goes_on p again (rest x room)))
      ]

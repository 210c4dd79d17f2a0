-- ===== src/Providers/Recovery.antt =====
-- How a circuit opens, refuses and recovers.
use stock_invest_system.Prelude.{
  ℕ, suc, ◌+◌, ◌≤◌, ◌<◌, ◌≡◌, refl, true, false, List, [], ◌∷◌, arith, le→leb, if◌then◌else◌, All,
}
use stock_invest_system.Providers.Circuit.{
  closed, open_state, half_open, ProviderCircuit, new_circuit, allow, record_success,
  record_failure, Event, asked, succeeded, failed_at, step, run,
}

-- A closed circuit has counted fewer failures than its threshold, any other as many at least.
abbrev pub IsValid : ProviderCircuit → Type 0
IsValid c = elim c.state [
  | closed ↦ c.failures < c.failure_threshold
  | open_state ↦ c.failure_threshold ≤ c.failures
  | half_open ↦ c.failure_threshold ≤ c.failures
]

step-IsValid :
    (e : Event) (c : ProviderCircuit)
    → 0 < c.failure_threshold
    → IsValid c
    → IsValid (step e c) × ((step e c).failure_threshold ≡ c.failure_threshold)
unfolding step allow record_success record_failure
step-IsValid (asked now) c t h = ground arith
step-IsValid succeeded c t h = ground arith
step-IsValid (failed_at now) c t h = ground arith

-- Whatever is called, in whatever order, a circuit with a threshold above 0 is closed exactly while
-- fewer failures than the threshold have been counted since the last success.
pub run-new_circuit :
    (threshold cooldown : ℕ) (events : List Event)
    → 0 < threshold
    → IsValid (run events (new_circuit threshold cooldown))
unfolding run
run-new_circuit threshold cooldown events t = from events (new_circuit threshold cooldown) t t
  where
    from :
        (events : List Event) (c : ProviderCircuit)
        → 0 < c.failure_threshold
        → IsValid c
        → IsValid (run events c)
    from [] c t h = h
    from (e ∷ events) c t h =
        let next = step-IsValid e c t h in from events (step e c) (ground arith) next.0

-- How many of the requests at the given times are let through, when no outcome is reported.
abbrev pub granted : List ℕ → ProviderCircuit → ℕ
granted [] c = 0
granted (now ∷ times) c =
    let a = allow now c in (if a.granted then 1 else 0) + granted times a.circuit

abbrev pub count : List ℕ → ℕ
count [] = 0
count (x ∷ xs) = suc (count xs)

allow-half_open :
    (now : ℕ) (c : ProviderCircuit)
    → c.state ≡ half_open
    → allow now c ≡ record { granted = true; circuit = c }
unfolding allow
allow-half_open now c h = rw h refl

allow-open_state :
    (now : ℕ) (c : ProviderCircuit)
    → c.state ≡ open_state
    → c.cooldown_until ≤ now
    → allow now c ≡ record { granted = true; circuit = record c { state = half_open } }
unfolding allow
allow-open_state now c h late = rw (h, le→leb c.cooldown_until now late) refl

granted-half_open :
    (times : List ℕ) (c : ProviderCircuit) → c.state ≡ half_open → granted times c ≡ count times
granted-half_open [] c h = refl
granted-half_open (now ∷ times) c h =
    rw (allow-half_open now c h) (omega (arith, granted-half_open times c h))

-- When the cooldown of an open circuit is over, every request is let through as long as no outcome
-- is reported, however many there are.
pub granted_after_cooldown :
    (times : List ℕ) (c : ProviderCircuit)
    → c.state ≡ open_state
    → All (λ now. c.cooldown_until ≤ now) times
    → granted times c ≡ count times
granted_after_cooldown [] c h late = refl
granted_after_cooldown (now ∷ times) c h late =
    rw (allow-open_state now c h late.0)
      (omega (arith, granted-half_open times (record c { state = half_open }) refl))

-- A circuit that is open refuses before its cooldown is over and stays as it is; the first request
-- after that is let through. Its success closes the circuit with no failure counted; its failure
-- opens it again, for a whole cooldown from its time on.
pub recovers :
    (c : ProviderCircuit) (early late failed : ℕ)
    → IsValid c
    → c.state ≡ open_state
    → early < c.cooldown_until
    → c.cooldown_until ≤ late
    → (allow early c ≡ record { granted = false; circuit = c })
      × ((allow late c).granted ≡ true)
      × ((record_success (allow late c).circuit).state ≡ closed)
      × ((record_success (allow late c).circuit).failures ≡ 0)
      × ((record_failure failed (allow late c).circuit).state ≡ open_state)
      × ((record_failure failed (allow late c).circuit).cooldown_until ≡ failed + c.cooldown)
unfolding allow record_success record_failure
recovers c early late failed v h e l = ground arith

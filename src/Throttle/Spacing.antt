-- ===== src/Throttle/Spacing.antt =====
-- The requests that the throttle lets through in a day.
use stock_invest_system.Prelude.{
  ℕ, zero, suc, ◌+◌, ◌*◌, ◌≤◌, ◌<◌, ◌≡◌, ◌⊎◌, ap, refl, arith, Bool, true, false, List, [], ◌∷◌,
  if◌then◌else◌, is_some, All, length, Bool-cases, inl, inr,
}
use stock_invest_system.Redis.{ExpiringKeys, or_zero}
use stock_invest_system.Throttle.Acquire.{
  Limits, Usage, Verdict, granted, wait, exhausted, script_error, slot_key, used_ttl, millis,
  script, Acquired, allowed, acquire_within,
}

abbrev pub is_granted : Verdict → Bool
is_granted granted = true
is_granted v = false

abbrev pub is_allowed : Acquired → Bool
is_allowed allowed = true
is_allowed e = false

Verdict-cases :
    (v : Verdict) → (v ≡ granted) ⊎ (((v ≡ exhausted) ⊎ (v ≡ script_error)) ⊎ (v ≡ wait))
Verdict-cases granted = inl refl
Verdict-cases exhausted = inr (inl (inl refl))
Verdict-cases script_error = inr (inl (inr refl))
Verdict-cases wait = inr (inr refl)

-- Times in order, from a time on.
abbrev pub Ascending : ℕ → List ℕ → Type 0
Ascending from [] = Unit
Ascending from (t ∷ ts) = (from ≤ t) × Ascending t ts

-- Times of which the first is not before a time, and each other not before a gap after the last.
abbrev pub Spaced : ℕ → ℕ → List ℕ → Type 0
Spaced gap earliest [] = Unit
Spaced gap earliest (t ∷ ts) = (earliest ≤ t) × Spaced gap (t + gap) ts

module _ {S : Type 0} (k : ExpiringKeys S) (c : Limits) where
  -- The times at which the script lets a request through, when it is run at the given times on the
  -- same day, by whatever callers.
  unfoldable pub grants : ℕ → List ℕ → Usage S → List ℕ
  grants day [] u = []
  grants day (t ∷ ts) u =
      let e = script k c t day u in
      let rest = grants day ts e.usage in if is_granted e.verdict then t ∷ rest else rest

  abbrev pub Counted : ℕ → ℕ → ℕ → ℕ → Usage S → Type 0
  Counted from until day n u = (t : ℕ) → from ≤ t → t < until → or_zero (k.value u.used t day) ≡ n

  abbrev Blocked : ℕ → ℕ → Usage S → Type 0
  Blocked from earliest u =
      (t : ℕ) → from ≤ t → t < earliest → is_some (k.value u.slot t slot_key) ≡ true

  script_granted :
      (t day : ℕ) (u : Usage S)
      → is_granted (script k c t day u).verdict ≡ true
      → (or_zero (k.value u.used t day) < c.budget)
        × (is_some (k.value u.slot t slot_key) ≡ false)
        × ((script k c t day u).usage ≡ record {
          used = k.incr_ex t used_ttl day u.used;
          slot = k.set_ex t (millis k c) slot_key 1 u.slot;
        })
  unfolding script
  script_granted t day u h = ground arith

  script_refused :
      (t day : ℕ) (u : Usage S)
      → is_granted (script k c t day u).verdict ≡ false
      → (script k c t day u).usage ≡ u
  unfolding script
  script_refused t day u h = ground arith

  incr_ex-Counted :
      (t until day n : ℕ) (u : Usage S)
      → t < until
      → until ≤ t + used_ttl
      → Counted t until day n u
      → Counted t until day (suc n) (record {
        used = k.incr_ex t used_ttl day u.used;
        slot = k.set_ex t (millis k c) slot_key 1 u.slot;
      })
  incr_ex-Counted t until day n u now live h later le lt =
      ground (arith, h t, k.value-incr_ex t used_ttl day u.used later day)

  set_ex-Blocked :
      (t day : ℕ) (u : Usage S)
      → Blocked t (t + millis k c) (record {
        used = k.incr_ex t used_ttl day u.used;
        slot = k.set_ex t (millis k c) slot_key 1 u.slot;
      })
  set_ex-Blocked t day u later le lt =
      ground (arith, k.value-set_ex t (millis k c) slot_key 1 u.slot later slot_key)

  abbrev Kept : ℕ → ℕ → List ℕ → Type 0
  Kept earliest n ts = Spaced (millis k c) earliest ts × (n + length ts ≤ c.budget)

  grants-Kept :
      (times : List ℕ) (now until earliest day n : ℕ) (u : Usage S)
      → Ascending now times
      → All (λ t. t < until) times
      → until ≤ now + used_ttl
      → n ≤ c.budget
      → Counted now until day n u
      → Blocked now earliest u
      → Kept earliest n (grants day times u)
  unfolding grants
  grants-Kept [] now until earliest day n u up inside live le counted blocked = (tt, omega arith)
  grants-Kept (t ∷ ts) now until earliest day n u up inside live le counted blocked =
      let here : Counted t until day n u = λ s a b. counted s (omega (arith, up.0)) b in
      let still : Blocked t earliest u = λ s a b. blocked s (omega (arith, up.0)) b in
      elim (Bool-cases (is_granted (script k c t day u).verdict)) [
        | inr refused ↦
            rw (refused, grants, script_refused t day u refused)
              (grants-Kept ts t until earliest day n u up.1 inside.1 (omega (arith, up.0)) le here
                still)
        | inl passed ↦
            let g = script_granted t day u passed in
            let fits : n < c.budget = omega (arith, g.0, here t (omega arith) inside.0) in
            let free : earliest ≤ t = ground (arith, g.1, still t) in
            let rest =
              grants-Kept ts t until (t + millis k c) day (suc n)
                (record {
                  used = k.incr_ex t used_ttl day u.used;
                  slot = k.set_ex t (millis k c) slot_key 1 u.slot;
                })
                up.1 inside.1 (omega (arith, up.0)) (omega (arith, fits))
                (incr_ex-Counted t until day n u inside.0 (omega (arith, up.0)) here)
                (set_ex-Blocked t day u) in
            rw (passed, grants, g.2) ((free, rest.0), omega (arith, rest.1))
      ]

  -- Whatever callers ask at whatever times of a day, in order, the requests to a provider that the
  -- script lets through are each at least the interval after the one before, and no more than the
  -- budget, when none was counted for that day before.
  pub grants_lem :
      (times : List ℕ) (start day : ℕ) (u : Usage S)
      → Ascending start times
      → All (λ t. t < start + used_ttl) times
      → Counted start (start + used_ttl) day 0 u
      → Spaced (c.interval * 1000) start (grants day times u)
        × (length (grants day times u) ≤ c.budget)
  grants_lem times start day u up inside counted =
      let kept =
        grants-Kept times start (start + used_ttl) start day 0 u up inside (omega arith)
          (omega arith) counted (λ t a b. absurd (omega arith)) in
      (kept.0, omega (arith, kept.1))

  -- A call of `acquire` with tries left ends within as many waits, and when it is allowed the script
  -- let it through at its end and left what it leaves.
  pub acquire_within_lem :
      (n now day : ℕ) (u : Usage S)
      → let z = acquire_within k c n now day u in
        (z.at ≤ now + n * 100)
        × (is_allowed z.acquired ≡ true
            → (is_granted (script k c z.at day u).verdict ≡ true)
              × (z.usage ≡ (script k c z.at day u).usage))
  unfolding acquire_within
  acquire_within_lem zero now day u = (omega arith, λ h. ground arith)
  acquire_within_lem (suc n) now day u = elim (Verdict-cases (script k c now day u).verdict) [
    | inl v ↦ rw (v, acquire_within) (omega arith, λ h. (rw v refl, refl))
    | inr other ↦ elim other [
      | inr v ↦
          let same = script_refused now day u (ap is_granted v) in
          let rest = acquire_within_lem n (now + 100) day u in
          rw (v, acquire_within, same) (omega (arith, rest.0), rest.1)
      | inl (inl v) ↦ rw (v, acquire_within) (omega arith, λ h. ground arith)
      | inl (inr v) ↦ rw (v, acquire_within) (omega arith, λ h. ground arith)
    ]
  ]

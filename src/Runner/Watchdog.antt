-- ===== src/Runner/Watchdog.antt =====
-- The memory that a child is let to use.
use stock_invest_system.Prelude.{
  ℕ, ◌+◌, ◌-◌, ◌≤◌, ◌<◌, ◌≡◌, ◌⊎◌, inl, inr, refl, ap, arith, true, false, List, [], ◌∷◌, Option,
  none, some, Option-cases, All, Bool-cases, ltb, ltb→lt, ◌∙◌,
}
use stock_invest_system.Runner.Child.{Message, progress, ready, ended, failed}
use stock_invest_system.Runner.Watch.{
  Polled, silent, eof, unreadable, got, Round, Caller, Seen, Next, continue, leave, Stop, exceeded,
  Watched, sample, on_message, on_polled, watch, round,
}
use stock_invest_system.Runner.Rounds.{is_watching, after, round-leaves}

-- A sample, when it can be read, is at most a bound.
abbrev pub AtMost : ℕ → Option ℕ → Type 0
AtMost top none = Unit
AtMost top (some n) = n ≤ top

module _ (c : Caller) (b : ℕ) where
  abbrev Fits : Seen → Type 0
  Fits s = (s.rss_baseline ≡ some b) × (s.peak_rss ≤ b + c.memory_bytes)

  sample_cases :
      (rss : Option ℕ) (s : Seen)
      → 0 < c.memory_bytes
      → Fits s
      → let z = sample c.memory_bytes rss s in
        ((z.growth ≡ none) × Fits z.seen × AtMost (b + c.memory_bytes) rss)
        ⊎ ((g : ℕ) × (z.growth ≡ some g) × (z.seen.peak_rss ≡ b + g) × (c.memory_bytes < g))
  unfolding sample
  sample_cases none s pos fits = inl (refl, fits, tt)
  sample_cases (some n) s pos fits = elim (Bool-cases (ltb 0 n)) [
    | inr t ↦ inl (ground (arith, t, fits))
    | inl t ↦ elim (Bool-cases (ltb c.memory_bytes (n - b))) [
      | inl over ↦
          inr (n - b, ground (arith, t, fits, over), ground (arith, t, fits, over), ltb→lt _ _ over)
      | inr under ↦ inl (ground (arith, t, fits, under))
    ]
  ]

module _ {R : Type 0} (c : Caller) (b : ℕ) where
  -- No other baseline comes in the round.
  abbrev pub Unchanged : Polled R → Type 0
  Unchanged (got (ready (some n))) = n ≡ b
  Unchanged p = Unit

  abbrev FitsNext : Next R → Type 0
  FitsNext (continue s) = Fits c b s
  FitsNext (leave stop s) = Fits c b s

  on_message-Fits :
      (m : Message R) (s : Seen) → Unchanged (got m) → Fits c b s → FitsNext (on_message c m s)
  on_message-Fits (progress pct) s h fits = elim (Option-cases c.on_progress) [
    | inl e ↦ ground (arith, e, fits)
    | inr (f, e) ↦ ground (arith, e, fits, Option-cases (f pct))
  ]
  on_message-Fits (ready none) s h fits = fits
  on_message-Fits (ready (some n)) s h fits = elim (Bool-cases (ltb 0 n)) [
    | inl t ↦ rw t (ap some h, fits.1)
    | inr t ↦ rw t fits
  ]
  on_message-Fits (ended r l) s h fits = fits
  on_message-Fits (failed e n l) s h fits = fits

  on_polled-Fits :
      (r : Round R) (p : Polled R) (s : Seen)
      → Unchanged p
      → Fits c b s
      → FitsNext (on_polled c r p s)
  on_polled-Fits r silent s h fits = ground (arith, fits)
  on_polled-Fits r eof s h fits = fits
  on_polled-Fits r (unreadable e) s h fits = fits
  on_polled-Fits r (got m) s h fits = on_message-Fits m s h fits

  abbrev pub Guarded : List (Round R) → Watched R → Type 0
  Guarded rs w =
      ((w.seen.peak_rss ≤ b + c.memory_bytes)
        ⊎ ((g : ℕ) × (w.stop ≡ exceeded g) × (w.seen.peak_rss ≡ b + g) × (c.memory_bytes < g)))
      × (is_watching w.stop ≡ true → All (λ (r : Round R). AtMost (b + c.memory_bytes) r.rss) rs)

  after-Guarded :
      (r : Round R) (rs : List (Round R)) (n : Next R)
      → ((stop : Stop R) (s : Seen) → n ≡ leave stop s → is_watching stop ≡ false)
      → ((s : Seen) → Fits c b s → Guarded rs (watch c rs s))
      → AtMost (b + c.memory_bytes) r.rss
      → FitsNext n
      → Guarded (r ∷ rs) (after c rs n)
  after-Guarded r rs (continue s) left next top fits =
      let z = next s fits in (z.0, λ h. (top, z.1 h))
  after-Guarded r rs (leave stop s) left next top fits =
      (inl fits.1, λ h. ground (arith, left stop s refl, h))

  -- From a baseline on, which no message changes: the loop goes on only while every sample is within
  -- the budget above the baseline, and what it leaves is a peak within the budget, or the error
  -- with the growth of the peak, which is above the budget.
  pub watch-Guarded :
      (rs : List (Round R)) (s : Seen)
      → 0 < c.memory_bytes
      → s.rss_baseline ≡ some b
      → s.peak_rss ≤ b + c.memory_bytes
      → All (λ (r : Round R). Unchanged r.polled) rs
      → Guarded rs (watch c rs s)
  unfolding watch round
  watch-Guarded [] s pos base le all = (inl le, λ h. tt)
  watch-Guarded (r ∷ rs) s pos base le (same, all) =
      let z = sample c.memory_bytes r.rss s in
      elim (sample_cases c b r.rss s pos (base, le)) [
        | inr (g, e, peak, lt) ↦
            rw (watch, round, e) (inr (g, refl, peak, lt), λ h. ground (arith, h))
        | inl (e, fits, top) ↦
            let on : round c r s ≡ on_polled c r r.polled z.seen = rw (round, e) refl in
            rw (watch, on)
              (after-Guarded r rs (on_polled c r r.polled z.seen)
                (λ stop s' l. round-leaves c r s stop s' (on ∙ l))
                (λ s' f. watch-Guarded rs s' pos f.0 f.1 all) top
                (on_polled-Fits r r.polled z.seen same fits))
      ]

-- ===== src/Runner/Rounds.antt =====
-- What a round that does not leave the loop of `run_isolated` has seen.
use stock_invest_system.Prelude.{
  by_test, leb, ℕ, ◌<◌, ◌≡◌, ◌⊎◌, inl, inr, refl, ◌++◌, arith, Bool, true, false, List, [], ◌∷◌,
  Option, none, some, Option-cases,
}
use stock_invest_system.Runner.Child.{Message, progress, ready, ended, failed}
use stock_invest_system.Runner.Watch.{
  timed_out, exited, on_silence, Polled, silent, eof, unreadable, got, Round, Caller, Seen, Watched,
  Next, continue, leave, Stop, watching, interrupted, sample, relay, on_message, watch, round,
}

module _ {R : Type 0} where
  abbrev pub is_watching : Stop R → Bool
  is_watching watching = true
  is_watching s = false

  pub Next-cases :
      (n : Next R)
      → ((s : Seen) × (n ≡ continue s)) ⊎ ((stop : Stop R) × (s : Seen) × (n ≡ leave stop s))
  Next-cases (continue s) = inl (s, refl)
  Next-cases (leave stop s) = inr (stop, s, refl)

  pub Polled-cases :
      (p : Polled R)
      → ((p ≡ silent) ⊎ ((m : Message R) × (p ≡ got m)))
        ⊎ ((p ≡ eof) ⊎ ((e : ℕ) × (p ≡ unreadable e)))
  Polled-cases silent = inl (inl refl)
  Polled-cases (got m) = inl (inr (m, refl))
  Polled-cases eof = inr (inl refl)
  Polled-cases (unreadable e) = inr (inr (e, refl))

  -- A child that waits, in time, and one that has ended and left something.
  abbrev pub Waited : Caller → Round R → Type 0
  Waited c r = (r.polled ≡ silent) × (r.alive ≡ true) × (r.clock < c.deadline)

  abbrev pub Left : Round R → Type 0
  Left r = (r.polled ≡ silent) × (r.alive ≡ false) × (r.more ≡ true)

module _ {R : Type 0} (c : Caller) where
  -- The rest of the loop.
  abbrev pub after : List (Round R) → Next R → Watched R
  after rs (continue s) = watch c rs s
  after rs (leave stop s) = record { stop = stop; seen = s }

  abbrev pub Continued : Round R → Seen → Seen → Type 0
  Continued r s s' =
      ((Waited c r ⊎ Left r) × (s' ≡ (sample c.memory_bytes r.rss s).seen))
      ⊎ ((m : Message R) × (r.polled ≡ got m)
          × (on_message c m (sample c.memory_bytes r.rss s).seen ≡ continue s'))

  pub round-Continued :
      (r : Round R) (s s' : Seen)
      → round c r s ≡ continue s'
      → ((sample c.memory_bytes r.rss s).growth ≡ none) × Continued r s s'
  unfolding round
  round-Continued r s s' h = elim (Option-cases (sample c.memory_bytes r.rss s).growth) [
    | inr (g, e) ↦ ground (arith, e, h)
    | inl e ↦ (
      e,
      elim (Polled-cases r.polled) [
        | inl (inl p) ↦ ground (arith, e, p, h)
        | inl (inr (m, p)) ↦ inr (m, p, rw (round, e, p) at h)
        | inr (inl p) ↦ ground (arith, e, p, h)
        | inr (inr (x, p)) ↦ ground (arith, e, p, h)
      ],
    )
  ]

  on_message-leaves :
      (m : Message R) (s s' : Seen) (stop : Stop R)
      → on_message c m s ≡ leave stop s'
      → is_watching stop ≡ false
  on_message-leaves (progress pct) s s' stop h = elim (Option-cases c.on_progress) [
    | inl e ↦ ground (arith, e, h)
    | inr (f, e) ↦ elim (Option-cases (f pct)) [
      | inl x ↦ ground (arith, e, x, h)
      | inr (n, x) ↦ ground (arith, e, x, h)
    ]
  ]
  on_message-leaves (ready none) s s' stop h = ground (arith, h)
  on_message-leaves (ready (some b)) s s' stop h = ground (arith, h)
  on_message-leaves (ended r l) s s' stop h = ground (arith, h)
  on_message-leaves (failed e n l) s s' stop h = ground (arith, h)

  pub round-leaves :
      (r : Round R) (s : Seen) (stop : Stop R) (s' : Seen)
      → round c r s ≡ leave stop s'
      → is_watching stop ≡ false
  unfolding round
  round-leaves r s stop s' h = elim (Option-cases (sample c.memory_bytes r.rss s).growth) [
    | inr (g, e) ↦ ground (arith, e, h)
    | inl e ↦ elim (Polled-cases r.polled) [
      | inl (inl p) ↦ ground (arith, e, p, h)
      | inl (inr (m, p)) ↦ on_message-leaves m _ s' stop (rw (round, e, p) at h)
      | inr (inl p) ↦ ground (arith, e, p, h)
      | inr (inr (x, p)) ↦ ground (arith, e, p, h)
    ]
  ]

  -- What a call of a caller that listens leads to.
  abbrev pub called_with : ℕ → Seen → Option ℕ → Next R
  called_with pct s none = continue (record s { relayed = s.relayed ++ (pct ∷ []) })
  called_with pct s (some e) =
      leave (interrupted e) (record s { relayed = s.relayed ++ (pct ∷ []) })

  pub relay_lem :
      (f : ℕ → Option ℕ) (pct : ℕ) (s : Seen)
      → c.on_progress ≡ some f
      → relay c pct s ≡ called_with pct s (f pct)
  relay_lem f pct s e = elim (Option-cases (f pct)) [
    | inl x ↦ rw (e, x) refl
    | inr (n, x) ↦ rw (e, x) refl
  ]

  -- What holds where silence can lead to holds after it.
  pub by_silence :
      (P : Next R → Type 0) (r : Round R) (s : Seen)
      → P (continue s)
      → P (leave timed_out s)
      → P (leave exited s)
      → P (on_silence c r s)
  by_silence P r s on late gone =
      by_test P r.alive (λ a. by_test P (leb c.deadline r.clock) (λ e. late) (λ e. on))
        (λ a. by_test P r.more (λ e. on) (λ e. gone))

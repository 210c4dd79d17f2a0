-- ===== src/Runner/Calm.antt =====
-- The loop of `run_isolated` over rounds that give no reason to stop the child.
use stock_invest_system.Prelude.{
  Bool-cases, leb, ltb, ℕ, ◌+◌, ◌≤◌, ◌<◌, ◌≡◌, ◌⊎◌, inl, inr, refl, arith, true, false, List, [],
  ◌∷◌, ◌++◌, Option, none, some, Option-cases, All,
}
use stock_invest_system.Runner.Child.{Message, progress, ready, ended, failed}
use stock_invest_system.Runner.Watch.{
  on_polled, Polled, silent, eof, unreadable, got, Round, Caller, Seen, reported, sample,
  on_message, watch, round,
}
use stock_invest_system.Runner.Relay.{end_of, Heard, HeardIn}
use stock_invest_system.Runner.Rounds.{after, relay_lem}

abbrev pub AtLeast : ℕ → Option ℕ → Type 0
AtLeast floor none = Unit
AtLeast floor (some n) = floor ≤ n

abbrev pub Between : ℕ → ℕ → Option ℕ → Type 0
Between floor top none = Unit
Between floor top (some n) = (floor ≤ n) × (n ≤ top)

sample-Between :
    (floor memory : ℕ) (rss : Option ℕ) (s : Seen)
    → Between floor (floor + memory) rss
    → AtLeast floor s.rss_baseline
    → ((sample memory rss s).growth ≡ none) × AtLeast floor (sample memory rss s).seen.rss_baseline
unfolding sample
sample-Between floor memory none s h b = (refl, b)
sample-Between floor memory (some n) s h b = elim (Option-cases s.rss_baseline) [
  | inl e ↦ ground (arith, e, h)
  | inr (n', e) ↦ ground (arith, e, h, rw e at b)
]

module _ {R : Type 0} (c : Caller) (floor : ℕ) where
  abbrev pub CalmIn : Round R → Polled R → Type 0
  CalmIn r silent =
      ((r.alive ≡ true) × (r.clock < c.deadline)) ⊎ ((r.alive ≡ false) × (r.more ≡ true))
  CalmIn r (got (ready b)) = AtLeast floor b
  CalmIn r (got m) = Unit
  CalmIn r eof = ⊥
  CalmIn r (unreadable e) = ⊥

  -- The memory stays between a floor and the budget above it, a child that waits is in time, one that
  -- has ended has left something, and the pipe is not at its end.
  abbrev pub Calm : Round R → Type 0
  Calm r = Between floor (floor + c.memory_bytes) r.rss × CalmIn r r.polled

  module _ (f : ℕ → Option ℕ) (called : c.on_progress ≡ some f)
      (quiet : (pct : ℕ) → f pct ≡ none) where
    module _ (m : Message R) (rs : List (Round R)) (Later : List (Message R) → Type 0)
        (next : (ms : List (Message R)) (s : Seen)
          → Later ms
          → end_of ms ≡ some m
          → AtLeast floor s.rss_baseline
          → (watch c rs s).stop ≡ reported m) where
      on_message-Calm :
          (r : Round R) (m' : Message R) (ms : List (Message R)) (s : Seen)
          → CalmIn r (got m')
          → Later ms
          → end_of (m' ∷ ms) ≡ some m
          → AtLeast floor s.rss_baseline
          → (after c rs (on_message c m' s)).stop ≡ reported m
      on_message-Calm r (progress pct) ms s calm h e b =
          rw (relay_lem c f pct s called, quiet pct)
            (next ms (record s { relayed = s.relayed ++ (pct ∷ []) }) h e b)
      on_message-Calm r (ready none) ms s calm h e b = next ms s h e b
      on_message-Calm r (ready (some n)) ms s calm h e b = elim (Bool-cases (ltb 0 n)) [
        | inl t ↦ rw t (next ms (record s { rss_baseline = some n }) h e calm)
        | inr t ↦ rw t (next ms s h e b)
      ]
      on_message-Calm r (ended x l) ms s calm h e b = cc
      on_message-Calm r (failed x n l) ms s calm h e b = cc

      on_polled-Calm :
          (r : Round R) (p : Polled R) (ms : List (Message R)) (s : Seen)
          → CalmIn r p
          → HeardIn Later p ms
          → end_of ms ≡ some m
          → AtLeast floor s.rss_baseline
          → (after c rs (on_polled c r p s)).stop ≡ reported m
      on_polled-Calm r silent ms s (inl (a, t)) h e b =
          let late : leb c.deadline r.clock ≡ false = ground (arith, t) in
          rw (a, late) (next ms s h e b)
      on_polled-Calm r silent ms s (inr (a, t)) h e b = rw (a, t) (next ms s h e b)
      on_polled-Calm r (got m') [] s calm h e b = absurd h
      on_polled-Calm r (got m') (m'' ∷ ms) s calm (same, h) e b =
          on_message-Calm r m' ms s calm h (rw same e) b
      on_polled-Calm r eof ms s calm h e b = absurd calm
      on_polled-Calm r (unreadable x) ms s calm h e b = absurd calm

    -- The end that a calm child reports is what the loop is left with.
    pub watch-Calm :
        (m : Message R) (rs : List (Round R)) (ms : List (Message R)) (s : Seen)
        → All Calm rs
        → Heard [] rs ms
        → end_of ms ≡ some m
        → AtLeast floor s.rss_baseline
        → (watch c rs s).stop ≡ reported m
    unfolding watch round
    watch-Calm m [] ms s calm h e b = ground (arith, rw (← h) at e)
    watch-Calm m (r ∷ rs) ms s (calm, calms) h e b =
        let z = sample-Between floor c.memory_bytes r.rss s calm.0 b in
        rw (watch, round, z.0)
          (on_polled-Calm m rs (Heard [] rs) (λ ms' s' h'. watch-Calm m rs ms' s' calms h') r
            r.polled ms (sample c.memory_bytes r.rss s).seen calm.1 h e z.1)

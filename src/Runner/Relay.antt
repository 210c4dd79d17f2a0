-- ===== src/Runner/Relay.antt =====
-- What the loop of `run_isolated` passes on of the messages it hears.
use stock_invest_system.Prelude.{
  Bool-cases, ltb, subst, ◌≢◌, ℕ, ◌≡◌, inl, inr, refl, arith, sym, List, [], ◌∷◌, ◌++◌, Option,
  none, some, Option-cases, append_assoc, append-nil,
}
use stock_invest_system.Runner.Child.{Message, progress, ready, ended, failed}
use stock_invest_system.Runner.Watch.{
  exceeded, closed, interrupted, on_polled, timed_out, exited, Polled, silent, eof, unreadable, got,
  Round, Caller, Seen, leave, Stop, reported, Watched, sample, on_message, watch, round,
}
use stock_invest_system.Runner.Rounds.{by_silence, after, relay_lem}

module _ {R : Type 0} where
  -- The first message that is no progress and no baseline.
  abbrev pub end_of : List (Message R) → Option (Message R)
  end_of [] = none
  end_of (progress pct ∷ ms) = end_of ms
  end_of (ready b ∷ ms) = end_of ms
  end_of (m ∷ ms) = some m

  -- The percentages up to that message.
  abbrev pub percents : List (Message R) → List ℕ
  percents [] = []
  percents (progress pct ∷ ms) = pct ∷ percents ms
  percents (ready b ∷ ms) = percents ms
  percents (m ∷ ms) = []

  abbrev pub HeardIn : (List (Message R) → Type 0) → Polled R → List (Message R) → Type 0
  HeardIn Later (got m) [] = ⊥
  HeardIn Later (got m) (m' ∷ ms) = (m ≡ m') × Later ms
  HeardIn Later p ms = Later ms

  -- The messages of the rounds are the given ones up to those that are still to come.
  abbrev pub Heard : List (Message R) → List (Round R) → List (Message R) → Type 0
  Heard rest [] ms = rest ≡ ms
  Heard rest (r ∷ rs) ms = HeardIn (Heard rest rs) r.polled ms

  -- What is relayed is a beginning of the percentages, and all of them when an end is reported.
  abbrev pub Relayed : List (Message R) → List ℕ → Watched R → Type 0
  Relayed ms before w =
      ((more : List ℕ) × (w.seen.relayed ++ more ≡ before ++ percents ms))
      × ((m : Message R)
          → w.stop ≡ reported m
          → (end_of ms ≡ some m) × (w.seen.relayed ≡ before ++ percents ms))

sample-relayed :
    (memory : ℕ) (rss : Option ℕ) (s : Seen) → (sample memory rss s).seen.relayed ≡ s.relayed
unfolding sample
sample-relayed memory rss s = ground arith

module _ {R : Type 0} (c : Caller) (f : ℕ → Option ℕ) (called : c.on_progress ≡ some f) where
  on_message-Relayed :
      (rs : List (Round R)) (ms : List (Message R)) (m : Message R) (s : Seen)
      → ((s' : Seen) → Relayed ms s'.relayed (watch c rs s'))
      → Relayed (m ∷ ms) s.relayed (after c rs (on_message c m s))
  on_message-Relayed rs ms (progress pct) s next =
      subst (λ n. Relayed (progress pct ∷ ms) s.relayed (after c rs n))
        (sym (relay_lem c f pct s called))
        (elim (Option-cases (f pct)) [
          | inl e ↦
              rw (e, ← append_assoc s.relayed (pct ∷ []) (percents ms))
                (next (record s { relayed = s.relayed ++ (pct ∷ []) }))
          | inr (x, e) ↦ rw e (
            (percents ms, append_assoc s.relayed (pct ∷ []) (percents ms)),
            λ m h. ground (arith, h),
          )
        ])
  on_message-Relayed rs ms (ready none) s next = next s
  on_message-Relayed rs ms (ready (some b)) s next = elim (Bool-cases (ltb 0 b)) [
    | inl e ↦ rw e (next (record s { rss_baseline = some b }))
    | inr e ↦ rw e (next s)
  ]
  on_message-Relayed rs ms (ended r l) s next =
      (([], refl), λ m h. (cc, sym (append-nil s.relayed)))
  on_message-Relayed rs ms (failed e n l) s next =
      (([], refl), λ m h. (cc, sym (append-nil s.relayed)))

  left_early :
      (rs : List (Round R)) (ms : List (Message R)) (stop : Stop R) (s : Seen)
      → ((m : Message R) → stop ≢ reported m)
      → Relayed ms s.relayed (after c rs (leave stop s))
  left_early rs ms stop s other = ((percents ms, refl), λ m h. absurd (other m h))

  module _ (rs : List (Round R)) (Later : List (Message R) → Type 0)
      (next : (ms : List (Message R)) (s : Seen)
        → Later ms
        → Relayed ms s.relayed (watch c rs s)) where
    on_polled-Relayed :
        (r : Round R) (p : Polled R) (ms : List (Message R)) (s : Seen)
        → HeardIn Later p ms
        → Relayed ms s.relayed (after c rs (on_polled c r p s))
    on_polled-Relayed r (got m) [] s h = absurd h
    on_polled-Relayed r (got m) (m' ∷ ms) s (e, h) =
        rw e (on_message-Relayed rs ms m' s (λ s'. next ms s' h))
    on_polled-Relayed r silent ms s h =
        by_silence c (λ n. Relayed ms s.relayed (after c rs n)) r s (next ms s h)
          (left_early rs ms timed_out s (λ m e. ground (arith, e)))
          (left_early rs ms exited s (λ m e. ground (arith, e)))
    on_polled-Relayed r eof ms s h = left_early rs ms closed s (λ m e. ground (arith, e))
    on_polled-Relayed r (unreadable x) ms s h =
        left_early rs ms (interrupted x) s (λ m e. ground (arith, e))

  -- For a caller that listens: it is called with the percentages of the messages that are heard, in
  -- order, up to some point, and with all of them when an end is reported, which is the first.
  pub watch-Relayed :
      (rest : List (Message R)) (rs : List (Round R)) (ms : List (Message R)) (s : Seen)
      → Heard rest rs ms
      → Relayed ms s.relayed (watch c rs s)
  unfolding watch round
  watch-Relayed rest [] ms s h = ((percents ms, refl), λ m e. ground (arith, e))
  watch-Relayed rest (r ∷ rs) ms s h =
      let z = sample c.memory_bytes r.rss s in
      subst (λ l. Relayed ms l (watch c (r ∷ rs) s)) (sample-relayed c.memory_bytes r.rss s)
        (elim (Option-cases z.growth) [
          | inr (g, e) ↦
              rw (watch, round, e) (left_early rs ms (exceeded g) z.seen (λ m x. ground (arith, x)))
          | inl e ↦
              rw (watch, round, e)
                (on_polled-Relayed rs (Heard rest rs) (watch-Relayed rest rs) r r.polled ms z.seen
                  h)
        ])

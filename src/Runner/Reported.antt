-- ===== src/Runner/Reported.antt =====
-- The message with which the loop of `run_isolated` is left, for any caller.
use stock_invest_system.Prelude.{
  ◌++◌, ℕ, ◌≡◌, ◌⊎◌, inl, inr, refl, arith, ltb, Bool-cases, Option-cases, List, [], ◌∷◌, Option,
  none, some,
}
use stock_invest_system.Prelude.Int.{ℤ}
use stock_invest_system.Runner.Child.{
  Message, progress, ready, ended, failed, Limits, ran, Pipe, EngineRun, Host, apply_limits,
  child_main,
}
use stock_invest_system.Runner.Process.{Process, Signals}
use stock_invest_system.Runner.Watch.{
  Polled, silent, eof, unreadable, got, Round, Caller, Seen, continue, leave, Stop, reported,
  exceeded, closed, exited, timed_out, interrupted, watching, Watched, sample, relay, on_message,
  on_polled, round, watch,
}
use stock_invest_system.Runner.Rounds.{by_silence, after}
use stock_invest_system.Runner.Relay.{end_of, Heard, HeardIn}
use stock_invest_system.Runner.Isolated.{returned, outcome_of, shut, run_isolated, unseen}
use stock_invest_system.Runner.Sent.{send_all-Tells}

module _ {R : Type 0} (c : Caller) where
  relay_cases :
      (pct : ℕ) (s : Seen)
      → ((s' : Seen) × (relay {R = R} c pct s ≡ continue s'))
        ⊎ ((e : ℕ) × (s' : Seen) × (relay {R = R} c pct s ≡ leave (interrupted e) s'))
  relay_cases pct s = elim (Option-cases c.on_progress) [
    | inl e ↦ inl (s, rw e refl)
    | inr (f, e) ↦ elim (Option-cases (f pct)) [
      | inl x ↦ inl (record s { relayed = s.relayed ++ (pct ∷ []) }, rw (e, x) refl)
      | inr (n, x) ↦ inr (n, record s { relayed = s.relayed ++ (pct ∷ []) }, rw (e, x) refl)
    ]
  ]

  module _ (m : Message R) where
    abbrev Ends : List (Message R) → Watched R → Type 0
    Ends ms w = w.stop ≡ reported m → end_of ms ≡ some m

    module _ (rs : List (Round R)) (Later : List (Message R) → Type 0)
        (next : (ms : List (Message R)) (s : Seen) → Later ms → Ends ms (watch c rs s)) where
      on_message-Ends :
          (m' : Message R) (ms : List (Message R)) (s : Seen)
          → Later ms
          → Ends (m' ∷ ms) (after c rs (on_message c m' s))
      on_message-Ends (progress pct) ms s h = elim (relay_cases pct s) [
        | inl (s', e) ↦ rw e (next ms s' h)
        | inr (x, s', e) ↦ rw e (λ z. ground (arith, z))
      ]
      on_message-Ends (ready none) ms s h = next ms s h
      on_message-Ends (ready (some b)) ms s h = elim (Bool-cases (ltb 0 b)) [
        | inl e ↦ rw e (next ms (record s { rss_baseline = some b }) h)
        | inr e ↦ rw e (next ms s h)
      ]
      on_message-Ends (ended r l) ms s h = λ z. cc
      on_message-Ends (failed e n l) ms s h = λ z. cc

      on_polled-Ends :
          (r : Round R) (p : Polled R) (ms : List (Message R)) (s : Seen)
          → HeardIn Later p ms
          → Ends ms (after c rs (on_polled c r p s))
      on_polled-Ends r (got m') [] s h = absurd h
      on_polled-Ends r (got m') (m'' ∷ ms) s (e, h) = rw e (on_message-Ends m'' ms s h)
      on_polled-Ends r silent ms s h =
          by_silence c (λ n. Ends ms (after c rs n)) r s (next ms s h) (λ z. ground (arith, z))
            (λ z. ground (arith, z))
      on_polled-Ends r eof ms s h = λ z. ground (arith, z)
      on_polled-Ends r (unreadable x) ms s h = λ z. ground (arith, z)

    pub watch-reported :
        (rest : List (Message R)) (rs : List (Round R)) (ms : List (Message R)) (s : Seen)
        → Heard rest rs ms
        → Ends ms (watch c rs s)
    unfolding watch round
    watch-reported rest [] ms s h = λ z. ground (arith, z)
    watch-reported rest (r ∷ rs) ms s h =
        elim (Option-cases (sample c.memory_bytes r.rss s).growth) [
          | inr (g, e) ↦ rw (watch, round, e) (λ z. ground (arith, z))
          | inl e ↦
              rw (watch, round, e)
                (on_polled-Ends rs (Heard rest rs) (watch-reported rest rs) r r.polled ms
                  (sample c.memory_bytes r.rss s).seen h)
        ]

-- A result that is returned is that of the engine's run.
module _ {R : Type 0} (send : Pipe R) (run : EngineRun R) where
  outcome_of-returned :
      (s : Signals) (c : Caller) (stop : Stop R) (peak : ℕ) (code : Option ℤ) (r : R)
      (code' : Option ℤ) (peak' : ℕ) (l : Limits)
      → outcome_of s c stop peak code ≡ returned r code' peak' l
      → stop ≡ reported (ended r l)
  outcome_of-returned s c (reported (ended x y)) peak code r code' peak' l e = cc
  outcome_of-returned s c (reported (failed x line y)) peak code r code' peak' l e =
      ground (arith, e)
  outcome_of-returned s c (reported (progress pct)) peak code r code' peak' l e = ground (arith, e)
  outcome_of-returned s c (reported (ready b)) peak code r code' peak' l e = ground (arith, e)
  outcome_of-returned s c (exceeded g) peak code r code' peak' l e = ground (arith, e)
  outcome_of-returned s c closed peak code r code' peak' l e = ground (arith, e)
  outcome_of-returned s c exited peak code r code' peak' l e = ground (arith, e)
  outcome_of-returned s c timed_out peak code r code' peak' l e = ground (arith, e)
  outcome_of-returned s c (interrupted x) peak code r code' peak' l e = ground (arith, e)
  outcome_of-returned s c watching peak code r code' peak' l e = ground (arith, e)

  pub run_isolated-returned :
      {P : Type 0} (o : Process P) (s : Signals) (c : Caller) (h : Host)
      (cpu_seconds memory_bytes : ℕ) (rest : List (Message R)) (rounds : List (Round R)) (p : P)
      (r : R) (code : Option ℤ) (peak : ℕ) (l : Limits)
      → Heard rest rounds (child_main h send run cpu_seconds memory_bytes)
      → (run_isolated o s c rounds p).outcome ≡ returned r code peak l
      → run.result ≡ ran r
  unfolding run_isolated child_main
  run_isolated-returned o s c h cpu_seconds memory_bytes rest rounds p r code peak l heard e =
      let v = watch c rounds unseen in
      let stop =
        outcome_of-returned s c v.stop v.seen.peak_rss (o.exitcode (shut o v.stop p)) r code peak l
          e in
      let limits = apply_limits h cpu_seconds memory_bytes in
      (send_all-Tells send h run limits (ended r l)
        (watch-reported c (ended r l) rest rounds _ unseen heard stop)).0

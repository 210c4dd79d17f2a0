-- ===== src/Runner/Faithful.antt =====
-- What `run_isolated` gives back, against what the engine did in the child.
use stock_invest_system.Prelude.{
  ℕ, ◌≡◌, refl, ap, sym, ◌∙◌, List, [], ◌∷◌, ◌++◌, Option, none, some, All, append_assoc,
}
use stock_invest_system.Runner.Child.{
  Message, progress, ready, ended, failed, Pipe, Ran, ran, raised, EngineRun, Host, strategy_line,
  Limits, send_ran, send_all, apply_limits, child_main,
}
use stock_invest_system.Runner.Process.{Process, Signals}
use stock_invest_system.Runner.Watch.{
  Round, Caller, Stop, exceeded, closed, reported, exited, timed_out, interrupted, watching, watch,
}
use stock_invest_system.Runner.Isolated.{
  Outcome, returned, runtime_error, outcome_of, shut, run_isolated, unseen,
}
use stock_invest_system.Prelude.Int.{ℤ}
use stock_invest_system.Runner.Sent.{
  accepted, Blames, Tells, send_all-Tells, send_all-prefix, percents-send_all, end_of-send_all,
}
use stock_invest_system.Runner.Relay.{end_of, Heard, watch-Relayed}
use stock_invest_system.Runner.Calm.{Calm, watch-Calm}

-- How an outcome stands to the engine's run, when it is one that the child reported.
module _ {R : Type 0} (send : Pipe R) (run : EngineRun R) where
  abbrev pub Honest : Outcome R → List ℕ → Type 0
  Honest (returned r code peak limits) relayed =
      (run.result ≡ ran r) × (relayed ≡ accepted send run.reports)
  Honest (runtime_error e line) relayed =
      Blames send run.result e line × (relayed ≡ accepted send run.reports)
  Honest outcome relayed = Unit

  outcome_of-Honest :
      (s : Signals) (c : Caller) (stop : Stop R) (peak : ℕ) (code : Option ℤ) (relayed : List ℕ)
      → ((m : Message R)
          → stop ≡ reported m
          → Tells send run.result m × (relayed ≡ accepted send run.reports))
      → Honest (outcome_of s c stop peak code) relayed
  outcome_of-Honest s c (reported (ended r l)) peak code relayed h = h (ended r l) refl
  outcome_of-Honest s c (reported (failed e line l)) peak code relayed h = h (failed e line l) refl
  outcome_of-Honest s c (reported (progress pct)) peak code relayed h = tt
  outcome_of-Honest s c (reported (ready b)) peak code relayed h = tt
  outcome_of-Honest s c (exceeded g) peak code relayed h = tt
  outcome_of-Honest s c closed peak code relayed h = tt
  outcome_of-Honest s c exited peak code relayed h = tt
  outcome_of-Honest s c timed_out peak code relayed h = tt
  outcome_of-Honest s c (interrupted e) peak code relayed h = tt
  outcome_of-Honest s c watching peak code relayed h = tt

  -- Whatever the rounds are like that hear a beginning of what the child sends: the caller is called
  -- with a beginning of the percentages that the engine reports and the pipe takes, in order; a result
  -- is that of the engine's run, and an error is the engine's exception or, when the run has ended with
  -- a result, that of the sending of this result, both after all these percentages; its line is that
  -- of the innermost frame of the strategy in the first of its tracebacks that has one.
  pub run_isolated-Honest :
      {P : Type 0} (o : Process P) (s : Signals) (c : Caller) (f : ℕ → Option ℕ) (h : Host)
      (cpu_seconds memory_bytes : ℕ) (rest : List (Message R)) (rounds : List (Round R)) (p : P)
      → c.on_progress ≡ some f
      → Heard rest rounds (child_main h send run cpu_seconds memory_bytes)
      → let z = run_isolated o s c rounds p in
        ((more : List ℕ) × (z.relayed ++ more ≡ accepted send run.reports))
        × Honest z.outcome z.relayed
  unfolding run_isolated child_main
  run_isolated-Honest o s c f h cpu_seconds memory_bytes rest rounds p called heard =
      let limits = apply_limits h cpu_seconds memory_bytes in
      let w = watch-Relayed c f called rest rounds (send_all h send run limits) unseen heard in
      let (more, e) = send_all-prefix send h run limits in
      let v = watch c rounds unseen in
      (
        (w.0.0 ++ more, sym (append_assoc _ w.0.0 more) ∙ (ap (λ l. l ++ more) w.0.1 ∙ e)),
        outcome_of-Honest s c v.stop v.seen.peak_rss (o.exitcode (shut o v.stop p)) v.seen.relayed
            (λ m x.
              let t = send_all-Tells send h run limits m (w.1 m x).0 in (t.0, (w.1 m x).1 ∙ t.1)),
      )

-- A pipe that takes every message.
accepted_all :
    {R : Type 0} (send : Pipe R)
    → ((m : Message R) → send m ≡ none)
    → (ps : List ℕ) → accepted send ps ≡ ps
accepted_all send works [] = refl
accepted_all send works (p ∷ ps) = rw (works (progress p)) (ap (◌∷◌ p) (accepted_all send works ps))

module _ {R : Type 0} where
  -- An outcome like that of the engine's run in the caller's own process.
  abbrev pub Same : Ran R → Outcome R → Type 0
  Same (ran r) (returned r' code peak limits) = r' ≡ r
  Same (raised x) (runtime_error e line) = (e ≡ x.error) × (line ≡ strategy_line x.tracebacks)
  Same result outcome = ⊥

  abbrev last_message : Limits → Ran R → Message R
  last_message l (ran r) = ended r l
  last_message l (raised x) = failed x.error (strategy_line x.tracebacks) l

  end_of-send_ran :
      (send : Pipe R)
      → ((m : Message R) → send m ≡ none)
      → (l : Limits) (result : Ran R)
      → end_of (send_ran send l result) ≡ some (last_message l result)
  end_of-send_ran send works l (ran r) = rw (works (ended r l), end_of) refl
  end_of-send_ran send works l (raised x) =
      rw (works (failed x.error (strategy_line x.tracebacks) l), end_of) refl

  outcome_of-Same :
      (s : Signals) (c : Caller) (stop : Stop R) (peak : ℕ) (code : Option ℤ) (l : Limits)
      (result : Ran R)
      → stop ≡ reported (last_message l result)
      → Same result (outcome_of s c stop peak code)
  outcome_of-Same s c stop peak code l (ran r) e = rw e refl
  outcome_of-Same s c stop peak code l (raised x) e = rw e (refl, refl)

  -- The process is invisible when it is not in the way: if the limits can be set, the pipe takes and
  -- gives every message, the caller does not raise, and the rounds that hear them all are calm (the
  -- memory stays between a floor and the budget above it, a child that waits is in time, and one that
  -- has ended leaves what it sent), then the caller is called with each percentage that the engine
  -- reports, in order, and gets the engine's result, or its exception with the line of the strategy.
  pub run_isolated-Same :
      {P : Type 0} (o : Process P) (s : Signals) (c : Caller) (f : ℕ → Option ℕ) (floor : ℕ)
      (h : Host) (send : Pipe R) (run : EngineRun R) (cpu_seconds memory_bytes : ℕ) (l : Limits)
      (rounds : List (Round R)) (p : P)
      → apply_limits h cpu_seconds memory_bytes ≡ some l
      → ((m : Message R) → send m ≡ none)
      → c.on_progress ≡ some f
      → ((pct : ℕ) → f pct ≡ none)
      → All (Calm c floor) rounds
      → Heard [] rounds (child_main h send run cpu_seconds memory_bytes)
      → let z = run_isolated o s c rounds p in (z.relayed ≡ run.reports) × Same run.result z.outcome
  unfolding run_isolated child_main
  run_isolated-Same o s c f floor h send run cpu_seconds memory_bytes l rounds p set works called
        quiet calm heard =
      let v = watch c rounds unseen in
      let ms = send_all h send run (some l) in
      let heard' : Heard [] rounds ms = rw set at heard in
      let last = end_of-send_all send h run l ∙ end_of-send_ran send works l run.result in
      let stop =
        watch-Calm c floor f called quiet (last_message l run.result) rounds ms unseen calm heard'
          last tt in
      let all =
        (watch-Relayed c f called [] rounds ms unseen heard').1 (last_message l run.result) stop in
      (
        all.1 ∙ (percents-send_all send h run l ∙ accepted_all send works run.reports),
        outcome_of-Same s c v.stop v.seen.peak_rss (o.exitcode (shut o v.stop p)) l run.result stop,
      )

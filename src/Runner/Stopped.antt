-- ===== src/Runner/Stopped.antt =====
-- The child is gone when `run_isolated` is over.
use stock_invest_system.Prelude.{
  ℕ, ◌+◌, ◌-◌, ◌*◌, ◌<◌, ◌≡◌, ◌≢◌, ◌⊎◌, inl, inr, refl, arith, Bool, true, false, List, Option,
  none, some, Bool-cases, length, if◌then◌else◌,
}
use stock_invest_system.Prelude.Int.{ℤ, pos, negsuc}
use stock_invest_system.Runner.Child.{progress, ready, ended, failed}
use stock_invest_system.Runner.Process.{
  Process, Signals, ExitReason, not_ended, cpu_time, force_killed, by_signal, with_code,
  exit_reason, terminate_alive, graceful_exit, shutdown,
}
use stock_invest_system.Runner.Watch.{
  Round, Caller, Stop, exceeded, closed, reported, exited, timed_out, interrupted, watching,
  poll_interval, watch,
}
use stock_invest_system.Runner.Isolated.{
  Outcome, unfinished, resource_error, exit, outcome_of, shut, run_isolated, unseen,
}
use stock_invest_system.Runner.Rounds.{is_watching}
use stock_invest_system.Runner.Ends.{count_got, Paced, watch_lem}

module _ {R : Type 0} where
  -- An outcome that the caller gets.
  abbrev pub IsGiven : Outcome R → Type 0
  IsGiven unfinished = ⊥
  IsGiven outcome = Unit

  -- And it does not say that the child has not ended.
  abbrev pub IsOver : Outcome R → Type 0
  IsOver unfinished = ⊥
  IsOver (resource_error (exit not_ended)) = ⊥
  IsOver outcome = Unit

exit_reason_lem : (s : Signals) (code : Option ℤ) → code ≢ none → exit_reason s code ≢ not_ended
unfolding exit_reason
exit_reason_lem s none some_code e = some_code refl
exit_reason_lem s (some (pos n)) some_code e = ground (arith, e)
exit_reason_lem s (some (negsuc n)) some_code e = ground (arith, e)

exit-IsOver :
    (R : Type 0) (x : ExitReason) → x ≢ not_ended → IsOver {R = R} (resource_error (exit x))
exit-IsOver R not_ended h = h refl
exit-IsOver R cpu_time h = tt
exit-IsOver R force_killed h = tt
exit-IsOver R (by_signal n) h = tt
exit-IsOver R (with_code n) h = tt

module _ {P : Type 0} (o : Process P) where
  -- Either it is over, or all that is left is a kill of a process that was alive, and the wait for it.
  abbrev Ends : P → Type 0
  Ends z =
      (o.is_alive z ≡ false)
      ⊎ ((q : P) × (o.is_alive q ≡ true) × (z ≡ o.join graceful_exit (o.kill q)))

  shutdown_lem : (immediate : Bool) (p : P) → Ends (shutdown o immediate p)
  unfolding shutdown
  shutdown_lem immediate p =
      let q = terminate_alive o (if immediate then o.terminate p else o.join graceful_exit p) in
      elim (Bool-cases (o.is_alive q)) [ inl e ↦ rw e (inr (q, e, refl)) | inr e ↦ rw e (inl e) ]

  module _ {R : Type 0} where
    shut_lem : (stop : Stop R) (p : P) → is_watching stop ≡ false → Ends (shut o stop p)
    shut_lem (exceeded g) p h = shutdown_lem true p
    shut_lem closed p h = shutdown_lem false p
    shut_lem (reported m) p h = shutdown_lem false p
    shut_lem exited p h = shutdown_lem false p
    shut_lem timed_out p h = shutdown_lem true p
    shut_lem (interrupted e) p h = shutdown_lem false p
    shut_lem watching p h = ground (arith, h)

    outcome_of-IsOver :
        (s : Signals) (c : Caller) (stop : Stop R) (peak : ℕ) (code : Option ℤ)
        → is_watching stop ≡ false
        → code ≢ none
        → IsOver (outcome_of s c stop peak code)
    outcome_of-IsOver s c (reported (ended r l)) peak code h k = tt
    outcome_of-IsOver s c (reported (failed e line l)) peak code h k = tt
    outcome_of-IsOver s c (reported (progress pct)) peak code h k =
        exit-IsOver R _ (exit_reason_lem s code k)
    outcome_of-IsOver s c (reported (ready b)) peak code h k =
        exit-IsOver R _ (exit_reason_lem s code k)
    outcome_of-IsOver s c (exceeded g) peak code h k = tt
    outcome_of-IsOver s c closed peak code h k = exit-IsOver R _ (exit_reason_lem s code k)
    outcome_of-IsOver s c exited peak code h k = exit-IsOver R _ (exit_reason_lem s code k)
    outcome_of-IsOver s c timed_out peak code h k = tt
    outcome_of-IsOver s c (interrupted e) peak code h k = tt
    outcome_of-IsOver s c watching peak code h k = ground (arith, h)

    outcome_of-IsGiven :
        (s : Signals) (c : Caller) (stop : Stop R) (peak : ℕ) (code : Option ℤ)
        → is_watching stop ≡ false
        → IsGiven (outcome_of s c stop peak code)
    outcome_of-IsGiven s c (reported (ended r l)) peak code h = tt
    outcome_of-IsGiven s c (reported (failed e line l)) peak code h = tt
    outcome_of-IsGiven s c (reported (progress pct)) peak code h = tt
    outcome_of-IsGiven s c (reported (ready b)) peak code h = tt
    outcome_of-IsGiven s c (exceeded g) peak code h = tt
    outcome_of-IsGiven s c closed peak code h = tt
    outcome_of-IsGiven s c exited peak code h = tt
    outcome_of-IsGiven s c timed_out peak code h = tt
    outcome_of-IsGiven s c (interrupted e) peak code h = tt
    outcome_of-IsGiven s c watching peak code h = ground (arith, h)

    -- The child is gone, or it outlives a kill.
    abbrev pub IsStopped : Outcome R → P → Type 0
    IsStopped outcome z =
        ((o.is_alive z ≡ false) × IsOver outcome)
        ⊎ ((q : P) × (o.is_alive q ≡ true) × (z ≡ o.join graceful_exit (o.kill q)))

    Ends-IsStopped :
        (s : Signals) (c : Caller) (stop : Stop R) (peak : ℕ) (z : P)
        → is_watching stop ≡ false
        → Ends z
        → IsStopped (outcome_of s c stop peak (o.exitcode z)) z
    Ends-IsStopped s c stop peak z h (inl e) =
        inl (e, outcome_of-IsOver s c stop peak (o.exitcode z) h (o.ended_has_code z e))
    Ends-IsStopped s c stop peak z h (inr q) = inr q

    -- Whatever the child does: when the clock runs and what is left in a pipe can be read,
    -- `run_isolated` has an outcome after at most two rounds for each message, one for each wait up to
    -- the deadline, and one more. The child is then no longer alive, and the outcome does not say that
    -- it has not ended; or it was alive to the last, and what was done last is to kill it and to wait
    -- for its end for as long as that is allowed.
    pub run_isolated_lem :
        (s : Signals) (c : Caller) (rounds : List (Round R)) (start : ℕ) (p : P)
        → Paced start false rounds
        → 2 * poll_interval * count_got rounds + (c.deadline - start) + poll_interval
          < poll_interval * length rounds
        → let z = run_isolated o s c rounds p in IsGiven z.outcome × IsStopped z.outcome z.process
    unfolding run_isolated
    run_isolated_lem s c rounds start p paced enough =
        let w = watch c rounds unseen in
        let left = watch_lem c rounds start unseen paced enough in
        (
          outcome_of-IsGiven s c w.stop w.seen.peak_rss (o.exitcode (shut o w.stop p)) left,
          Ends-IsStopped s c w.stop w.seen.peak_rss (shut o w.stop p) left (shut_lem w.stop p left),
        )

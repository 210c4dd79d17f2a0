-- ===== src/Runner/Isolated.antt =====
-- `run_isolated` of backtest/runner.py, and what `execute_backtest` makes of its outcome.
use stock_invest_system.Prelude.{ℕ, Bool, true, false, List, [], Option, none, some}
use stock_invest_system.Prelude.Int.{ℤ}
use stock_invest_system.Runner.Child.{ended, failed, Limits}
use stock_invest_system.Runner.Process.{Process, Signals, ExitReason, exit_reason, shutdown}
use stock_invest_system.Runner.Watch.{
  Round, Caller, Seen, Stop, exceeded, reported, timed_out, interrupted, watching, watch,
}
use stock_invest_system.Jobs.Execute.{RunEnding, finished, stopped, broken}

-- `StrategyResourceError`, of three kinds.
pub data ResourceError : Type 0 where
  memory_growth : ℕ → ℕ → ResourceError
  wall_clock : ResourceError
  exit : ExitReason → ResourceError

-- A result with the exit code, the peak of the memory (`none` for 0) and the child's limits; a
-- `StrategyRuntimeError` with its line; a `StrategyResourceError`; what `on_progress` or the pipe
-- raised; or nothing yet, while the loop runs.
pub data Outcome (R : Type 0) : Type 0 where
  returned : R → Option ℤ → ℕ → Limits → Outcome R
  runtime_error : ℕ → Option ℕ → Outcome R
  resource_error : ResourceError → Outcome R
  propagated : ℕ → Outcome R
  unfinished : Outcome R

pub record Isolated (R P : Type 0) : Type 0 where
  pub outcome : Outcome R
  pub process : P
  pub relayed : List ℕ

abbrev pub unseen : Seen
unseen = record { rss_baseline = none; peak_rss = 0; relayed = [] }

module _ {R : Type 0} where
  abbrev pub is_immediate : Stop R → Bool
  is_immediate (exceeded g) = true
  is_immediate timed_out = true
  is_immediate stop = false

  -- After the child has been shut down.
  abbrev pub outcome_of : Signals → Caller → Stop R → ℕ → Option ℤ → Outcome R
  outcome_of s c (reported (ended r limits)) peak code = returned r code peak limits
  outcome_of s c (reported (failed e line limits)) peak code = runtime_error e line
  outcome_of s c (exceeded g) peak code = resource_error (memory_growth c.memory_bytes g)
  outcome_of s c timed_out peak code = resource_error wall_clock
  outcome_of s c (interrupted e) peak code = propagated e
  outcome_of s c watching peak code = unfinished
  outcome_of s c stop peak code = resource_error (exit (exit_reason s code))

module _ {R P : Type 0} (o : Process P) where
  -- The child is not shut down while the loop runs.
  abbrev pub shut : Stop R → P → P
  shut watching p = p
  shut stop p = shutdown o (is_immediate stop) p

  -- From the start of the child on: `p` is the child when the loop is left.
  unfoldable pub run_isolated : Signals → Caller → List (Round R) → P → Isolated R P
  run_isolated s c rounds p =
      let w = watch c rounds unseen in
      let q = shut w.stop p in
      record {
        outcome = outcome_of s c w.stop w.seen.peak_rss (o.exitcode q);
        process = q;
        relayed = w.seen.relayed;
      }

-- The texts of the errors, by a number.
abbrev resource_text : ℕ
resource_text = 6

-- What `compute_metrics` makes of a result, or the exception that it raises.
pub data Computed (M : Type 0) : Type 0 where
  computed : M → Computed M
  uncomputed : ℕ → Computed M

-- With what the writing or the commit of the result raises, if it does.
abbrev pub saved : {M : Type 0} → Option ℕ → Computed M → RunEnding M
saved none (computed m) = finished m
saved (some e) (computed m) = broken e
saved saving (uncomputed e) = broken e

module _ {R M : Type 0} where
  -- In `execute_backtest`: the figures are computed from the result and saved, a `BacktestError`
  -- becomes an error of the business, another exception goes on. There is no ending while the loop
  -- runs.
  unfoldable pub ending_of : (R → Computed M) → Option ℕ → Outcome R → Option (RunEnding M)
  ending_of figures saving (returned r code peak limits) = some (saved saving (figures r))
  ending_of figures saving (runtime_error e line) = some (stopped e)
  ending_of figures saving (resource_error e) = some (stopped resource_text)
  ending_of figures saving (propagated e) = some (broken e)
  ending_of figures saving unfinished = none

-- ===== src/Runner/Tests.antt =====
-- A child with two reports and a result, and the rounds of its parent.
use stock_invest_system.Prelude.{
  ℕ, ◌+◌, ◌≡◌, refl, sym, true, false, arith, List, [], ◌∷◌, ◌++◌, none, some, All,
}
use stock_invest_system.Runner.Child.{progress, strategy_line, apply_limits, child_main}
use stock_invest_system.Runner.Process.{shutdown}
use stock_invest_system.Runner.Watch.{
  silent, got, Round, Caller, Seen, round, sample, timed_out, watch,
}
use stock_invest_system.Runner.Isolated.{unseen, run_isolated, ending_of, Computed, computed}
use stock_invest_system.Runner.Calm.{Calm}
use stock_invest_system.Runner.Ends.{Paced}
use stock_invest_system.Runner.Sent.{accepted}
use stock_invest_system.Runner.Relay.{Heard}
use stock_invest_system.Runner.Faithful.{Honest, run_isolated-Honest, Same, run_isolated-Same}
use stock_invest_system.Runner.Watchdog.{Guarded, watch-Guarded}
use stock_invest_system.Runner.Stopped.{IsGiven, IsStopped, run_isolated_lem}
use stock_invest_system.Runner.Backtest.{Earned, execute_backtest-Earned}
use stock_invest_system.Runner.Samples.{
  running, procs, linux, host, limits, limits_set, send, run, listening, caller, at, rounds,
}
use stock_invest_system.Jobs.Store.{queued, BacktestTask, Db}
use stock_invest_system.Jobs.Execute.{
  Attempt, finished, loaded, execute_backtest, start, run_reports,
}

-- A line of the strategy, under frames of the engine.
line_found :
    strategy_line (
      (record { is_string = false; lineno = 9 }
        ∷ record { is_string = true; lineno = 3 }
        ∷ record { is_string = true; lineno = 0 }
        ∷ [])
      ∷ [])
    ≡ some 3
unfolding strategy_line
line_found = refl

-- A child that talks is not stopped at the deadline, until it is silent.
talks_late :
    (watch caller (at (got (progress 5)) 5_000 ∷ at silent 5_050 ∷ []) unseen).stop ≡ timed_out
unfolding watch round sample
talks_late = refl

heard : Heard [] rounds (child_main host send run 30 100)
unfolding child_main apply_limits
heard = (refl, (refl, (refl, (refl, refl))))

-- A child that never says anything.
abbrev hurried : Caller
hurried = record { memory_bytes = 0; deadline = 100; on_progress = none }

abbrev silence : List (Round ℕ)
silence = at silent 50 ∷ at silent 100 ∷ at silent 150 ∷ at silent 200 ∷ []

silence-Paced : Paced 0 false silence
silence-Paced = ground arith

run_isolated_lem_example :
    let z = run_isolated procs linux hurried silence running in
    IsGiven z.outcome × IsStopped procs z.outcome z.process
run_isolated_lem_example =
    run_isolated_lem procs linux hurried silence 0 running silence-Paced (ground arith)

run_isolated-Honest_example :
    let z = run_isolated procs linux caller rounds running in
    ((more : List ℕ) × (z.relayed ++ more ≡ accepted send run.reports))
    × Honest send run z.outcome z.relayed
run_isolated-Honest_example =
    run_isolated-Honest send run procs linux caller listening host 30 100 [] rounds running refl
      heard

calm : All (Calm caller 40) rounds
calm = ground arith

run_isolated-Same_example :
    let z = run_isolated procs linux caller rounds running in
    (z.relayed ≡ run.reports) × Same run.result z.outcome
run_isolated-Same_example =
    run_isolated-Same procs linux caller listening 40 host send run 30 100 limits rounds running
      limits_set (λ m. refl) refl (λ pct. refl) calm heard

-- The second sample is too large.
abbrev growing : List (Round ℕ)
growing =
    at silent 50
    ∷ record { rss = some 200; polled = silent; alive = true; more = false; clock = 100 }
    ∷ []

abbrev started : Seen
started = record { rss_baseline = some 40; peak_rss = 40; relayed = [] }

watch-Guarded_example : Guarded caller 40 growing (watch caller growing started)
watch-Guarded_example =
    watch-Guarded caller 40 growing started (ground arith) refl (ground arith) (tt, (tt, tt))

abbrev task : BacktestTask
task = record {
  id = 1;
  strategy_id = 10;
  symbol_id = 600;
  status = queued;
  progress = 0;
  error = none;
}

abbrev db : Db ℕ
db = record {
  tasks = task ∷ [];
  next_task = 2;
  results = [];
  next_result = 1;
  strategies = record { id = 10; user_id = 1; code = 77 } ∷ [];
}

abbrev double : ℕ → Computed ℕ
double n = computed (n + n)

abbrev attempt : Attempt ℕ
attempt = record {
  symbol_found = true;
  bars = loaded true;
  reports = 5 ∷ 100 ∷ [];
  ending = finished 14;
}

-- What the rounds come to.
isolated_run : (run_isolated procs linux caller rounds running).relayed ≡ 5 ∷ 100 ∷ []
unfolding run_isolated watch round sample
isolated_run = refl

isolated_ending :
    ending_of double none (run_isolated procs linux caller rounds running).outcome
    ≡ some (finished 14)
unfolding run_isolated ending_of watch round sample shutdown
isolated_ending = refl

execute_backtest-Earned_example :
    let x = execute_backtest 1 attempt db in
    Earned double none run task
      (start 1 db)
      (run_reports 1 (5 ∷ 100 ∷ []) (start 1 db))
      (run_isolated procs linux caller rounds running).outcome
      x.executed
      x.db
execute_backtest-Earned_example =
    execute_backtest-Earned double none run procs linux caller listening host send 30 100 [] rounds
      running 1 attempt true task db refl heard refl (sym isolated_run) isolated_ending refl refl

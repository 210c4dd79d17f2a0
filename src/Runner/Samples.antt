-- ===== src/Runner/Samples.antt =====
-- A process, a host, a child with two reports and a result, and the rounds of its parent.
use stock_invest_system.Prelude.{
  ℕ, ◌≡◌, refl, Bool, true, false, arith, List, [], ◌∷◌, Option, none, some,
}
use stock_invest_system.Prelude.Int.{ℤ, negsuc}
use stock_invest_system.Runner.Child.{
  progress, ready, ended, Limits, Host, Pipe, EngineRun, ran, apply_limits,
}
use stock_invest_system.Runner.Process.{Process, Signals}
use stock_invest_system.Runner.Watch.{Polled, silent, got, Round, Caller}

-- A child that runs until it is told to stop.
pub data Proc : Type 0 where
  running : Proc
  over : ℤ → Proc

abbrev pub stop_with : ℤ → Proc → Proc
stop_with code running = over code
stop_with code (over c) = over c

abbrev pub runs : Proc → Bool
runs running = true
runs (over c) = false

abbrev pub code_of : Proc → Option ℤ
code_of running = none
code_of (over c) = some c

pub code_kept : (p : Proc) → runs p ≡ false → ¬ (code_of p ≡ none)
code_kept running h = ground (arith, h)
code_kept (over c) h = λ e. ground (arith, e)

abbrev pub procs : Process Proc
procs = record {
  terminate = stop_with (negsuc 14);
  kill = stop_with (negsuc 8);
  join = λ t p. p;
  is_alive = runs;
  exitcode = code_of;
  ended_has_code = code_kept;
}

abbrev pub linux : Signals
linux = record { sigxcpu = some 24; sigkill = some 9 }

abbrev pub host : Host
host = record {
  has_resource = true;
  cpu_time_used = 1_500;
  vsz = 1_000;
  rss = some 40;
  cpu_limit_works = λ soft hard. true;
  memory_limit_works = λ n. true;
}

abbrev pub limits : Limits
limits = record {
  enforced = true;
  cpu_limit = some 31;
  memory_limit = some 1_100;
  memory_error = false;
}

pub limits_set : apply_limits host 30 100 ≡ some limits
unfolding apply_limits
limits_set = refl

abbrev pub send : Pipe ℕ
send m = none

abbrev pub run : EngineRun ℕ
run = record { reports = 5 ∷ 100 ∷ []; result = ran 7 }

abbrev pub listening : ℕ → Option ℕ
listening pct = none

abbrev pub caller : Caller
caller = record { memory_bytes = 100; deadline = 1_000; on_progress = some listening }

abbrev pub at : Polled ℕ → ℕ → Round ℕ
at polled clock = record {
  rss = some 60;
  polled = polled;
  alive = true;
  more = false;
  clock = clock;
}

abbrev pub rounds : List (Round ℕ)
rounds =
    at (got (ready (some 40))) 1
    ∷ at (got (progress 5)) 2
    ∷ at silent 52
    ∷ at (got (progress 100)) 60
    ∷ at (got (ended 7 limits)) 61
    ∷ []

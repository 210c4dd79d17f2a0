-- ===== src/Jobs/Tests.antt =====
-- Two users with a strategy each, and a task of the first.
use stock_invest_system.Prelude.{
  ℕ, ◌==◌, ◌≡◌, refl, Bool, true, false, arith, List, [], ◌∷◌, none, some, is_some,
}
use stock_invest_system.Prelude.Int.{pos}
use stock_invest_system.Quota.Table.{Table, table}
use stock_invest_system.Quota.Slots as Slots
use stock_invest_system.Auth.Simple.{Writes, writes}
use stock_invest_system.Jobs.Store.{TaskStatus, queued, BacktestTask, TradingStrategy, Db}
use stock_invest_system.Jobs.Execute.{Attempt, RunEnding, finished, broken, loaded}
use stock_invest_system.Jobs.Worker.{World, Delivery, Kill, after_execute, returned, deliver}
use stock_invest_system.Jobs.Once.{Sound, count_results}
use stock_invest_system.Jobs.Redelivery.{deliver-Sound}
use stock_invest_system.Jobs.Twice.{stored_twice}
use stock_invest_system.Jobs.Settled.{Settled, deliver-Settled}
use stock_invest_system.Jobs.Create.{Desk, Submission, create_backtest}
use stock_invest_system.Jobs.Slots.{has_message, create_backtest-Matched}
use stock_invest_system.Jobs.Queries.{Page, get_task, get_result, list_results, list_tasks}
use stock_invest_system.Jobs.Isolation.{reads_are_private}
use stock_invest_system.Jobs.Monitor.{
  Outcome, success_at, failure_at, Monitor, memory, classify_failure,
}

abbrev task : TaskStatus → BacktestTask
task status = record {
  id = 1;
  strategy_id = 10;
  symbol_id = 600;
  status = status;
  progress = 0;
  error = none;
}

abbrev strategy : ℕ → ℕ → TradingStrategy
strategy n user_id = record { id = n; user_id = user_id; code = 77 }

abbrev db : Db ℕ
db = record {
  tasks = task queued ∷ [];
  next_task = 2;
  results = [];
  next_result = 1;
  strategies = strategy 10 1 ∷ strategy 20 2 ∷ [];
}

-- The first user has a slot under the token 0.
abbrev world : World ℕ Table
world = record { db = db; slots = λ u. some 50 ∷ [] }

abbrev settings : Slots.Settings
settings = record { limit = 2; stale = 300 }

abbrev attempt : RunEnding ℕ → Attempt ℕ
attempt ending = record {
  symbol_found = true;
  bars = loaded true;
  reports = 40 ∷ 80 ∷ [];
  ending = ending;
}

abbrev delivery : Bool → RunEnding ℕ → (Kill → Bool) → Delivery ℕ
delivery log_success ending kill = record {
  attempt = attempt ending;
  log_start = true;
  log_success = log_success;
  log_failed = true;
  redis = true;
  kill = kill;
}

abbrev survives : Kill → Bool
survives k = false

abbrev killed_late : Kill → Bool
killed_late k = elim k [ after_execute ↦ true | other ↦ false ]

-- A retry, and a worker that is killed when its result is stored.
abbrev deliveries : List (Delivery ℕ)
deliveries =
    delivery true (broken 9) survives
    ∷ delivery true (finished 5) killed_late
    ∷ delivery true (finished 6) survives
    ∷ []

deliver-Sound_example : Sound 1 (deliver table settings 2 1 (some 0) deliveries 0 world).world.db
deliver-Sound_example =
    deliver-Sound table settings 2 1 (some 0) deliveries 0 world (refl, (refl, (refl, tt))) refl

stored_twice_example :
    let h =
      deliver table settings 2 1
        (some 0)
        (delivery false (finished 5) survives ∷ delivery true (finished 6) survives ∷ [])
        0
        world in
    (h.ending ≡ returned) × (count_results 1 h.world.db.results ≡ 2)
stored_twice_example =
    stored_twice table settings 2 1 (some 0) (delivery false (finished 5) survives)
      (delivery true (finished 6) survives) 0 world (refl, refl, refl) (refl, refl) (λ k. refl)
      (λ k. refl) (omega arith) (refl, refl, (5, refl)) (refl, refl, (6, refl))
      (10, refl, refl, refl)

abbrev failing : List (Delivery ℕ)
failing =
    delivery true (broken 9) survives
    ∷ delivery true (broken 9) survives
    ∷ delivery true (broken 9) survives
    ∷ []

deliver-Settled_example :
    Settled table settings 2 1 10 1 0 (deliver table settings 2 1 (some 0) failing 0 world)
deliver-Settled_example =
    deliver-Settled table settings 2 1 10 1 0 failing 0 world
      (
        (refl, refl, refl, refl, λ k. refl),
        ((refl, refl, refl, refl, λ k. refl), ((refl, refl, refl, refl, λ k. refl), tt)),
      )
      (refl, refl) (omega arith) (omega arith)

abbrev desk : Desk ℕ Table Writes
desk = record { world = world; cache = []; queue = [] }

abbrev submission : Bool → Submission
submission broker = record {
  user_id = 1;
  strategy_id = 10;
  period_known = true;
  fill_on_known = true;
  symbol = some 600;
  verdict = true;
  token = 3;
  now = 100;
  redis = true;
  queue_length = some 4;
  row_written = true;
  broker = broker;
}

abbrev same : ℕ → ℕ
same n = n

create_backtest-Matched_example :
    let after = (create_backtest writes same table settings 20 (submission true) desk).desk in
    is_some (table.score (after.world.slots 1) 3) ≡ has_message 3 after.queue
create_backtest-Matched_example =
    create_backtest-Matched writes same table settings 20 (submission true) desk refl (refl, refl)

abbrev page : Page
page = record { rows = task queued ∷ []; total = 1 }

first_page : list_tasks 1 none (pos 1) (pos 500) db ≡ some page
unfolding list_tasks
first_page = refl

reads_are_private_example :
    (is_some (get_task 1 1 db) ≡ true → get_task 2 1 db ≡ none)
    × (is_some (get_result 1 1 db) ≡ true → get_result 2 1 db ≡ none)
    × (is_some (list_results 1 10 db) ≡ true → list_results 2 10 db ≡ none)
reads_are_private_example =
    reads_are_private 1 2 1 1 10 db ((omega arith, tt), (tt, tt)) (omega arith)

-- A text holds a keyword when they are the same number.
abbrev holds : ℕ → ℕ → Bool
holds k text = k == text

abbrev outcomes : List Outcome
outcomes =
    failure_at 100 4
    ∷ failure_at 200 4
    ∷ success_at 300
    ∷ failure_at 400 6
    ∷ failure_at 500 20
    ∷ failure_at 600 1
    ∷ []

abbrev monitor : Monitor Writes
monitor = record { streaks = []; succeeded = 0; failures = []; abnormal = [] }

memory_is_out : classify_failure holds 5 ≡ memory
unfolding classify_failure
memory_is_out = refl

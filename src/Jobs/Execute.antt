-- ===== src/Jobs/Execute.antt =====
-- `execute_backtest`: one attempt at a task. What the attempt meets outside is a parameter.
use stock_invest_system.Prelude.{
  ℕ, Bool, true, false, not, ◌&&◌, List, [], ◌∷◌, Option, none, some, ◌==◌, if◌then◌else◌, is_some,
}
use stock_invest_system.Jobs.Store.{
  running, success, is_success, BacktestTask, TradingStrategy, Db, find_strategy, get_task,
  update_task, create_result, get_result_by_task, Session, get_session, flush, commit,
}

-- How the back-test of the bars ends: its figures, an error of the business (a fatal one, also when
-- the time is up), or any other exception.
pub data RunEnding (M : Type 0) : Type 0 where
  finished : M → RunEnding M
  stopped : ℕ → RunEnding M
  broken : ℕ → RunEnding M

-- The loading of the bars: an exception, or whether there are any.
pub data Bars : Type 0 where
  loaded : Bool → Bars
  load_broken : ℕ → Bars

-- What one attempt meets: whether the symbol is there, the bars, the percentages that are reported
-- while it runs, and how it ends.
pub record Attempt (M : Type 0) : Type 0 where
  pub symbol_found : Bool
  pub bars : Bars
  pub reports : List ℕ
  pub ending : RunEnding M

-- What `execute_backtest` gives back: a new result, an old one, or an exception.
pub data Executed : Type 0 where
  fresh : Executed
  idempotent : Executed
  fatal : ℕ → Executed
  crashed : ℕ → Executed

pub record Run (M : Type 0) : Type 0 where
  pub executed : Executed
  pub db : Db M

-- The texts of the errors, by a number.
abbrev task_missing : ℕ
task_missing = 1

abbrev strategy_missing : ℕ
strategy_missing = 2

abbrev symbol_missing : ℕ
symbol_missing = 3

abbrev no_bars : ℕ
no_bars = 4

abbrev pub has_code : Option TradingStrategy → Bool
has_code none = false
has_code (some s) = not (s.code == 0)

module _ {M : Type 0} where
  -- `_progress`: flushed only.
  unfoldable pub run_reports : ℕ → List ℕ → Session M → Session M
  run_reports task_id [] s = s
  run_reports task_id (pct ∷ pcts) s =
      run_reports task_id pcts (flush (update_task task_id none (some pct) none) s)

  abbrev pub raise : Executed → Session M → Run M
  raise e s = record { executed = e; db = s.committed }

  -- The status before anything else is done.
  unfoldable pub start : ℕ → Db M → Session M
  start task_id db =
      commit (flush (update_task task_id (some running) (some 0) none) (get_session db))

  -- The result and the status are committed together.
  unfoldable pub finish : BacktestTask → M → Session M → Session M
  finish task figures s = commit (
      flush (update_task task.id (some success) (some 100) none)
        (flush (create_result task.id task.strategy_id figures) s))

  abbrev pub run_ended : BacktestTask → RunEnding M → Session M → Run M
  run_ended task (finished figures) s = record {
    executed = fresh;
    db = (finish task figures s).committed;
  }
  run_ended task (stopped e) s = raise (fatal e) s
  run_ended task (broken e) s = raise (crashed e) s

  abbrev pub run_loaded : BacktestTask → Attempt M → Bars → Session M → Run M
  run_loaded task a (load_broken e) s = raise (crashed e) s
  run_loaded task a (loaded false) s = raise (fatal no_bars) s
  run_loaded task a (loaded true) s = run_ended task a.ending (run_reports task.id a.reports s)

  -- From the status on.
  abbrev pub run_task : BacktestTask → Attempt M → Session M → Run M
  run_task task a s =
      if has_code (find_strategy task.strategy_id s.flushed.strategies)
      then (if a.symbol_found then run_loaded task a a.bars s else raise (fatal symbol_missing) s)
      else raise (fatal strategy_missing) s

  -- Whether there is nothing left to do: the task has succeeded and its result is there.
  abbrev pub is_finished : ℕ → BacktestTask → Db M → Bool
  is_finished task_id task db = is_success task.status && is_some (get_result_by_task task_id db)

  -- What is committed while the back-test runs.
  unfoldable pub begun : ℕ → Db M → Db M
  begun task_id db = elim (get_task task_id db) [
    | none ↦ db
    | some task ↦ if is_finished task_id task db then db else (start task_id db).committed
  ]

  unfoldable pub execute_backtest : ℕ → Attempt M → Db M → Run M
  execute_backtest task_id a db = elim (get_task task_id db) [
    | none ↦ record { executed = fatal task_missing; db = db }
    | some task ↦
        if is_finished task_id task db
        then record { executed = idempotent; db = db }
        else run_task task a (start task_id db)
  ]

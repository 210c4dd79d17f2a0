-- ===== src/Jobs/Progress.antt =====
-- What others read of a task while its back-test runs.
use stock_invest_system.Prelude.{ℕ, ◌≡◌, ap, ◌∙◌, arith, List, [], ◌∷◌, Option, none, some}
use stock_invest_system.Jobs.Store.{
  TaskStatus, running, BacktestTask, Db, find_task, updated, update_rows, get_task, update_task,
}
use stock_invest_system.Jobs.Execute.{start, run_reports}
use stock_invest_system.Jobs.Once.{run_reports_lem}

find_task-update_rows :
    (id : ℕ) (s : Option TaskStatus) (p e : Option ℕ) (ts : List BacktestTask) (t : BacktestTask)
    → find_task id ts ≡ some t
    → find_task id (update_rows id s p e ts) ≡ some (updated s p e t)
find_task-update_rows id s p e [] t h = ground arith
find_task-update_rows id s p e (x ∷ ts) t h = ground (arith, find_task-update_rows id s p e ts t)

module _ {M : Type 0} where
  -- Whatever percentages a back-test has reported, what is committed while it runs is the task as
  -- running with a progress of 0.
  pub progress_unseen :
      (id : ℕ) (pcts : List ℕ) (db : Db M) (t : BacktestTask)
      → get_task id db ≡ some t
      → get_task id (run_reports id pcts (start id db)).committed
        ≡ some (record t { status = running; progress = 0 })
  unfolding start update_task
  progress_unseen id pcts db t h =
      ap (get_task id) (run_reports_lem id pcts (start id db)).0
      ∙ find_task-update_rows id (some running) (some 0) none db.tasks t h

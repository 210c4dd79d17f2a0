-- ===== src/Jobs/Twice.antt =====
-- What happens when the log of a success cannot be written.
use stock_invest_system.Prelude.{
  ℕ, suc, ◌+◌, ◌≡◌, ◌<◌, refl, ap, ◌∙◌, arith, true, false, List, [], ◌∷◌, Option, Option-cases,
  inl, inr, lt→ltb,
}
use stock_invest_system.Quota.Zset.{SortedSet}
use stock_invest_system.Quota.Slots as Slots
use stock_invest_system.Jobs.Store.{BacktestTask, Db, get_task, update_task, create_result, Session}
use stock_invest_system.Jobs.Execute.{
  Attempt, fresh, Run, run_reports, start, finish, run_ended, run_loaded, run_task,
  execute_backtest, RunEnding, finished, stopped, broken, Bars, loaded, load_broken,
}
use stock_invest_system.Jobs.Worker.{
  World, Delivery, Kill, with_db, mark_task_queued, release_quota, run_backtest_task, deliver,
  retried, returned, before_start, while_running, after_execute, after_mark,
}
use stock_invest_system.Jobs.Redelivery.{release_quota-db}
use stock_invest_system.Jobs.Completes.{Completes, Runnable, completes_lem}
use stock_invest_system.Jobs.Once.{
  count_results, count_results-append, run_reports_lem, find_task-id,
}

module _ {M : Type 0} where
  -- A fresh result is one more than there was.
  abbrev OneMore : ℕ → Run M → ℕ → Type 0
  OneMore id r n = r.executed ≡ fresh → count_results id r.db.results ≡ suc n

  run_ended-OneMore :
      (id : ℕ) (task : BacktestTask) (e : RunEnding M) (s : Session M)
      → task.id ≡ id
      → OneMore id (run_ended task e s) (count_results id s.flushed.results)
  unfolding finish create_result update_task
  run_ended-OneMore id task (finished figures) s e h = ground (
    arith,
    count_results-append id s.flushed.results (record {
      id = s.flushed.next_result;
      task_id = task.id;
      strategy_id = task.strategy_id;
      figures = figures;
    }),
  )
  run_ended-OneMore id task (stopped x) s e h = ground arith
  run_ended-OneMore id task (broken x) s e h = ground arith

  run_loaded-OneMore :
      (id : ℕ) (task : BacktestTask) (a : Attempt M) (b : Bars) (s : Session M)
      → task.id ≡ id
      → OneMore id (run_loaded task a b s) (count_results id s.flushed.results)
  run_loaded-OneMore id task a (load_broken x) s e h = ground arith
  run_loaded-OneMore id task a (loaded false) s e h = ground arith
  run_loaded-OneMore id task a (loaded true) s e h =
      run_ended-OneMore id task a.ending (run_reports task.id a.reports s) e h
      ∙ ap (λ rs. suc (count_results id rs)) (run_reports_lem task.id a.reports s).1

  run_task-OneMore :
      (id : ℕ) (task : BacktestTask) (a : Attempt M) (s : Session M)
      → task.id ≡ id
      → OneMore id (run_task task a s) (count_results id s.flushed.results)
  run_task-OneMore id task a s e h = ground (arith, run_loaded-OneMore id task a a.bars s e)

  execute_backtest-OneMore :
      (id : ℕ) (a : Attempt M) (db : Db M)
      → OneMore id (execute_backtest id a db) (count_results id db.results)
  unfolding execute_backtest start update_task
  execute_backtest-OneMore id a db h = elim (Option-cases (get_task id db)) [
    | inl e ↦ ground (arith, e)
    | inr (t, e) ↦
        ground (arith, e, run_task-OneMore id t a (start id db) (find_task-id id db.tasks t e))
  ]

module _ {M Z : Type 0} (d : SortedSet Z) (c : Slots.Settings) (max_retries : ℕ) where
  module _ (id : ℕ) (token : Option ℕ) where
    unlogged_retried :
        (a : Delivery M) (retries : ℕ) (w : World M Z)
        → a.log_start ≡ true
        → a.log_success ≡ false
        → a.log_failed ≡ true
        → ((k : Kill) → a.kill k ≡ false)
        → retries < max_retries
        → (execute_backtest id a.attempt w.db).executed ≡ fresh
        → run_backtest_task d c max_retries id token a retries w ≡ record {
          ending = retried;
          world = with_db w (mark_task_queued id (execute_backtest id a.attempt w.db).db);
        }
    unfolding run_backtest_task
    unlogged_retried a retries w begins unlogged log alive more done =
        rw
          (
            alive before_start,
            begins,
            alive while_running,
            alive after_execute,
            done,
            unlogged,
            log,
            lt→ltb retries max_retries more,
            alive after_mark,
            run_backtest_task,
          )
          refl

    logged_returned :
        (a : Delivery M) (retries : ℕ) (w : World M Z)
        → a.log_start ≡ true
        → a.log_success ≡ true
        → ((k : Kill) → a.kill k ≡ false)
        → (execute_backtest id a.attempt w.db).executed ≡ fresh
        → run_backtest_task d c max_retries id token a retries w ≡ record {
          ending = returned;
          world =
              release_quota d c a.redis id token
                (with_db w (execute_backtest id a.attempt w.db).db);
        }
    unfolding run_backtest_task
    logged_returned a retries w begins log alive done =
        rw
          (
            alive before_start,
            begins,
            alive while_running,
            alive after_execute,
            done,
            log,
            run_backtest_task,
          )
          refl

    deliver_retried :
        (a : Delivery M) (rest : List (Delivery M)) (retries : ℕ) (w next : World M Z)
        → run_backtest_task d c max_retries id token a retries w
          ≡ record { ending = retried; world = next }
        → deliver d c max_retries id token (a ∷ rest) retries w
          ≡ deliver d c max_retries id token rest (suc retries) next
    unfolding deliver
    deliver_retried a rest retries w next e =
        let ended : (run_backtest_task d c max_retries id token a retries w).ending ≡ retried =
          ap (λ h. h.ending) e in
        rw (ended, deliver)
          (ap (λ h. deliver d c max_retries id token rest (suc retries) h.world) e)

    deliver_returned :
        (a : Delivery M) (rest : List (Delivery M)) (retries : ℕ) (w next : World M Z)
        → run_backtest_task d c max_retries id token a retries w
          ≡ record { ending = returned; world = next }
        → deliver d c max_retries id token (a ∷ rest) retries w
          ≡ record { ending = returned; world = next }
    unfolding deliver
    deliver_returned a rest retries w next e =
        let ended : (run_backtest_task d c max_retries id token a retries w).ending ≡ returned =
          ap (λ h. h.ending) e in
        rw (ended, deliver) e

    -- When an attempt at a task that has not succeeded runs to its end but the log of its success
    -- cannot be written, and a retry is left, the message is retried; if the retry runs to its end too
    -- and can log its success, the message returns with two results more for the task than there
    -- were.
    pub stored_twice :
        (a b : Delivery M) (retries : ℕ) (w : World M Z)
        → (a.log_start ≡ true) × (a.log_success ≡ false) × (a.log_failed ≡ true)
        → (b.log_start ≡ true) × (b.log_success ≡ true)
        → ((k : Kill) → a.kill k ≡ false)
        → ((k : Kill) → b.kill k ≡ false)
        → retries < max_retries
        → Completes a.attempt
        → Completes b.attempt
        → Runnable id w.db
        → let h = deliver d c max_retries id token (a ∷ b ∷ []) retries w in
          (h.ending ≡ returned)
          × (count_results id h.world.db.results ≡ count_results id w.db.results + 2)
    unfolding mark_task_queued update_task
    stored_twice a b retries w la lb ka kb more first second runnable =
        let between = with_db w (mark_task_queued id (execute_backtest id a.attempt w.db).db) in
        let stored = with_db between (execute_backtest id b.attempt between.db).db in
        let (one, again) = completes_lem id a.attempt w.db first runnable in
        let two = (completes_lem id b.attempt between.db second again).0 in
        let all =
          deliver_retried a (b ∷ []) retries w between
            (unlogged_retried a retries w la.0 la.1 la.2 ka more one)
          ∙ deliver_returned b [] (suc retries) between (release_quota d c b.redis id token stored)
              (logged_returned b (suc retries) between lb.0 lb.1 kb two) in
        rw all (
          ground (
            arith,
            execute_backtest-OneMore id a.attempt w.db one,
            execute_backtest-OneMore id b.attempt between.db two,
            release_quota-db d c b.redis id token stored,
          ))

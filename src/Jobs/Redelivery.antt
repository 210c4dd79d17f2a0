-- ===== src/Jobs/Redelivery.antt =====
-- The results of a task over the deliveries of its message.
use stock_invest_system.Prelude.{
  ℕ, suc, ◌≡◌, refl, ap, ◌∙◌, arith, Bool, true, false, List, [], ◌∷◌, Option, none, some, All,
  Option-cases, inl, inr,
}
use stock_invest_system.Quota.Zset.{SortedSet}
use stock_invest_system.Quota.Slots as Slots
use stock_invest_system.Jobs.Store.{
  queued, running, failed, BacktestTask, Db, get_task, update_task, Session,
}
use stock_invest_system.Jobs.Execute.{
  Attempt, Executed, fresh, idempotent, fatal, crashed, run_reports, start, run_ended, run_loaded,
  run_task, execute_backtest, RunEnding, finished, stopped, broken, Bars, loaded, load_broken,
}
use stock_invest_system.Jobs.Worker.{
  World, Delivery, Ending, with_db, mark_task_failed, mark_task_queued, release_quota,
  run_backtest_task, deliver, on_executed, on_exception, on_fatal, end_released, refused, gave_up,
  release_of,
}
use stock_invest_system.Jobs.Once.{
  is_done, is_done-update_rows, Sound, run_reports_lem, execute_backtest-Sound, begun-Sound,
}

abbrev is_error : Executed → Bool
is_error fresh = false
is_error idempotent = false
is_error (fatal e) = true
is_error (crashed e) = true

module _ {M : Type 0} where
  run_ended_error :
      (task : BacktestTask) (e : RunEnding M) (s : Session M)
      → is_error (run_ended task e s).executed ≡ true
      → (run_ended task e s).db ≡ s.committed
  run_ended_error task (finished figures) s h = ground arith
  run_ended_error task (stopped e) s h = refl
  run_ended_error task (broken e) s h = refl

  run_loaded_error :
      (task : BacktestTask) (a : Attempt M) (b : Bars) (s : Session M)
      → is_error (run_loaded task a b s).executed ≡ true
      → (run_loaded task a b s).db ≡ s.committed
  run_loaded_error task a (load_broken e) s h = refl
  run_loaded_error task a (loaded false) s h = refl
  run_loaded_error task a (loaded true) s h =
      run_ended_error task a.ending (run_reports task.id a.reports s) h
      ∙ (run_reports_lem task.id a.reports s).0

  run_task_error :
      (task : BacktestTask) (a : Attempt M) (s : Session M)
      → is_error (run_task task a s).executed ≡ true
      → (run_task task a s).db ≡ s.committed
  run_task_error task a s h = ground (arith, run_loaded_error task a a.bars s)

  start_running : (id : ℕ) (db : Db M) → is_done (get_task id (start id db).committed) ≡ false
  unfolding start update_task
  start_running id db = ground (arith, is_done-update_rows id (some running) (some 0) none db.tasks)

  -- An attempt that raises leaves the task unfinished.
  error_unfinished :
      (id : ℕ) (a : Attempt M) (db : Db M)
      → is_error (execute_backtest id a db).executed ≡ true
      → is_done (get_task id (execute_backtest id a db).db) ≡ false
  unfolding execute_backtest
  error_unfinished id a db h = elim (Option-cases (get_task id db)) [
    | inl e ↦ rw (e, execute_backtest) (ap is_done e)
    | inr (t, e) ↦ ground (arith, e, run_task_error t a (start id db), start_running id db)
  ]

  mark_task_failed-Sound :
      (id error : ℕ) (db : Db M)
      → is_done (get_task id db) ≡ false
      → Sound id db
      → Sound id (mark_task_failed id error db)
  unfolding mark_task_failed update_task
  mark_task_failed-Sound id error db f h =
      ground (arith, is_done-update_rows id (some failed) none (some error) db.tasks)

  mark_task_queued-Sound :
      (id : ℕ) (db : Db M)
      → is_done (get_task id db) ≡ false
      → Sound id db
      → Sound id (mark_task_queued id db)
  unfolding mark_task_queued update_task
  mark_task_queued-Sound id db f h =
      ground (arith, is_done-update_rows id (some queued) (some 0) none db.tasks)

module _ {M Z : Type 0} (d : SortedSet Z) (c : Slots.Settings) where
  release_of-db :
      (up : Bool) (token : ℕ) (o : Option ℕ) (w : World M Z)
      → (release_of d c up token o w).db ≡ w.db
  release_of-db up token none w = refl
  release_of-db up token (some user_id) w = refl

  pub release_quota-db :
      (up : Bool) (id : ℕ) (token : Option ℕ) (w : World M Z)
      → (release_quota d c up id token w).db ≡ w.db
  unfolding release_quota
  release_quota-db up id none w = refl
  release_quota-db up id (some token) w = release_of-db up token _ w

module _ {M Z : Type 0} (d : SortedSet Z) (c : Slots.Settings) (max_retries : ℕ) where
  module _ (id : ℕ) (token : Option ℕ) where
    end_released-Sound :
        (a : Delivery M) (e : Ending) (w : World M Z)
        → Sound id w.db
        → Sound id (end_released d c max_retries id token a e w).world.db
    end_released-Sound a e w h = ground (arith, release_quota-db d c a.redis id token w)

    on_exception-Sound :
        (a : Delivery M) (retries error : ℕ) (w : World M Z)
        → is_done (get_task id w.db) ≡ false
        → Sound id w.db
        → Sound id (on_exception d c max_retries id token a retries error w).world.db
    on_exception-Sound a retries error w f h = ground (
      arith,
      mark_task_queued-Sound id w.db f h,
      end_released-Sound a (gave_up error) (with_db w (mark_task_failed id error w.db))
          (mark_task_failed-Sound id error w.db f h),
    )

    on_fatal-Sound :
        (a : Delivery M) (error : ℕ) (w : World M Z)
        → is_done (get_task id w.db) ≡ false
        → Sound id w.db
        → Sound id (on_fatal d c max_retries id token a error w).world.db
    on_fatal-Sound a error w f h = ground (
      arith,
      mark_task_failed-Sound id error w.db f h,
      end_released-Sound a (refused error) (with_db w (mark_task_failed id error w.db))
          (mark_task_failed-Sound id error w.db f h),
    )

    on_executed-Sound :
        (a : Delivery M) (retries : ℕ) (e : Executed) (w : World M Z)
        → a.log_success ≡ true
        → (is_error e ≡ true → is_done (get_task id w.db) ≡ false)
        → Sound id w.db
        → Sound id (on_executed d c max_retries id token a retries e w).world.db
    on_executed-Sound a retries fresh w l f h =
        ground (arith, release_quota-db d c a.redis id token w)
    on_executed-Sound a retries idempotent w l f h =
        ground (arith, release_quota-db d c a.redis id token w)
    on_executed-Sound a retries (fatal e) w l f h = on_fatal-Sound a e w (f refl) h
    on_executed-Sound a retries (crashed e) w l f h = on_exception-Sound a retries e w (f refl) h

    run_backtest_task-Sound :
        (a : Delivery M) (retries : ℕ) (w : World M Z)
        → a.log_success ≡ true
        → Sound id w.db
        → Sound id (run_backtest_task d c max_retries id token a retries w).world.db
    unfolding run_backtest_task
    run_backtest_task-Sound a retries w l h =
        let run = execute_backtest id a.attempt w.db in
        let sound = execute_backtest-Sound id a.attempt w.db h in
        ground (
          arith,
          begun-Sound id w.db h,
          sound,
          on_executed-Sound a retries run.executed (with_db w run.db) l
              (error_unfinished id a.attempt w.db) sound,
        )

    -- However often the message of a task is delivered, and wherever its worker is killed, the task
    -- has one result when its status is success and none otherwise, if it was so before, provided
    -- that the log of a success can be written.
    pub deliver-Sound :
        (deliveries : List (Delivery M)) (retries : ℕ) (w : World M Z)
        → All (λ a. a.log_success ≡ true) deliveries
        → Sound id w.db
        → Sound id (deliver d c max_retries id token deliveries retries w).world.db
    unfolding deliver
    deliver-Sound [] retries w l h = h
    deliver-Sound (a ∷ rest) retries w l h =
        let here = run_backtest_task-Sound a retries w l.0 h in
        let next = (run_backtest_task d c max_retries id token a retries w).world in
        ground (
          arith,
          here,
          deliver-Sound rest (suc retries) next l.1 here,
          deliver-Sound rest retries next l.1 here,
        )

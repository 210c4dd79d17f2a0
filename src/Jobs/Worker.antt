-- ===== src/Jobs/Worker.antt =====
-- The Celery task of worker/tasks/backtest_tasks.py: one delivery of the message of a task, and the
-- deliveries of one message up to its end. The notification and the monitor's counters, which come
-- after a commit and whose failures are swallowed, are left out.
use stock_invest_system.Prelude.{
  ℕ, suc, Bool, List, [], ◌∷◌, Option, none, some, ◌==◌, ltb, if◌then◌else◌,
}
use stock_invest_system.Quota.Zset.{SortedSet}
use stock_invest_system.Quota.Slots as Slots
use stock_invest_system.Jobs.Store.{
  queued, failed, BacktestTask, Db, find_strategy, get_task, update_task, get_session, flush,
  commit,
}
use stock_invest_system.Jobs.Execute.{
  Attempt, Executed, fresh, idempotent, fatal, crashed, begun, execute_backtest,
}

-- What is committed, and the slots of each user in Redis.
pub record World (M Z : Type 0) : Type 0 where
  pub db : Db M
  pub slots : ℕ → Z

-- Where the worker may be killed: before the status is set, while the back-test runs, after the last
-- commit of `execute_backtest`, and after the mark that follows an error.
pub data Kill : Type 0 where
  before_start : Kill
  while_running : Kill
  after_execute : Kill
  after_mark : Kill

-- What one delivery meets: its attempt, whether each of the writes of `_log` works, whether Redis is
-- in reach, and where the worker is killed.
pub record Delivery (M : Type 0) : Type 0 where
  pub attempt : Attempt M
  pub log_start : Bool
  pub log_success : Bool
  pub log_failed : Bool
  pub redis : Bool
  pub kill : Kill → Bool

-- How a delivery ends: it returns, raises the error of the business, asks for a retry, gives up,
-- raises because a write of the log failed, or is killed.
pub data Ending : Type 0 where
  returned : Ending
  refused : ℕ → Ending
  retried : Ending
  gave_up : ℕ → Ending
  unlogged : Ending
  killed : Ending

pub record Handled (M Z : Type 0) : Type 0 where
  pub ending : Ending
  pub world : World M Z

-- The text of the error of a write of the log.
abbrev log_error : ℕ
log_error = 5

module _ {M : Type 0} where
  unfoldable pub mark_task_failed : ℕ → ℕ → Db M → Db M
  mark_task_failed task_id error db =
      (commit
        (flush (update_task task_id (some failed) none (some error)) (get_session db))).committed

  unfoldable pub mark_task_queued : ℕ → Db M → Db M
  mark_task_queued task_id db =
      (commit (flush (update_task task_id (some queued) (some 0) none) (get_session db))).committed

  -- The user of the task's strategy.
  abbrev pub owner_of : Db M → Option BacktestTask → Option ℕ
  owner_of db none = none
  owner_of db (some task) = elim (find_strategy task.strategy_id db.strategies) [
    | none ↦ none
    | some s ↦ some s.user_id
  ]

module _ {M Z : Type 0} where
  abbrev pub with_db : World M Z → Db M → World M Z
  with_db w db = record w { db = db }

module _ {M Z : Type 0} (d : SortedSet Z) (c : Slots.Settings) where
  abbrev pub release_of : Bool → ℕ → Option ℕ → World M Z → World M Z
  release_of up token none w = w
  release_of up token (some user_id) w = record w {
    slots = λ u. if u == user_id then Slots.release d c up token (w.slots u) else w.slots u;
  }

  unfoldable pub release_quota : Bool → ℕ → Option ℕ → World M Z → World M Z
  release_quota up task_id none w = w
  release_quota up task_id (some token) w =
      release_of up token (owner_of w.db (get_task task_id w.db)) w

module _ {M Z : Type 0} (d : SortedSet Z) (c : Slots.Settings) (max_retries : ℕ) where
  module _ (task_id : ℕ) (token : Option ℕ) where
    abbrev pub end_with : Ending → World M Z → Handled M Z
    end_with e w = record { ending = e; world = w }

    -- Release, unless the worker is killed after the mark.
    abbrev pub end_released : Delivery M → Ending → World M Z → Handled M Z
    end_released a e w =
        if a.kill after_mark
        then end_with killed w
        else end_with e (release_quota d c a.redis task_id token w)

    abbrev pub retry_marked : Delivery M → World M Z → Handled M Z
    retry_marked a w = if a.kill after_mark then end_with killed w else end_with retried w

    -- `except Exception`: nothing is marked when the error itself cannot be logged.
    abbrev pub on_exception : Delivery M → ℕ → ℕ → World M Z → Handled M Z
    on_exception a retries error w =
        if a.log_failed
        then (if ltb retries max_retries
            then retry_marked a (with_db w (mark_task_queued task_id w.db))
            else end_released a (gave_up error) (with_db w (mark_task_failed task_id error w.db)))
        else end_with unlogged w

    abbrev pub on_success : Delivery M → ℕ → World M Z → Handled M Z
    on_success a retries w =
        if a.log_success
        then end_with returned (release_quota d c a.redis task_id token w)
        else on_exception a retries log_error w

    -- `except BacktestFatalError`: the mark comes before the log.
    abbrev pub on_fatal : Delivery M → ℕ → World M Z → Handled M Z
    on_fatal a error w =
        let marked = with_db w (mark_task_failed task_id error w.db) in
        if a.log_failed then end_released a (refused error) marked else end_with unlogged marked

    abbrev pub on_executed : Delivery M → ℕ → Executed → World M Z → Handled M Z
    on_executed a retries fresh w = on_success a retries w
    on_executed a retries idempotent w = on_success a retries w
    on_executed a retries (fatal e) w = on_fatal a e w
    on_executed a retries (crashed e) w = on_exception a retries e w

    unfoldable pub run_backtest_task : Delivery M → ℕ → World M Z → Handled M Z
    run_backtest_task a retries w =
        if a.kill before_start
        then end_with killed w
        else (if a.log_start
            then (if a.kill while_running
                then end_with killed (with_db w (begun task_id w.db))
                else let run = execute_backtest task_id a.attempt w.db in
                  (if a.kill after_execute
                    then end_with killed (with_db w run.db)
                    else on_executed a retries run.executed (with_db w run.db)))
            else end_with unlogged w)

    -- The deliveries of one message: a retry is a delivery with one retry more, and a message whose
    -- worker was killed comes again as it was, if it does. The list may end before the message does.
    unfoldable pub deliver : List (Delivery M) → ℕ → World M Z → Handled M Z
    deliver [] retries w = end_with retried w
    deliver (a ∷ rest) retries w =
        let h = run_backtest_task a retries w in
        elim h.ending [
          | retried ↦ deliver rest (suc retries) h.world
          | killed ↦ deliver rest retries h.world
          | e ↦ h
        ]

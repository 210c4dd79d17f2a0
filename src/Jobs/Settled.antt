-- ===== src/Jobs/Settled.antt =====
-- That the message of a task comes to an end, and what it leaves behind.
use stock_invest_system.Prelude.{
  ℕ, suc, ◌+◌, ◌≡◌, ◌≤◌, ◌<◌, refl, arith, Bool, true, false, List, [], ◌∷◌, none, some, All,
  Bool-cases, inl, inr, ltb, length, ◌⊎◌,
}
use stock_invest_system.Quota.Zset.{SortedSet}
use stock_invest_system.Quota.Slots as Slots
use stock_invest_system.Jobs.Store.{queued, failed, get_task, update_task}
use stock_invest_system.Jobs.Execute.{
  Executed, fresh, idempotent, fatal, crashed, Run, execute_backtest,
}
use stock_invest_system.Jobs.Worker.{
  World, Delivery, Kill, Ending, Handled, with_db, mark_task_failed, mark_task_queued,
  release_quota, run_backtest_task, deliver, on_executed, on_exception, end_released, retried,
  returned, refused, gave_up, after_mark, after_execute, while_running, before_start,
}
use stock_invest_system.Jobs.Redelivery.{release_quota-db}
use stock_invest_system.Jobs.Ending.{
  is_terminal, is_terminal-update_rows, some_of_strategy, Owned, Left, owner_of-Owned,
  update_task-Owned, execute_backtest-Left,
}

-- A delivery whose writes to the log work, with Redis in reach, and whose worker is not killed.
abbrev pub Works : {M : Type 0} → Delivery M → Type 0
Works a =
    (a.log_start ≡ true)
    × (a.log_success ≡ true)
    × (a.log_failed ≡ true)
    × (a.redis ≡ true)
    × ((k : Kill) → a.kill k ≡ false)

abbrev pub is_over : Ending → Bool
is_over returned = true
is_over (refused e) = true
is_over (gave_up e) = true
is_over e = false

module _ {M Z : Type 0} (d : SortedSet Z) (c : Slots.Settings) (max_retries : ℕ) where
  module _ (id n u token : ℕ) where
    -- The message is over, the task is success or failed, and the slot is free.
    abbrev pub Settled : Handled M Z → Type 0
    Settled h =
        (is_over h.ending ≡ true)
        × (is_terminal (get_task id h.world.db) ≡ true)
        × (d.score (h.world.slots u) token ≡ none)

    release_quota-free :
        (w : World M Z)
        → Owned id n u w.db
        → d.score ((release_quota d c true id (some token) w).slots u) token ≡ none
    unfolding release_quota Slots.release
    release_quota-free w h =
        rw (owner_of-Owned id n u w.db h) (ground (arith, d.score_zrem token (w.slots u) token))

    end_released-Settled :
        (a : Delivery M) (e : Ending) (w : World M Z)
        → Works a
        → is_over e ≡ true
        → Owned id n u w.db
        → is_terminal (get_task id w.db) ≡ true
        → Settled (end_released d c max_retries id (some token) a e w)
    end_released-Settled a e w ok over h done = ground (
      arith,
      ok.4 after_mark,
      release_quota-free w h,
      release_quota-db d c true id (some token) w,
    )

    mark_task_failed-Owned :
        (error : ℕ) (w : World M Z)
        → Owned id n u w.db
        → Owned id n u (mark_task_failed id error w.db)
          × (is_terminal (get_task id (mark_task_failed id error w.db)) ≡ true)
    unfolding mark_task_failed update_task
    mark_task_failed-Owned error w h = (
      update_task-Owned id n u (some failed) none (some error) w.db h,
      is_terminal-update_rows id failed none (some error) w.db.tasks
          (some_of_strategy (get_task id w.db) n h.0),
    )

    mark_task_queued-Owned :
        (w : World M Z) → Owned id n u w.db → Owned id n u (mark_task_queued id w.db)
    unfolding mark_task_queued
    mark_task_queued-Owned w h = update_task-Owned id n u (some queued) (some 0) none w.db h

    -- After a delivery the message is settled, or it is retried with a retry left.
    abbrev Stepped : ℕ → Handled M Z → Type 0
    Stepped retries h =
        Settled h ⊎ ((h.ending ≡ retried) × (retries < max_retries) × Owned id n u h.world.db)

    fail-Settled :
        (a : Delivery M) (e : Ending) (error : ℕ) (w : World M Z)
        → Works a
        → is_over e ≡ true
        → Owned id n u w.db
        → Settled (
            end_released d c max_retries id
              (some token)
              a
              e
              (with_db w (mark_task_failed id error w.db)))
    fail-Settled a e error w ok over h =
        let m = mark_task_failed-Owned error w h in
        end_released-Settled a e (with_db w (mark_task_failed id error w.db)) ok over m.0 m.1

    on_exception-Stepped :
        (a : Delivery M) (retries error : ℕ) (w : World M Z)
        → Works a
        → Owned id n u w.db
        → Stepped retries (on_exception d c max_retries id (some token) a retries error w)
    on_exception-Stepped a retries error w ok h = elim (Bool-cases (ltb retries max_retries)) [
      | inl more ↦ inr (
        ground (arith, ok.4 after_mark),
        ground arith,
        ground (arith, ok.4 after_mark, mark_task_queued-Owned w h),
      )
      | inr last ↦ inl (rw (ok.2, last) (fail-Settled a (gave_up error) error w ok refl h))
    ]

    on_executed-Stepped :
        (a : Delivery M) (retries : ℕ) (r : Run M) (w : World M Z)
        → Works a
        → Left id n u r
        → Stepped retries
            (on_executed d c max_retries id (some token) a retries r.executed (with_db w r.db))
    on_executed-Stepped a retries r w ok h = go r.executed h.1
      where
        go :
            (e : Executed)
            → (elim e [ fresh ↦ true | idempotent ↦ true | x ↦ false ] ≡ true
                → is_terminal (get_task id r.db) ≡ true)
            → Stepped retries
                (on_executed d c max_retries id (some token) a retries e (with_db w r.db))
        go fresh k = inl (
            ground (
              arith,
              k refl,
              release_quota-free (with_db w r.db) h.0,
              release_quota-db d c true id (some token) (with_db w r.db),
            ))
        go idempotent k = inl (
            ground (
              arith,
              k refl,
              release_quota-free (with_db w r.db) h.0,
              release_quota-db d c true id (some token) (with_db w r.db),
            ))
        go (fatal x) k = inl (rw ok.2 (fail-Settled a (refused x) x (with_db w r.db) ok refl h.0))
        go (crashed x) k = on_exception-Stepped a retries x (with_db w r.db) ok h.0

    run_backtest_task-Stepped :
        (a : Delivery M) (retries : ℕ) (w : World M Z)
        → Works a
        → Owned id n u w.db
        → Stepped retries (run_backtest_task d c max_retries id (some token) a retries w)
    unfolding run_backtest_task
    run_backtest_task-Stepped a retries w ok h =
        rw (ok.4 before_start, ok.0, ok.4 while_running, ok.4 after_execute, run_backtest_task)
          (on_executed-Stepped a retries (execute_backtest id a.attempt w.db) w ok
            (execute_backtest-Left id n u a.attempt w.db h))

    -- The message of a task of a user's strategy is over after at most as many deliveries as there
    -- are retries left and one, when the log can be written, Redis is in reach and no worker is
    -- killed: the task is then success or failed, and the user's slot is free.
    pub deliver-Settled :
        (deliveries : List (Delivery M)) (retries : ℕ) (w : World M Z)
        → All Works deliveries
        → Owned id n u w.db
        → max_retries < retries + length deliveries
        → retries ≤ max_retries
        → Settled (deliver d c max_retries id (some token) deliveries retries w)
    unfolding deliver
    deliver-Settled [] retries w ok h enough le = ground arith
    deliver-Settled (a ∷ rest) retries w ok h enough le =
        elim (run_backtest_task-Stepped a retries w ok.0 h) [
          | inl s ↦ ground (arith, s)
          | inr (e, lt, o) ↦
              rw (e, deliver)
                (deliver-Settled rest (suc retries)
                  (run_backtest_task d c max_retries id (some token) a retries w).world ok.1 o
                  (omega arith) (omega arith))
        ]

-- ===== src/Jobs/Ending.antt =====
-- The task after one attempt: its status, its strategy and its strategy's user.
use stock_invest_system.Prelude.{
  ℕ, ◌≡◌, refl, sym, ◌∙◌, arith, Bool, true, false, List, [], ◌∷◌, Option, none, some, is_some,
  Option-cases, Bool-cases, inl, inr, subst, subst⁻¹,
}
use stock_invest_system.Jobs.Store.{
  TaskStatus, running, success, failed, BacktestTask, Db, find_task, update_rows, get_task,
  update_task, create_result, Session, flush, find_strategy,
}
use stock_invest_system.Jobs.Execute.{
  Attempt, fresh, idempotent, Run, run_reports, start, finish, run_ended, run_loaded, run_task,
  is_finished, execute_backtest, RunEnding, finished, stopped, broken, Bars, loaded, load_broken,
}
use stock_invest_system.Jobs.Worker.{owner_of}

abbrev pub is_terminal : Option BacktestTask → Bool
is_terminal none = false
is_terminal (some t) = elim t.status [ success ↦ true | failed ↦ true | s ↦ false ]

abbrev pub strategy_of : Option BacktestTask → Option ℕ
strategy_of none = none
strategy_of (some t) = some t.strategy_id

strategy_of-update_rows :
    (id : ℕ) (s : Option TaskStatus) (p e : Option ℕ) (ts : List BacktestTask)
    → strategy_of (find_task id (update_rows id s p e ts)) ≡ strategy_of (find_task id ts)
strategy_of-update_rows id s p e [] = refl
strategy_of-update_rows id s p e (t ∷ ts) = ground (arith, strategy_of-update_rows id s p e ts)

pub is_terminal-update_rows :
    (id : ℕ) (s : TaskStatus) (p e : Option ℕ) (ts : List BacktestTask)
    → is_some (find_task id ts) ≡ true
    → is_terminal (find_task id (update_rows id (some s) p e ts))
      ≡ elim s [ success ↦ true | failed ↦ true | r ↦ false ]
is_terminal-update_rows id s p e [] h = ground arith
is_terminal-update_rows id s p e (t ∷ ts) h = ground (arith, is_terminal-update_rows id s p e ts)

pub some_of_strategy : (o : Option BacktestTask) (n : ℕ) → strategy_of o ≡ some n → is_some o ≡ true
some_of_strategy none n h = ground arith
some_of_strategy (some t) n h = refl

find_task-same :
    (id : ℕ) (ts : List BacktestTask) (t : BacktestTask) → find_task id ts ≡ some t → t.id ≡ id
find_task-same id [] t h = ground arith
find_task-same id (x ∷ ts) t h = ground (arith, find_task-same id ts t)

module _ {M : Type 0} where
  -- The task is there, of a strategy of a user.
  abbrev pub Owned : ℕ → ℕ → ℕ → Db M → Type 0
  Owned id strategy_id user_id db =
      (strategy_of (get_task id db) ≡ some strategy_id)
      × (elim (find_strategy strategy_id db.strategies) [ none ↦ none | some s ↦ some s.user_id ]
          ≡ some user_id)

  pub owner_of-Owned :
      (id strategy_id user_id : ℕ) (db : Db M)
      → Owned id strategy_id user_id db
      → owner_of db (get_task id db) ≡ some user_id
  owner_of-Owned id strategy_id user_id db h = ground arith

  pub update_task-Owned :
      (id n u : ℕ) (s : Option TaskStatus) (p e : Option ℕ) (db : Db M)
      → Owned id n u db
      → Owned id n u (update_task id s p e db)
  unfolding update_task
  update_task-Owned id n u s p e db h = (strategy_of-update_rows id s p e db.tasks ∙ h.0, h.1)

  start-Owned : (id n u : ℕ) (db : Db M) → Owned id n u db → Owned id n u (start id db).committed
  unfolding start
  start-Owned id n u db h = update_task-Owned id n u (some running) (some 0) none db h

  start_flushed-Owned :
      (id n u : ℕ) (db : Db M) → Owned id n u db → Owned id n u (start id db).flushed
  unfolding start
  start_flushed-Owned id n u db h = update_task-Owned id n u (some running) (some 0) none db h

  run_reports-Owned :
      (id task_id n u : ℕ) (pcts : List ℕ) (s : Session M)
      → id ≡ task_id
      → Owned id n u s.committed × Owned id n u s.flushed
      → Owned id n u (run_reports task_id pcts s).committed
        × Owned id n u (run_reports task_id pcts s).flushed
  unfolding run_reports
  run_reports-Owned id task_id n u [] s e h = h
  run_reports-Owned id task_id n u (pct ∷ pcts) s e h =
      run_reports-Owned id task_id n u pcts (flush (update_task task_id none (some pct) none) s) e (
        h.0,
        subst (λ i. Owned id n u (update_task i none (some pct) none s.flushed)) e
            (update_task-Owned id n u none (some pct) none s.flushed h.1),
      )

  finish-Owned :
      (id n u : ℕ) (task : BacktestTask) (figures : M) (s : Session M)
      → task.id ≡ id
      → Owned id n u s.flushed
      → Owned id n u (finish task figures s).committed
  unfolding finish create_result
  finish-Owned id n u task figures s e h =
      let stored = create_result task.id task.strategy_id figures s.flushed in
      subst⁻¹ (λ i. Owned id n u (update_task i (some success) (some 100) none stored)) e
        (update_task-Owned id n u (some success) (some 100) none stored h)

  -- The status after an attempt: only a result that was stored, or was there, makes it success.
  abbrev pub Left : ℕ → ℕ → ℕ → Run M → Type 0
  Left id n u r =
      Owned id n u r.db
      × (elim r.executed [ fresh ↦ true | idempotent ↦ true | e ↦ false ] ≡ true
          → is_terminal (get_task id r.db) ≡ true)

  run_ended-Left :
      (id n u : ℕ) (task : BacktestTask) (e : RunEnding M) (s : Session M)
      → task.id ≡ id
      → Owned id n u s.committed × Owned id n u s.flushed
      → Left id n u (run_ended task e s)
  unfolding finish create_result update_task
  run_ended-Left id n u task (finished figures) s e h = (
    finish-Owned id n u task figures s e h.1,
    λ k. ground (
      arith,
      is_terminal-update_rows id success (some 100) none s.flushed.tasks
          (some_of_strategy (get_task id s.flushed) n h.1.0),
    ),
  )
  run_ended-Left id n u task (stopped x) s e h = (h.0, λ k. ground arith)
  run_ended-Left id n u task (broken x) s e h = (h.0, λ k. ground arith)

  run_loaded-Left :
      (id n u : ℕ) (task : BacktestTask) (a : Attempt M) (b : Bars) (s : Session M)
      → task.id ≡ id
      → Owned id n u s.committed × Owned id n u s.flushed
      → Left id n u (run_loaded task a b s)
  run_loaded-Left id n u task a (load_broken x) s e h = (h.0, λ k. ground arith)
  run_loaded-Left id n u task a (loaded false) s e h = (h.0, λ k. ground arith)
  run_loaded-Left id n u task a (loaded true) s e h =
      run_ended-Left id n u task a.ending (run_reports task.id a.reports s) e
        (run_reports-Owned id task.id n u a.reports s (sym e) h)

  run_task-Left :
      (id n u : ℕ) (task : BacktestTask) (a : Attempt M) (s : Session M)
      → task.id ≡ id
      → Owned id n u s.committed × Owned id n u s.flushed
      → Left id n u (run_task task a s)
  run_task-Left id n u task a s e h =
      let rest = run_loaded-Left id n u task a a.bars s e h in ground (arith, h, rest)

  pub execute_backtest-Left :
      (id n u : ℕ) (a : Attempt M) (db : Db M)
      → Owned id n u db
      → Left id n u (execute_backtest id a db)
  unfolding execute_backtest
  execute_backtest-Left id n u a db h = elim (Option-cases (get_task id db)) [
    | inl e ↦ ground (arith, e)
    | inr (t, e) ↦ elim (Bool-cases (is_finished id t db)) [
      | inl f ↦ rw (e, f, execute_backtest) (h, λ k. ground arith)
      | inr f ↦
          rw (e, f, execute_backtest)
            (let s = start-Owned id n u db h in
              run_task-Left id n u t a (start id db) (find_task-same id db.tasks t e)
                (s, start_flushed-Owned id n u db h))
    ]
  ]

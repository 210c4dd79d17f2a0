-- ===== src/Jobs/Completes.antt =====
-- Attempts that run to their end, and what they leave of the task and the strategies.
use stock_invest_system.Prelude.{
  ℕ, ◌≡◌, refl, ap, ◌∙◌, arith, true, false, List, [], ◌∷◌, Option, none, some, Option-cases, inl,
  inr,
}
use stock_invest_system.Jobs.Store.{
  TaskStatus, queued, running, success, is_success, BacktestTask, Db, find_task, update_rows,
  find_strategy, get_task, update_task, create_result, Session, flush,
}
use stock_invest_system.Jobs.Execute.{
  Attempt, fresh, run_reports, start, finish, execute_backtest, finished, loaded, has_code,
}
use stock_invest_system.Jobs.Worker.{mark_task_queued}
use stock_invest_system.Jobs.Once.{is_done, status_after, is_done-update_rows}

abbrev pub strategy_of : Option BacktestTask → Option ℕ
strategy_of none = none
strategy_of (some t) = some t.strategy_id

strategy_of-update_rows :
    (id : ℕ) (s : Option TaskStatus) (p e : Option ℕ) (i : ℕ) (ts : List BacktestTask)
    → strategy_of (find_task i (update_rows id s p e ts)) ≡ strategy_of (find_task i ts)
strategy_of-update_rows id s p e i [] = refl
strategy_of-update_rows id s p e i (t ∷ ts) = ground (arith, strategy_of-update_rows id s p e i ts)

module _ {M : Type 0} where
  -- The symbol is there, there are bars, and the back-test has a result.
  abbrev pub Completes : Attempt M → Type 0
  Completes a =
      (a.symbol_found ≡ true) × (a.bars ≡ loaded true) × ((m : M) × (a.ending ≡ finished m))

  -- The task is there, has not succeeded, and its strategy has code.
  abbrev pub Runnable : ℕ → Db M → Type 0
  Runnable id db =
      (strategy : ℕ) × (strategy_of (get_task id db) ≡ some strategy)
      × (is_done (get_task id db) ≡ false)
      × (has_code (find_strategy strategy db.strategies) ≡ true)

  run_reports-strategies :
      (id i : ℕ) (pcts : List ℕ) (s : Session M)
      → ((run_reports id pcts s).flushed.strategies ≡ s.flushed.strategies)
        × (strategy_of (get_task i (run_reports id pcts s).flushed)
            ≡ strategy_of (get_task i s.flushed))
  unfolding run_reports update_task
  run_reports-strategies id i [] s = (refl, refl)
  run_reports-strategies id i (pct ∷ pcts) s =
      let rest = run_reports-strategies id i pcts (flush (update_task id none (some pct) none) s) in
      (rest.0, rest.1 ∙ strategy_of-update_rows id none (some pct) none i s.flushed.tasks)

  completed :
      (id : ℕ) (a : Attempt M) (db : Db M) (t : BacktestTask) (m : M)
      → get_task id db ≡ some t
      → is_success t.status ≡ false
      → has_code (find_strategy t.strategy_id db.strategies) ≡ true
      → a.symbol_found ≡ true
      → a.bars ≡ loaded true
      → a.ending ≡ finished m
      → execute_backtest id a db ≡ record {
        executed = fresh;
        db = (finish t m (run_reports t.id a.reports (start id db))).committed;
      }
  unfolding execute_backtest start update_task
  completed id a db t m e unfinished code symbol bars ending = ground (arith, e)

  finish-strategies :
      (i : ℕ) (t : BacktestTask) (m : M) (s : Session M)
      → ((finish t m s).committed.strategies ≡ s.flushed.strategies)
        × (strategy_of (get_task i (finish t m s).committed) ≡ strategy_of (get_task i s.flushed))
  unfolding finish update_task create_result
  finish-strategies i t m s =
      (refl, strategy_of-update_rows t.id (some success) (some 100) none i s.flushed.tasks)

  start-strategies :
      (id i : ℕ) (db : Db M)
      → ((start id db).flushed.strategies ≡ db.strategies)
        × (strategy_of (get_task i (start id db).flushed) ≡ strategy_of (get_task i db))
  unfolding start update_task
  start-strategies id i db =
      (refl, strategy_of-update_rows id (some running) (some 0) none i db.tasks)

  -- An attempt that runs to its end gives a new result, and the task can be run again as soon as it is
  -- marked as queued.
  pub completes_lem :
      (id : ℕ) (a : Attempt M) (db : Db M)
      → Completes a
      → Runnable id db
      → ((execute_backtest id a db).executed ≡ fresh)
        × Runnable id (mark_task_queued id (execute_backtest id a db).db)
  unfolding mark_task_queued update_task
  completes_lem id a db (symbol, bars, (m, ending)) (strategy, found, unfinished, code) =
      elim (Option-cases (get_task id db)) [
        | inl e ↦ ground (arith, e)
        | inr (t, e) ↦
            let same : t.strategy_id ≡ strategy = ground arith in
            let s = run_reports t.id a.reports (start id db) in
            let x =
              completed id a db t m e (ground arith)
                (ap (λ i. has_code (find_strategy i db.strategies)) same ∙ code) symbol bars
                ending in
            let f = finish-strategies id t m s in
            let r = run_reports-strategies t.id id a.reports (start id db) in
            let b = start-strategies id id db in
            let kept = f.1 ∙ (r.1 ∙ (b.1 ∙ found)) in
            let strategies = f.0 ∙ (r.0 ∙ b.0) in
            rw x (
              refl,
              (
                strategy,
                strategy_of-update_rows id (some queued) (some 0) none id
                      (finish t m s).committed.tasks
                    ∙ kept,
                is_done-update_rows id (some queued) (some 0) none (finish t m s).committed.tasks
                    ∙ not_success _,
                ap (λ ss. has_code (find_strategy strategy ss)) strategies ∙ code,
              ),
            )
      ]
    where
      not_success : (o : Option BacktestTask) → status_after (some queued) o ≡ false
      not_success o = ground arith

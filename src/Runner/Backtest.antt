-- ===== src/Runner/Backtest.antt =====
-- `execute_backtest` of services/backtest_service.py over the outcome of `run_isolated`.
use stock_invest_system.Prelude.{
  ℕ, ◌≡◌, ◌⊎◌, inl, inr, refl, sym, arith, Bool, true, false, List, Option, none, some, by_test,
  eq_of_some, subst,
}
use stock_invest_system.Runner.Child.{Message, Pipe, ran, EngineRun, Host, Limits, child_main}
use stock_invest_system.Runner.Process.{Process, Signals}
use stock_invest_system.Runner.Watch.{Round, Caller}
use stock_invest_system.Runner.Isolated.{
  Outcome, returned, runtime_error, resource_error, propagated, unfinished, run_isolated, ending_of,
  Computed, computed, uncomputed, saved,
}
use stock_invest_system.Runner.Relay.{Heard}
use stock_invest_system.Runner.Faithful.{Honest, run_isolated-Honest}
use stock_invest_system.Prelude.Int.{ℤ}
use stock_invest_system.Jobs.Once.{run_reports_lem}
use stock_invest_system.Jobs.Store.{BacktestTask, Db, get_task, find_strategy, Session}
use stock_invest_system.Jobs.Execute.{
  RunEnding, loaded, Attempt, Executed, fresh, idempotent, fatal, crashed, Run, is_finished,
  run_task, run_loaded, run_ended, run_reports, start, finish, has_code, execute_backtest,
}

module _ {R M : Type 0} (figures : R → Computed M) (saving : Option ℕ) (run : EngineRun R)
    (task : BacktestTask) (before s : Session M) where
  -- What an attempt that fails with this error, to be tried again, has met: the writing of the progress
  -- or the pipe raised it, or the computation of the figures, or the writing of the result.
  abbrev Broke : ℕ → Outcome R → Type 0
  Broke e (propagated x) = x ≡ e
  Broke e (returned r code peak l) = (figures r ≡ uncomputed e) ⊎ (saving ≡ some e)
  Broke e outcome = ⊥

  -- A new result is made of what the engine's run gave; otherwise nothing is committed after
  -- `before`.
  abbrev pub Earned : Outcome R → Executed → Db M → Type 0
  Earned outcome fresh db =
      (r : R) × (m : M) × (run.result ≡ ran r)
      × (figures r ≡ computed m)
      × (db ≡ (finish task m s).committed)
  Earned outcome (crashed e) db = Broke e outcome × (db ≡ before.committed)
  Earned outcome (fatal e) db = db ≡ before.committed
  Earned outcome idempotent db = ⊥

  module _ (same : s.committed ≡ before.committed) where
    saved-Earned :
        (r : R) (code : Option ℤ) (peak : ℕ) (l : Limits) (f : Computed M) (sv : Option ℕ)
        → run.result ≡ ran r
        → figures r ≡ f
        → saving ≡ sv
        → Earned
            (returned r code peak l)
            (run_ended task (saved sv f) s).executed
            (run_ended task (saved sv f) s).db
    saved-Earned r code peak l (computed m) none got e v = (r, m, got, e, refl)
    saved-Earned r code peak l (computed m) (some x) got e v = (inr v, same)
    saved-Earned r code peak l (uncomputed x) none got e v = (inl e, same)
    saved-Earned r code peak l (uncomputed x) (some y) got e v = (inl e, same)

    run_ended-Earned :
        (send : Pipe R) (outcome : Outcome R) (relayed : List ℕ) (e : RunEnding M)
        → Honest send run outcome relayed
        → ending_of figures saving outcome ≡ some e
        → Earned outcome (run_ended task e s).executed (run_ended task e s).db
    unfolding ending_of
    run_ended-Earned send (returned r code peak l) relayed e honest h =
        rw⁻¹ (eq_of_some h) (saved-Earned r code peak l (figures r) saving honest.0 refl refl)
    run_ended-Earned send (runtime_error x line) relayed e honest h = rw⁻¹ (eq_of_some h) same
    run_ended-Earned send (resource_error x) relayed e honest h = rw⁻¹ (eq_of_some h) same
    run_ended-Earned send (propagated x) relayed e honest h = rw⁻¹ (eq_of_some h) (refl, same)
    run_ended-Earned send unfinished relayed e honest h = ground (arith, h)

module _ {R M : Type 0} (figures : R → Computed M) (saving : Option ℕ) (run : EngineRun R) where
  module _ (task : BacktestTask) (a : Attempt M) (outcome : Outcome R) (s : Session M)
      (ended : Earned figures saving run task s
        (run_reports task.id a.reports s)
        outcome
        (run_ended task a.ending (run_reports task.id a.reports s)).executed
        (run_ended task a.ending (run_reports task.id a.reports s)).db) where
    abbrev EarnedRun : Run M → Type 0
    EarnedRun x =
        Earned figures saving run task s (run_reports task.id a.reports s) outcome x.executed x.db

    run_loaded-Earned : (has : Bool) → EarnedRun (run_loaded task a (loaded has) s)
    run_loaded-Earned true = ended
    run_loaded-Earned false = refl

    run_task-Earned : (has : Bool) → a.bars ≡ loaded has → EarnedRun (run_task task a s)
    run_task-Earned has bars =
        by_test EarnedRun (has_code (find_strategy task.strategy_id s.flushed.strategies))
          (λ code.
            by_test EarnedRun a.symbol_found
              (λ symbol.
                subst (λ b. EarnedRun (run_loaded task a b s)) (sym bars) (run_loaded-Earned has))
              (λ symbol. refl))
          (λ code. refl)

  -- An attempt at a task that is not finished, whose bars could be loaded and whose run is that of a
  -- child: whatever becomes of the child, a new result is committed only if the engine's run in the
  -- child has ended with a result, whose figures are then the task's result. In every other case all
  -- that is committed is that the task has begun; and the attempt fails in the way that is tried
  -- again only with what the writing of the progress or the pipe raised, or, after the child gave a
  -- result, with what the computation of the figures or the writing of the result did.
  pub execute_backtest-Earned :
      {P : Type 0} (o : Process P) (s : Signals) (c : Caller) (f : ℕ → Option ℕ) (h : Host)
      (send : Pipe R) (cpu_seconds memory_bytes : ℕ) (rest : List (Message R))
      (rounds : List (Round R)) (p : P) (id : ℕ) (a : Attempt M) (has : Bool) (task : BacktestTask)
      (db : Db M)
      → c.on_progress ≡ some f
      → Heard rest rounds (child_main h send run cpu_seconds memory_bytes)
      → a.bars ≡ loaded has
      → a.reports ≡ (run_isolated o s c rounds p).relayed
      → ending_of figures saving (run_isolated o s c rounds p).outcome ≡ some a.ending
      → get_task id db ≡ some task
      → is_finished id task db ≡ false
      → let x = execute_backtest id a db in
        Earned figures saving run task
          (start id db)
          (run_reports task.id a.reports (start id db))
          (run_isolated o s c rounds p).outcome
          x.executed
          x.db
  unfolding execute_backtest
  execute_backtest-Earned o s c f h send cpu_seconds memory_bytes rest rounds p id a has task db
        called heard bars reports ending found unfinished_task =
      let z = run_isolated o s c rounds p in
      let honest =
        (run_isolated-Honest send run o s c f h cpu_seconds memory_bytes rest rounds p called
          heard).1 in
      rw (found, execute_backtest, unfinished_task)
        (run_task-Earned task a z.outcome (start id db)
          (run_ended-Earned figures saving run task (start id db)
            (run_reports task.id a.reports (start id db))
            (run_reports_lem task.id a.reports (start id db)).0 send z.outcome z.relayed a.ending
            honest ending)
          has bars)

-- ===== src/Jobs/Once.antt =====
-- How many results a task has.
use stock_invest_system.Prelude.{
  ℕ, ◌+◌, ◌≡◌, refl, ap, ◌∙◌, arith, Bool, true, false, ◌&&◌, List, [], ◌∷◌, ◌++◌, Option, none,
  some, ◌==◌, if◌then◌else◌, is_some, Option-cases, Bool-cases, inl, inr, subst, subst⁻¹,
}
use stock_invest_system.Jobs.Store.{
  TaskStatus, running, success, is_success, BacktestTask, BacktestResult, Db, find_task,
  update_rows, get_task, update_task, create_result, first_of_task, Session, flush,
}
use stock_invest_system.Jobs.Execute.{
  Attempt, run_reports, start, finish, run_ended, run_loaded, run_task, is_finished, begun,
  execute_backtest, RunEnding, finished, stopped, broken, Bars, loaded, load_broken,
}

abbrev pub is_done : Option BacktestTask → Bool
is_done none = false
is_done (some t) = is_success t.status

abbrev pub status_after : Option TaskStatus → Option BacktestTask → Bool
status_after none o = is_done o
status_after (some s) o = is_some o && is_success s

pub is_done-update_rows :
    (id : ℕ) (s : Option TaskStatus) (p e : Option ℕ) (ts : List BacktestTask)
    → is_done (find_task id (update_rows id s p e ts)) ≡ status_after s (find_task id ts)
is_done-update_rows id none p e [] = refl
is_done-update_rows id (some s) p e [] = refl
is_done-update_rows id none p e (t ∷ ts) = ground (arith, is_done-update_rows id none p e ts)
is_done-update_rows id (some s) p e (t ∷ ts) =
    ground (arith, is_done-update_rows id (some s) p e ts)

is_some-update_rows :
    (id : ℕ) (s : Option TaskStatus) (p e : Option ℕ) (ts : List BacktestTask)
    → is_some (find_task id (update_rows id s p e ts)) ≡ is_some (find_task id ts)
is_some-update_rows id s p e [] = refl
is_some-update_rows id s p e (t ∷ ts) = ground (arith, is_some-update_rows id s p e ts)

pub find_task-id :
    (id : ℕ) (ts : List BacktestTask) (t : BacktestTask) → find_task id ts ≡ some t → t.id ≡ id
find_task-id id [] t h = ground arith
find_task-id id (u ∷ ts) t h = ground (arith, find_task-id id ts t)

module _ {M : Type 0} where
  abbrev pub count_results : ℕ → List (BacktestResult M) → ℕ
  count_results task_id [] = 0
  count_results task_id (r ∷ rs) =
      (if r.task_id == task_id then 1 else 0) + count_results task_id rs

  pub count_results-append :
      (task_id : ℕ) (rs : List (BacktestResult M)) (r : BacktestResult M)
      → count_results task_id (rs ++ r ∷ [])
        ≡ count_results task_id rs + (if r.task_id == task_id then 1 else 0)
  count_results-append task_id [] r = ground arith
  count_results-append task_id (x ∷ rs) r = omega (arith, count_results-append task_id rs r)

  first_of_task-count :
      (task_id : ℕ) (rs : List (BacktestResult M))
      → is_some (first_of_task task_id rs) ≡ (if count_results task_id rs == 0 then false else true)
  first_of_task-count task_id [] = refl
  first_of_task-count task_id (r ∷ rs) = ground (arith, first_of_task-count task_id rs)

  -- A task has one result when its status is success, and none otherwise.
  abbrev pub Sound : ℕ → Db M → Type 0
  Sound id db = count_results id db.results ≡ (if is_done (get_task id db) then 1 else 0)

  start-Sound :
      (id : ℕ) (db : Db M)
      → is_some (get_task id db) ≡ true
      → count_results id db.results ≡ 0
      → Sound id (start id db).committed
        × (is_some (get_task id (start id db).flushed) ≡ true)
        × (count_results id (start id db).flushed.results ≡ 0)
  unfolding start update_task
  start-Sound id db there none_yet = ground (
    arith,
    is_done-update_rows id (some running) (some 0) none db.tasks,
    is_some-update_rows id (some running) (some 0) none db.tasks,
  )

  -- The reports change nothing that is committed, and neither the results nor which tasks there are.
  pub run_reports_lem :
      (id : ℕ) (pcts : List ℕ) (s : Session M)
      → ((run_reports id pcts s).committed ≡ s.committed)
        × ((run_reports id pcts s).flushed.results ≡ s.flushed.results)
        × (is_some (get_task id (run_reports id pcts s).flushed) ≡ is_some (get_task id s.flushed))
  unfolding run_reports update_task
  run_reports_lem id [] s = (refl, refl, refl)
  run_reports_lem id (pct ∷ pcts) s =
      let rest = run_reports_lem id pcts (flush (update_task id none (some pct) none) s) in
      (rest.0, rest.1, rest.2 ∙ is_some-update_rows id none (some pct) none s.flushed.tasks)

  finish-Sound :
      (task : BacktestTask) (figures : M) (s : Session M)
      → is_some (get_task task.id s.flushed) ≡ true
      → count_results task.id s.flushed.results ≡ 0
      → Sound task.id (finish task figures s).committed
  unfolding finish update_task create_result
  finish-Sound task figures s there none_yet = ground (
    arith,
    is_done-update_rows task.id (some success) (some 100) none s.flushed.tasks,
    count_results-append task.id s.flushed.results (record {
      id = s.flushed.next_result;
      task_id = task.id;
      strategy_id = task.strategy_id;
      figures = figures;
    }),
  )

  run_ended-Sound :
      (task : BacktestTask) (e : RunEnding M) (s : Session M)
      → Sound task.id s.committed
      → is_some (get_task task.id s.flushed) ≡ true
      → count_results task.id s.flushed.results ≡ 0
      → Sound task.id (run_ended task e s).db
  run_ended-Sound task (finished figures) s h there none_yet =
      finish-Sound task figures s there none_yet
  run_ended-Sound task (stopped e) s h there none_yet = h
  run_ended-Sound task (broken e) s h there none_yet = h

  run_loaded-Sound :
      (task : BacktestTask) (a : Attempt M) (b : Bars) (s : Session M)
      → Sound task.id s.committed
      → is_some (get_task task.id s.flushed) ≡ true
      → count_results task.id s.flushed.results ≡ 0
      → Sound task.id (run_loaded task a b s).db
  run_loaded-Sound task a (load_broken e) s h there none_yet = h
  run_loaded-Sound task a (loaded false) s h there none_yet = h
  run_loaded-Sound task a (loaded true) s h there none_yet =
      let same = run_reports_lem task.id a.reports s in
      run_ended-Sound task a.ending (run_reports task.id a.reports s)
        (subst⁻¹ (Sound task.id) same.0 h) (same.2 ∙ there)
        (ap (count_results task.id) same.1 ∙ none_yet)

  run_task-Sound :
      (task : BacktestTask) (a : Attempt M) (s : Session M)
      → Sound task.id s.committed
      → is_some (get_task task.id s.flushed) ≡ true
      → count_results task.id s.flushed.results ≡ 0
      → Sound task.id (run_task task a s).db
  run_task-Sound task a s h there none_yet =
      ground (arith, run_loaded-Sound task a a.bars s h there none_yet)

  unfinished :
      (id : ℕ) (t : BacktestTask) (db : Db M)
      → Sound id db
      → get_task id db ≡ some t
      → is_finished id t db ≡ false
      → count_results id db.results ≡ 0
  unfinished id t db h e f = ground (arith, first_of_task-count id db.results)

  begun_task-Sound :
      (id : ℕ) (a : Attempt M) (t : BacktestTask) (db : Db M)
      → Sound id db
      → get_task id db ≡ some t
      → is_finished id t db ≡ false
      → Sound id (run_task t a (start id db)).db
  begun_task-Sound id a t db h e f =
      let s = start-Sound id db (ap is_some e) (unfinished id t db h e f) in
      let same = find_task-id id db.tasks t e in
      subst (λ i. Sound i (run_task t a (start id db)).db) same
        (run_task-Sound t a (start id db) (subst⁻¹ (λ i. Sound i (start id db).committed) same s.0)
          (subst⁻¹ (λ i. is_some (get_task i (start id db).flushed) ≡ true) same s.1)
          (subst⁻¹ (λ i. count_results i (start id db).flushed.results ≡ 0) same s.2))

  pub execute_backtest-Sound :
      (id : ℕ) (a : Attempt M) (db : Db M) → Sound id db → Sound id (execute_backtest id a db).db
  unfolding execute_backtest
  execute_backtest-Sound id a db h = elim (Option-cases (get_task id db)) [
    | inl e ↦ rw (e, execute_backtest) h
    | inr (t, e) ↦ elim (Bool-cases (is_finished id t db)) [
      | inl f ↦ rw (e, f, execute_backtest) h
      | inr f ↦ rw (e, f, execute_backtest) (begun_task-Sound id a t db h e f)
    ]
  ]

  pub begun-Sound : (id : ℕ) (db : Db M) → Sound id db → Sound id (begun id db)
  unfolding begun
  begun-Sound id db h = elim (Option-cases (get_task id db)) [
    | inl e ↦ rw (e, begun) h
    | inr (t, e) ↦ elim (Bool-cases (is_finished id t db)) [
      | inl f ↦ rw (e, f, begun) h
      | inr f ↦ rw (e, f, begun) (start-Sound id db (ap is_some e) (unfinished id t db h e f)).0
    ]
  ]

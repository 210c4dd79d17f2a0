-- ===== src/Jobs/Store.antt =====
-- The tables, with what is committed and what the session has flushed, and the reads and writes of
-- repositories/backtest_repo.py. The figures of a result are a parameter; texts are numbers.
use stock_invest_system.Prelude.{
  ℕ, suc, Bool, true, false, ◌&&◌, List, [], ◌∷◌, ◌++◌, Option, none, some, ◌==◌, if◌then◌else◌,
}

pub data TaskStatus : Type 0 where
  queued : TaskStatus
  running : TaskStatus
  success : TaskStatus
  failed : TaskStatus

abbrev pub is_success : TaskStatus → Bool
is_success success = true
is_success _ = false

-- models/strategy.py; the window and the price mode of a task are only passed on.
pub record BacktestTask : Type 0 where
  pub id : ℕ
  pub strategy_id : ℕ
  pub symbol_id : ℕ
  pub status : TaskStatus
  pub progress : ℕ
  pub error : Option ℕ

pub record BacktestResult (M : Type 0) : Type 0 where
  pub id : ℕ
  pub task_id : ℕ
  pub strategy_id : ℕ
  pub figures : M

pub record TradingStrategy : Type 0 where
  pub id : ℕ
  pub user_id : ℕ
  -- 0 when there is none, or an empty one.
  pub code : ℕ

pub record Db (M : Type 0) : Type 0 where
  pub tasks : List BacktestTask
  pub next_task : ℕ
  pub results : List (BacktestResult M)
  pub next_result : ℕ
  pub strategies : List TradingStrategy

abbrev pub or_else : {A : Type 0} → Option A → A → A
or_else none a = a
or_else (some b) a = b

abbrev pub or_keep : {A : Type 0} → Option A → Option A → Option A
or_keep none o = o
or_keep (some b) o = some b

abbrev pub find_task : ℕ → List BacktestTask → Option BacktestTask
find_task id [] = none
find_task id (t ∷ ts) = if t.id == id then some t else find_task id ts

-- The row with the values that are not None.
abbrev pub updated : Option TaskStatus → Option ℕ → Option ℕ → BacktestTask → BacktestTask
updated status progress error t = record t {
  status = or_else status t.status;
  progress = or_else progress t.progress;
  error = or_keep error t.error;
}

abbrev pub update_rows :
    ℕ → Option TaskStatus → Option ℕ → Option ℕ → List BacktestTask → List BacktestTask
update_rows id status progress error [] = []
update_rows id status progress error (t ∷ ts) =
    if t.id == id
    then updated status progress error t ∷ ts
    else t ∷ update_rows id status progress error ts

abbrev pub find_strategy : ℕ → List TradingStrategy → Option TradingStrategy
find_strategy id [] = none
find_strategy id (s ∷ ss) = if s.id == id then some s else find_strategy id ss

-- `strategy_repo.get_strategy`
abbrev pub get_strategy : ℕ → ℕ → List TradingStrategy → Option TradingStrategy
get_strategy user_id id [] = none
get_strategy user_id id (s ∷ ss) =
    if s.id == id && s.user_id == user_id then some s else get_strategy user_id id ss

module _ {M : Type 0} where
  unfoldable pub create_task : ℕ → ℕ → Db M → Db M
  create_task strategy_id symbol_id db = record db {
    tasks =
        db.tasks
        ++ record {
          id = db.next_task;
          strategy_id = strategy_id;
          symbol_id = symbol_id;
          status = queued;
          progress = 0;
          error = none;
        }
          ∷ [];
    next_task = suc db.next_task;
  }

  abbrev pub get_task : ℕ → Db M → Option BacktestTask
  get_task id db = find_task id db.tasks

  -- A value that is None is left as it is, and so is everything when there is no such row.
  unfoldable pub update_task : ℕ → Option TaskStatus → Option ℕ → Option ℕ → Db M → Db M
  update_task id status progress error db = record db {
    tasks = update_rows id status progress error db.tasks;
  }

  unfoldable pub create_result : ℕ → ℕ → M → Db M → Db M
  create_result task_id strategy_id figures db = record db {
    results =
        db.results
        ++ record {
          id = db.next_result;
          task_id = task_id;
          strategy_id = strategy_id;
          figures = figures;
        }
          ∷ [];
    next_result = suc db.next_result;
  }

  -- The first by the identity, which is the oldest.
  abbrev pub first_of_task : ℕ → List (BacktestResult M) → Option (BacktestResult M)
  first_of_task task_id [] = none
  first_of_task task_id (r ∷ rs) = if r.task_id == task_id then some r else first_of_task task_id rs

  abbrev pub get_result_by_task : ℕ → Db M → Option (BacktestResult M)
  get_result_by_task task_id db = first_of_task task_id db.results

-- A session of utils/db.py: no autocommit, so that others read what is committed only.
pub record Session (M : Type 0) : Type 0 where
  pub committed : Db M
  pub flushed : Db M

module _ {M : Type 0} where
  abbrev pub get_session : Db M → Session M
  get_session db = record { committed = db; flushed = db }

  abbrev pub flush : (Db M → Db M) → Session M → Session M
  flush write s = record s { flushed = write s.flushed }

  abbrev pub commit : Session M → Session M
  commit s = record { committed = s.flushed; flushed = s.flushed }

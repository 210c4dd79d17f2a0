-- ===== src/Jobs/Queries.antt =====
-- The reads of tasks and results, each for a user: `get_task`, `list_tasks`, `list_results` and
-- `get_result`. A refusal (404) is `none`.
use stock_invest_system.Prelude.{
  ℕ, zero, suc, ◌+◌, ◌-◌, ◌*◌, max, min, Bool, false, ◌||◌, List, [], ◌∷◌, Option, none, some, ◌==◌,
  if◌then◌else◌, is_some, drop,
}
use stock_invest_system.Prelude.Int.{ℤ, pos_part}
use stock_invest_system.Jobs.Store as Store
use stock_invest_system.Jobs.Store.{BacktestTask, BacktestResult, TradingStrategy, Db, get_strategy}

pub record Page : Type 0 where
  pub rows : List BacktestTask
  pub total : ℕ

abbrev pub strategy_owned : ℕ → ℕ → List TradingStrategy → Bool
strategy_owned user_id strategy_id ss = is_some (get_strategy user_id strategy_id ss)

-- The identities of `strategy_repo.list_strategies`; their order does not matter.
abbrev pub strategy_ids : ℕ → List TradingStrategy → List ℕ
strategy_ids user_id [] = []
strategy_ids user_id (s ∷ ss) =
    let rest = strategy_ids user_id ss in if s.user_id == user_id then s.id ∷ rest else rest

abbrev pub is_in : ℕ → List ℕ → Bool
is_in n [] = false
is_in n (m ∷ ms) = (m == n) || is_in n ms

abbrev pub take : ℕ → List BacktestTask → List BacktestTask
take zero ts = []
take (suc n) [] = []
take (suc n) (t ∷ ts) = t ∷ take n ts

-- Newest first: the table is in the order of its identities.
abbrev pub newest_of : List ℕ → List BacktestTask → List BacktestTask → List BacktestTask
newest_of ids acc [] = acc
newest_of ids acc (t ∷ ts) = newest_of ids (if is_in t.strategy_id ids then t ∷ acc else acc) ts

abbrev pub list_tasks_by_strategies : List ℕ → ℕ → ℕ → List BacktestTask → List BacktestTask
list_tasks_by_strategies ids offset limit ts = take limit (drop offset (newest_of ids [] ts))

abbrev pub count_tasks_by_strategies : List ℕ → List BacktestTask → ℕ
count_tasks_by_strategies ids [] = 0
count_tasks_by_strategies ids (t ∷ ts) =
    (if is_in t.strategy_id ids then 1 else 0) + count_tasks_by_strategies ids ts

abbrev pub page_size : ℤ → ℕ
page_size size = max 1 (min (pos_part size) 100)

abbrev pub page_offset : ℤ → ℤ → ℕ
page_offset page size = (max 1 (pos_part page) - 1) * page_size size

module _ {M : Type 0} where
  abbrev pub owned_task : ℕ → Option BacktestTask → Db M → Option BacktestTask
  owned_task user_id none db = none
  owned_task user_id (some t) db =
      if strategy_owned user_id t.strategy_id db.strategies then some t else none

  unfoldable pub get_task : ℕ → ℕ → Db M → Option BacktestTask
  get_task user_id task_id db = owned_task user_id (Store.get_task task_id db) db

  abbrev pub find_result : ℕ → List (BacktestResult M) → Option (BacktestResult M)
  find_result id [] = none
  find_result id (r ∷ rs) = if r.id == id then some r else find_result id rs

  abbrev pub owned_result : ℕ → Option (BacktestResult M) → Db M → Option (BacktestResult M)
  owned_result user_id none db = none
  owned_result user_id (some r) db =
      if strategy_owned user_id r.strategy_id db.strategies then some r else none

  unfoldable pub get_result : ℕ → ℕ → Db M → Option (BacktestResult M)
  get_result user_id result_id db = owned_result user_id (find_result result_id db.results) db

  abbrev pub results_onto :
      List (BacktestResult M) → ℕ → List (BacktestResult M) → List (BacktestResult M)
  results_onto acc strategy_id [] = acc
  results_onto acc strategy_id (r ∷ rs) =
      results_onto (if r.strategy_id == strategy_id then r ∷ acc else acc) strategy_id rs

  unfoldable pub list_results : ℕ → ℕ → Db M → Option (List (BacktestResult M))
  list_results user_id strategy_id db =
      if strategy_owned user_id strategy_id db.strategies
      then some (results_onto [] strategy_id db.results)
      else none

  abbrev pub page_of : List ℕ → ℤ → ℤ → Db M → Page
  page_of ids page size db = record {
    rows = list_tasks_by_strategies ids (page_offset page size) (page_size size) db.tasks;
    total = count_tasks_by_strategies ids db.tasks;
  }

  unfoldable pub list_tasks : ℕ → Option ℕ → ℤ → ℤ → Db M → Option Page
  list_tasks user_id none page size db =
      some (page_of (strategy_ids user_id db.strategies) page size db)
  list_tasks user_id (some strategy_id) page size db =
      if strategy_owned user_id strategy_id db.strategies
      then some (page_of (strategy_id ∷ []) page size db)
      else none

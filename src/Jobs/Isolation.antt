-- ===== src/Jobs/Isolation.antt =====
-- What the reads give to a user, and what they keep from others.
use stock_invest_system.Prelude.{
  ℕ, zero, suc, ◌+◌, ◌-◌, ◌≤◌, ◌≡◌, ◌≢◌, min, refl, sym, ◌∙◌, arith, true, false, List, [], ◌∷◌,
  Option, none, some, ◌==◌, if◌then◌else◌, is_some, All, drop, length, length-drop, Bool-cases, inl,
  inr, subst, eq_of_some,
}
use stock_invest_system.Prelude.Int.{ℤ}
use stock_invest_system.Jobs.Store as Store
use stock_invest_system.Jobs.Store.{BacktestTask, BacktestResult, TradingStrategy, Db, get_strategy}
use stock_invest_system.Jobs.Queries.{
  Page, strategy_owned, strategy_ids, is_in, take, newest_of, count_tasks_by_strategies, page_size,
  page_offset, owned_task, get_task, find_result, owned_result, get_result, list_results, page_of,
  list_tasks,
}

abbrev In : List ℕ → BacktestTask → Type 0
In ids t = is_in t.strategy_id ids ≡ true

newest_of-In :
    (ids : List ℕ) (ts acc : List BacktestTask)
    → All (In ids) acc
    → All (In ids) (newest_of ids acc ts)
newest_of-In ids [] acc h = h
newest_of-In ids (t ∷ ts) acc h =
    newest_of-In ids ts (if is_in t.strategy_id ids then t ∷ acc else acc) (ground (arith, h))

length-newest_of :
    (ids : List ℕ) (acc ts : List BacktestTask)
    → length (newest_of ids acc ts) ≡ length acc + count_tasks_by_strategies ids ts
length-newest_of ids acc [] = omega arith
length-newest_of ids acc (t ∷ ts) =
    ground (arith, length-newest_of ids acc ts, length-newest_of ids (t ∷ acc) ts)

drop-In :
    (ids : List ℕ) (n : ℕ) (ts : List BacktestTask) → All (In ids) ts → All (In ids) (drop n ts)
drop-In ids zero ts h = h
drop-In ids (suc n) [] h = tt
drop-In ids (suc n) (t ∷ ts) h = drop-In ids n ts h.1

take-In :
    (ids : List ℕ) (n : ℕ) (ts : List BacktestTask) → All (In ids) ts → All (In ids) (take n ts)
take-In ids zero ts h = tt
take-In ids (suc n) [] h = tt
take-In ids (suc n) (t ∷ ts) h = (h.0, take-In ids n ts h.1)

length-take : (n : ℕ) (ts : List BacktestTask) → length (take n ts) ≡ min n (length ts)
length-take zero ts = omega arith
length-take (suc n) [] = omega arith
length-take (suc n) (t ∷ ts) = omega (arith, length-take n ts)

strategy_ids-owned :
    (user_id n : ℕ) (ss : List TradingStrategy)
    → is_in n (strategy_ids user_id ss) ≡ strategy_owned user_id n ss
strategy_ids-owned user_id n [] = refl
strategy_ids-owned user_id n (s ∷ ss) = ground (arith, strategy_ids-owned user_id n ss)

All-owned :
    (user_id : ℕ) (ids : List ℕ) (ss : List TradingStrategy) (ts : List BacktestTask)
    → ((n : ℕ) → is_in n ids ≡ true → strategy_owned user_id n ss ≡ true)
    → All (In ids) ts
    → All (λ t. strategy_owned user_id t.strategy_id ss ≡ true) ts
All-owned user_id ids ss [] h k = tt
All-owned user_id ids ss (t ∷ ts) h k = (h t.strategy_id k.0, All-owned user_id ids ss ts h k.1)

no_other_strategy :
    (user_id n : ℕ) (ss : List TradingStrategy)
    → All (λ s. s.id ≢ n) ss
    → strategy_owned user_id n ss ≡ false
no_other_strategy user_id n [] h = refl
no_other_strategy user_id n (s ∷ ss) h = ground (arith, no_other_strategy user_id n ss)

-- The identities of the strategies are their own.
abbrev pub Distinct : List TradingStrategy → Type 0
Distinct [] = Unit
Distinct (s ∷ ss) = All (λ r. r.id ≢ s.id) ss × Distinct ss

owned_by_one :
    (mine other n : ℕ) (ss : List TradingStrategy)
    → Distinct ss
    → mine ≢ other
    → strategy_owned mine n ss ≡ true
    → strategy_owned other n ss ≡ false
owned_by_one mine other n [] h ne k = ground arith
owned_by_one mine other n (s ∷ ss) h ne k = elim (Bool-cases (s.id == n)) [
  | inl same ↦
      let eq : s.id ≡ n = ground arith in
      let rest = subst (λ i. All (λ r. r.id ≢ i) ss) eq h.0 in
      ground (arith, no_other_strategy mine n ss rest, no_other_strategy other n ss rest)
  | inr differs ↦ ground (arith, owned_by_one mine other n ss h.1 ne)
]

module _ {M : Type 0} where
  page_of_lem :
      (user_id : ℕ) (ids : List ℕ) (page size : ℤ) (db : Db M)
      → ((n : ℕ) → is_in n ids ≡ true → strategy_owned user_id n db.strategies ≡ true)
      → let p = page_of ids page size db in
        All (λ t. strategy_owned user_id t.strategy_id db.strategies ≡ true) p.rows
        × (length p.rows ≡ min (page_size size) (p.total - page_offset page size))
  page_of_lem user_id ids page size db h =
      let all = newest_of ids [] db.tasks in
      let rest = drop (page_offset page size) all in
      (
        All-owned user_id ids db.strategies (take (page_size size) rest) h (
            take-In ids (page_size size) rest
              (drop-In ids (page_offset page size) all (newest_of-In ids db.tasks [] tt))),
        omega (
          arith,
          length-take (page_size size) rest,
          length-drop (page_offset page size) all,
          length-newest_of ids [] db.tasks,
        ),
      )

  abbrev Fits : ℕ → ℤ → ℤ → Db M → Page → Type 0
  Fits user_id page size db p =
      All (λ t. strategy_owned user_id t.strategy_id db.strategies ≡ true) p.rows
      × (length p.rows ≡ min (page_size size) (p.total - page_offset page size))

  list_tasks-Fits :
      (user_id : ℕ) (strategy_id : Option ℕ) (page size : ℤ) (db : Db M) (p : Page)
      → list_tasks user_id strategy_id page size db ≡ some p
      → Fits user_id page size db p
  unfolding list_tasks
  list_tasks-Fits user_id none page size db p h = subst (Fits user_id page size db) (eq_of_some h) (
      page_of_lem user_id (strategy_ids user_id db.strategies) page size db
        (λ n k. sym (strategy_ids-owned user_id n db.strategies) ∙ k))
  list_tasks-Fits user_id (some strategy_id) page size db p h =
      elim (Bool-cases (strategy_owned user_id strategy_id db.strategies)) [
        | inl o ↦
            let e : page_of (strategy_id ∷ []) page size db ≡ p = ground (arith, o) in
            subst (Fits user_id page size db) e
              (page_of_lem user_id (strategy_id ∷ []) page size db (λ n k. ground (arith, o)))
        | inr o ↦ absurd (ground (arith, o))
      ]

  -- A page of tasks holds tasks of the user's own strategies only; it has as many as the size asked
  -- for, brought to between 1 and 100, and as are left after the pages before it.
  pub list_tasks_lem :
      (user_id : ℕ) (strategy_id : Option ℕ) (page size : ℤ) (db : Db M) (p : Page)
      → list_tasks user_id strategy_id page size db ≡ some p
      → All (λ t. strategy_owned user_id t.strategy_id db.strategies ≡ true) p.rows
        × (length p.rows ≡ min (page_size size) (p.total - page_offset page size))
        × (length p.rows ≤ 100)
  list_tasks_lem user_id strategy_id page size db p h =
      let fits = list_tasks-Fits user_id strategy_id page size db p h in
      (fits.0, fits.1, omega (arith, fits.1))

  owned_task-private :
      (mine other : ℕ) (o : Option BacktestTask) (db : Db M)
      → Distinct db.strategies
      → mine ≢ other
      → is_some (owned_task mine o db) ≡ true
      → owned_task other o db ≡ none
  owned_task-private mine other none db h ne k = refl
  owned_task-private mine other (some t) db h ne k =
      ground (arith, owned_by_one mine other t.strategy_id db.strategies h ne)

  owned_result-private :
      (mine other : ℕ) (o : Option (BacktestResult M)) (db : Db M)
      → Distinct db.strategies
      → mine ≢ other
      → is_some (owned_result mine o db) ≡ true
      → owned_result other o db ≡ none
  owned_result-private mine other none db h ne k = refl
  owned_result-private mine other (some r) db h ne k =
      ground (arith, owned_by_one mine other r.strategy_id db.strategies h ne)

  -- No two users read the same task or result: what one user is given is refused to every other, if
  -- the identities of the strategies are their own.
  pub reads_are_private :
      (mine other task_id result_id strategy_id : ℕ) (db : Db M)
      → Distinct db.strategies
      → mine ≢ other
      → (is_some (get_task mine task_id db) ≡ true → get_task other task_id db ≡ none)
        × (is_some (get_result mine result_id db) ≡ true → get_result other result_id db ≡ none)
        × (is_some (list_results mine strategy_id db) ≡ true
            → list_results other strategy_id db ≡ none)
  unfolding get_task get_result list_results
  reads_are_private mine other task_id result_id strategy_id db h ne = (
    owned_task-private mine other (Store.get_task task_id db) db h ne,
    owned_result-private mine other (find_result result_id db.results) db h ne,
    λ k. ground (arith, owned_by_one mine other strategy_id db.strategies h ne),
  )

-- ===== src/Jobs/Create.antt =====
-- `create_backtest`: the checks of a request, its slot, its row and its message.
use stock_invest_system.Prelude.{
  ℕ, Bool, true, false, List, [], ◌∷◌, ◌++◌, Option, none, some, ◌==◌, if◌then◌else◌,
}
use stock_invest_system.Redis.{ExpiringKeys}
use stock_invest_system.Quota.Zset.{SortedSet}
use stock_invest_system.Quota.Slots as Slots
use stock_invest_system.Quota.Queue.{is_queue_busy}
use stock_invest_system.Jobs.Store.{TradingStrategy, get_strategy, create_task}
use stock_invest_system.Jobs.Worker.{World}

abbrev pub cache_ttl : ℕ
cache_ttl = 3600

pub record Validated (S : Type 0) : Type 0 where
  pub valid : Bool
  pub cache : S

-- The errors that are raised; the last is that of the database.
pub data CreateError : Type 0 where
  bad_period : CreateError
  bad_fill_on : CreateError
  strategy_unknown : CreateError
  strategy_invalid : CreateError
  symbol_unknown : CreateError
  queue_busy : CreateError
  quota_full : CreateError
  database_error : CreateError

pub data CreateResult : Type 0 where
  created : ℕ → CreateResult
  rejected : CreateError → CreateResult

-- The tables and slots, the cache of the validations and the messages of the queue: a task and the
-- token of its slot.
pub record Desk (M Z S : Type 0) : Type 0 where
  pub world : World M Z
  pub cache : S
  pub queue : List (ℕ × ℕ)

-- A request, and what it meets: whether the period and the price mode are known, the symbol's
-- identity when it is there, what the validator says if it is asked, whether Redis, the write of the
-- row and the broker work, and the answer of LLEN.
pub record Submission : Type 0 where
  pub user_id : ℕ
  pub strategy_id : ℕ
  pub period_known : Bool
  pub fill_on_known : Bool
  pub symbol : Option ℕ
  pub verdict : Bool
  pub token : ℕ
  pub now : ℕ
  pub redis : Bool
  pub queue_length : Option ℕ
  pub row_written : Bool
  pub broker : Bool

pub record Created (M Z S : Type 0) : Type 0 where
  pub result : CreateResult
  pub desk : Desk M Z S

-- SHA-256 is a parameter, and so is what the validator of agent/strategy_validator.py says in a call
-- that asks it.
module _ {S : Type 0} (k : ExpiringKeys S) (digest : ℕ → ℕ) where
  abbrev pub cached : Bool → ℕ → ℕ → S → Option ℕ
  cached true now code s = k.value s now (digest code)
  cached false now code s = none

  abbrev pub stored : Bool → ℕ → ℕ → Bool → S → S
  stored true now code valid s = k.set_ex now cache_ttl (digest code) (if valid then 1 else 0) s
  stored false now code valid s = s

  unfoldable pub validate_cached : Bool → ℕ → ℕ → Bool → S → Validated S
  validate_cached up now code verdict s = elim (cached up now code s) [
    | none ↦ record { valid = verdict; cache = stored up now code verdict s }
    | some v ↦ record { valid = v == 1; cache = s }
  ]

  module _ {M Z : Type 0} (d : SortedSet Z) (c : Slots.Settings) (threshold : ℕ) where
    abbrev pub reject : CreateError → Desk M Z S → Created M Z S
    reject e desk = record { result = rejected e; desk = desk }

    abbrev pub with_slots : ℕ → Z → Desk M Z S → Desk M Z S
    with_slots user_id z desk = record desk {
      world = record desk.world { slots = λ u. if u == user_id then z else desk.world.slots u };
    }

    abbrev pub give_back : Submission → Desk M Z S → Desk M Z S
    give_back q desk =
        with_slots q.user_id (Slots.release d c q.redis q.token (desk.world.slots q.user_id)) desk

    abbrev pub with_row : Submission → ℕ → Desk M Z S → Desk M Z S
    with_row q symbol_id desk = record desk {
      world = record desk.world { db = create_task q.strategy_id symbol_id desk.world.db };
    }

    -- Without a broker the slot is given back and the row stays.
    abbrev pub enqueue : Submission → ℕ → Desk M Z S → Desk M Z S
    enqueue q id desk =
        if q.broker
        then record desk { queue = desk.queue ++ (id, q.token) ∷ [] }
        else give_back q desk

    abbrev pub with_task : Submission → ℕ → Desk M Z S → Created M Z S
    with_task q symbol_id desk =
        if q.row_written
        then record {
          result = created desk.world.db.next_task;
          desk = enqueue q desk.world.db.next_task (with_row q symbol_id desk);
        }
        else reject database_error (give_back q desk)

    abbrev pub with_slot : Submission → ℕ → Desk M Z S → Created M Z S
    with_slot q symbol_id desk =
        if is_queue_busy threshold q.queue_length
        then reject queue_busy desk
        else let a = Slots.acquire d c q.redis q.now q.token (desk.world.slots q.user_id) in
          (if a.granted
            then with_task q symbol_id (with_slots q.user_id a.slots desk)
            else reject quota_full (with_slots q.user_id a.slots desk))

    abbrev pub with_symbol : Submission → Option ℕ → Desk M Z S → Created M Z S
    with_symbol q none desk = reject symbol_unknown desk
    with_symbol q (some symbol_id) desk = with_slot q symbol_id desk

    abbrev pub with_strategy : Submission → Option TradingStrategy → Desk M Z S → Created M Z S
    with_strategy q none desk = reject strategy_unknown desk
    with_strategy q (some s) desk =
        let v = validate_cached q.redis q.now s.code q.verdict desk.cache in
        if v.valid
        then with_symbol q q.symbol (record desk { cache = v.cache })
        else reject strategy_invalid (record desk { cache = v.cache })

    unfoldable pub create_backtest : Submission → Desk M Z S → Created M Z S
    create_backtest q desk =
        if q.period_known
        then (if q.fill_on_known
            then with_strategy q (get_strategy q.user_id q.strategy_id desk.world.db.strategies)
                desk
            else reject bad_fill_on desk)
        else reject bad_period desk

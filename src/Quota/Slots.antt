-- ===== src/Quota/Slots.antt =====
-- `acquire`, `release` and `running_count`. Each call is one step on the user's sorted set, as the
-- Lua script and the single commands are atomic in Redis; when Redis is out of reach the store is
-- left as it is.
use stock_invest_system.Prelude.{ℕ, ◌+◌, ◌-◌, Bool, true, false, List, [], ◌∷◌, if◌then◌else◌, leb}
use stock_invest_system.Prelude.Int.{ℤ, pos, negsuc}
use stock_invest_system.Quota.Zset.{SortedSet}

-- The settings: BACKTEST_MAX_CONCURRENT_PER_USER and BACKTEST_QUOTA_STALE_SECONDS.
pub record Settings : Type 0 where
  pub limit : ℕ
  pub stale : ℕ

pub record Acquired (Z : Type 0) : Type 0 where
  pub granted : Bool
  pub running : ℤ
  pub slots : Z

pub record Counted (Z : Type 0) : Type 0 where
  pub running : ℤ
  pub slots : Z

-- A call of the module, with the time it is made at and whether Redis answers.
pub data Call : Type 0 where
  acquire_call : Bool → ℕ → ℕ → Call
  release_call : Bool → ℕ → Call
  count_call : Bool → ℕ → Call

module _ {Z : Type 0} (d : SortedSet Z) (c : Settings) where
  -- ZREMRANGEBYSCORE up to now - stale: a negative bound removes nothing.
  unfoldable pub evict : ℕ → Z → Z
  evict now z = if leb c.stale now then d.zremrangebyscore (now - c.stale) z else z

  -- _ACQUIRE_LUA
  unfoldable pub acquire_script : ℕ → ℕ → Z → Acquired Z
  acquire_script now token z =
      let fresh = evict now z in
      let n = d.zcard fresh in
      if leb c.limit n
      then record { granted = false; running = pos n; slots = fresh }
      else record { granted = true; running = pos (n + 1); slots = d.zadd now token fresh }

  unfoldable pub acquire : Bool → ℕ → ℕ → Z → Acquired Z
  acquire true now token z = acquire_script now token z
  acquire false now token z = record { granted = true; running = negsuc 0; slots = z }

  unfoldable pub release : Bool → ℕ → Z → Z
  release true token z = d.zrem token z
  release false token z = z

  unfoldable pub running_count : Bool → ℕ → Z → Counted Z
  running_count true now z =
      let fresh = evict now z in record { running = pos (d.zcard fresh); slots = fresh }
  running_count false now z = record { running = negsuc 0; slots = z }

  unfoldable pub step : Call → Z → Z
  step (acquire_call up now token) z = (acquire up now token z).slots
  step (release_call up token) z = release up token z
  step (count_call up now) z = (running_count up now z).slots

  unfoldable pub run : List Call → Z → Z
  run [] z = z
  run (call ∷ calls) z = run calls (step call z)

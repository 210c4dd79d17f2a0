-- ===== src/Quota/Queue.antt =====
-- The queue that the back-tests wait in: its depth, when it counts as busy, and the waiting time told
-- to the user. The quotient of two floats is taken exactly, as it is for numbers of this size.
use stock_invest_system.Prelude.{
  ℕ, zero, suc, ◌+◌, ◌*◌, ◌/◌, ◌≤◌, ◌<◌, ◌≡◌, ◌⊎◌, Bool, false, Option, none, some, arith, leb, max,
}
use stock_invest_system.Prelude.Int.{ℤ, pos, negsuc}

-- The answer of LLEN, none when Redis is out of reach.
unfoldable pub queue_depth : Option ℕ → ℤ
queue_depth none = negsuc 0
queue_depth (some n) = pos n

-- Whether a depth, with -1 for unknown, reaches the threshold.
abbrev pub reaches : ℕ → ℤ → Bool
reaches threshold (negsuc n) = false
reaches threshold (pos depth) = leb threshold depth

unfoldable pub is_queue_busy : ℕ → Option ℕ → Bool
is_queue_busy threshold answer = reaches threshold (queue_depth answer)

-- max(1, ceil(depth * per_task / 60)), and 0 for a depth of 0 or an unknown one.
unfoldable pub minutes : ℕ → ℤ → ℕ
minutes per_task (negsuc n) = 0
minutes per_task (pos zero) = 0
minutes per_task (pos (suc n)) = max 1 ((suc n * per_task + 59) / 60)

-- The depth is read when it is not given.
unfoldable pub estimate_wait_minutes : ℕ → Option ℤ → Option ℕ → ℕ
estimate_wait_minutes per_task (some depth) answer = minutes per_task depth
estimate_wait_minutes per_task none answer = minutes per_task (queue_depth answer)

rounded_up :
    (load : ℕ)
    → (load ≤ max 1 ((load + 59) / 60) * 60)
      × (1 ≤ max 1 ((load + 59) / 60))
      × ((max 1 ((load + 59) / 60) ≡ 1) ⊎ (max 1 ((load + 59) / 60) * 60 < load + 60))
rounded_up load = omega arith

-- For a queue that is not empty the time told is the least whole number of minutes, one at least, in
-- which its tasks can run one after the other.
pub estimate_wait_minutes_lem :
    (per_task n : ℕ)
    → 0 < n
    → (n * per_task ≤ estimate_wait_minutes per_task none (some n) * 60)
      × (1 ≤ estimate_wait_minutes per_task none (some n))
      × ((estimate_wait_minutes per_task none (some n) ≡ 1)
          ⊎ (estimate_wait_minutes per_task none (some n) * 60 < n * per_task + 60))
unfolding estimate_wait_minutes minutes queue_depth
estimate_wait_minutes_lem per_task zero h = ground arith
estimate_wait_minutes_lem per_task (suc n) h = rounded_up (suc n * per_task)

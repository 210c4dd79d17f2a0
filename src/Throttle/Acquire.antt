-- ===== src/Throttle/Acquire.antt =====
-- `acquire` for one provider. Times are milliseconds; the day of a request is a number.
use stock_invest_system.Prelude.{
  ℕ, zero, suc, ◌+◌, ◌*◌, Bool, true, false, ◌==◌, leb, if◌then◌else◌, is_some,
}
use stock_invest_system.Redis.{ExpiringKeys, or_zero}

-- provider:limit:interval in seconds and provider:limit:budget, or their settings.
pub record Limits : Type 0 where
  pub interval : ℕ
  pub budget : ℕ

-- The keys provider:used of each day, and provider:slot.
pub record Usage (S : Type 0) : Type 0 where
  pub used : S
  pub slot : S

-- What the script returns: 1, 0 and -1; a SET that is to expire at once is an error.
pub data Verdict : Type 0 where
  granted : Verdict
  wait : Verdict
  exhausted : Verdict
  script_error : Verdict

pub record Evaluated (S : Type 0) : Type 0 where
  pub verdict : Verdict
  pub usage : Usage S

-- How a call ends: it returns, or raises one of the ProviderErrors.
pub data Acquired : Type 0 where
  allowed : Acquired
  budget_exhausted : Acquired
  throttle_timeout : Acquired
  unavailable : Acquired

pub record Outcome (S : Type 0) : Type 0 where
  pub acquired : Acquired
  pub at : ℕ
  pub usage : Usage S

-- One key for the slot, and how long a day's count is kept.
abbrev pub slot_key : ℕ
slot_key = 0

abbrev pub used_ttl : ℕ
used_ttl = 172800 * 1000

abbrev pub tries : ℕ
tries = 300

module _ {S : Type 0} (k : ExpiringKeys S) (c : Limits) where
  abbrev pub millis : ℕ
  millis = c.interval * 1000

  -- _SCRIPT
  unfoldable pub script : ℕ → ℕ → Usage S → Evaluated S
  script now day u =
      if leb c.budget (or_zero (k.value u.used now day))
      then record { verdict = exhausted; usage = u }
      else (if c.interval == 0
          then record { verdict = script_error; usage = u }
          else (if is_some (k.value u.slot now slot_key)
              then record { verdict = wait; usage = u }
              else record {
                verdict = granted;
                usage = record {
                  used = k.incr_ex now used_ttl day u.used;
                  slot = k.set_ex now millis slot_key 1 u.slot;
                };
              }))

  -- The loop, with the tries that are left; a wait is 100 milliseconds.
  unfoldable pub acquire_within : ℕ → ℕ → ℕ → Usage S → Outcome S
  acquire_within zero now day u = record { acquired = throttle_timeout; at = now; usage = u }
  acquire_within (suc n) now day u =
      let e = script now day u in
      elim e.verdict [
        | granted ↦ record { acquired = allowed; at = now; usage = e.usage }
        | exhausted ↦ record { acquired = budget_exhausted; at = now; usage = e.usage }
        | script_error ↦ record { acquired = unavailable; at = now; usage = e.usage }
        | wait ↦ acquire_within n (now + 100) day e.usage
      ]

  -- When Redis is out of reach nothing is let through.
  unfoldable pub acquire : Bool → ℕ → ℕ → Usage S → Outcome S
  acquire true now day u = acquire_within tries now day u
  acquire false now day u = record { acquired = unavailable; at = now; usage = u }

-- ===== src/Redis.antt =====
-- What is used of Redis' keys with an expiry, as the commands' documentation has it. Keys and values
-- are numbers, and times are whole units, seconds or less.
use stock_invest_system.Prelude.{ℕ, ◌+◌, ◌≤◌, ◌≡◌, Option, none, some, ◌==◌, ltb, if◌then◌else◌}

abbrev pub or_zero : Option ℕ → ℕ
or_zero none = 0
or_zero (some n) = n

pub record ExpiringKeys (S : Type 0) : Type 0 where
  -- GET at a time.
  pub value : S → ℕ → ℕ → Option ℕ
  -- SET with EX: the time, the seconds to live, the key and the value.
  pub set_ex : ℕ → ℕ → ℕ → ℕ → S → S
  -- INCR and EXPIRE in one pipeline: the time, the seconds to live and the key.
  pub incr_ex : ℕ → ℕ → ℕ → S → S
  pub delete : ℕ → S → S
  pub value-set_ex :
      (now ttl key v : ℕ) (s : S) (t k : ℕ)
      → now ≤ t
      → value (set_ex now ttl key v s) t k
        ≡ (if k == key then (if ltb t (now + ttl) then some v else none) else value s t k)
  pub value-incr_ex :
      (now ttl key : ℕ) (s : S) (t k : ℕ)
      → now ≤ t
      → value (incr_ex now ttl key s) t k ≡ (
          if k == key
          then (if ltb t (now + ttl) then some (or_zero (value s now key) + 1) else none)
          else value s t k)
  pub value-delete :
      (key : ℕ) (s : S) (t k : ℕ)
      → value (delete key s) t k ≡ (if k == key then none else value s t k)

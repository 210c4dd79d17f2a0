-- ===== src/Quota/Zset.antt =====
-- What the slots rely on of Redis' sorted sets, as the commands' documentation has it: a member has
-- one score, and ZCARD counts the members. Members and scores are numbers, and no score is negative.
use stock_invest_system.Prelude.{ℕ, suc, ◌≤◌, ◌≡◌, Option, none, some, ◌==◌, if◌then◌else◌, leb}

-- The score that ZREMRANGEBYSCORE leaves of a member's.
abbrev pub keep_above : ℕ → Option ℕ → Option ℕ
keep_above bound none = none
keep_above bound (some score) = if leb score bound then none else some score

pub record SortedSet (Z : Type 0) : Type 0 where
  pub empty : Z
  pub score : Z → ℕ → Option ℕ
  pub zcard : Z → ℕ
  -- ZADD with a score and a member.
  pub zadd : ℕ → ℕ → Z → Z
  pub zrem : ℕ → Z → Z
  -- ZREMRANGEBYSCORE from -inf to a bound.
  pub zremrangebyscore : ℕ → Z → Z
  pub score_empty : (k : ℕ) → score empty k ≡ none
  pub score_zadd :
      (t m : ℕ) (z : Z) (k : ℕ) → score (zadd t m z) k ≡ (if k == m then some t else score z k)
  pub score_zrem :
      (m : ℕ) (z : Z) (k : ℕ) → score (zrem m z) k ≡ (if k == m then none else score z k)
  pub score_zremrangebyscore :
      (bound : ℕ) (z : Z) (k : ℕ)
      → score (zremrangebyscore bound z) k ≡ keep_above bound (score z k)
  pub zcard_none : (z : Z) → ((k : ℕ) → score z k ≡ none) → zcard z ≡ 0
  pub zcard_zadd : (t m : ℕ) (z : Z) → score z m ≡ none → zcard (zadd t m z) ≡ suc (zcard z)
  pub zcard_zadd_again : (t m u : ℕ) (z : Z) → score z m ≡ some u → zcard (zadd t m z) ≡ zcard z
  pub zcard_zrem : (m u : ℕ) (z : Z) → score z m ≡ some u → zcard z ≡ suc (zcard (zrem m z))
  pub zcard_zrem_none : (m : ℕ) (z : Z) → score z m ≡ none → zcard (zrem m z) ≡ zcard z
  pub zcard_zremrangebyscore : (bound : ℕ) (z : Z) → zcard (zremrangebyscore bound z) ≤ zcard z

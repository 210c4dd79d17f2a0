-- ===== src/Quota/Limit.antt =====
-- The limit is kept, and slots that were never released do not count for ever.
use stock_invest_system.Prelude.{
  ℕ, ◌+◌, ◌-◌, ◌≤◌, ◌<◌, ◌≡◌, true, false, List, [], ◌∷◌, arith, none, some, Option-cases, inl, inr,
}
use stock_invest_system.Prelude.Int.{pos}
use stock_invest_system.Quota.Zset.{SortedSet}
use stock_invest_system.Quota.Slots.{
  Settings, Call, acquire_call, release_call, count_call, evict, acquire_script, acquire, release,
  running_count, step, run,
}

module _ {Z : Type 0} (d : SortedSet Z) (c : Settings) where
  zcard-evict : (now : ℕ) (z : Z) → d.zcard (evict d c now z) ≤ d.zcard z
  unfolding evict
  zcard-evict now z = ground (arith, d.zcard_zremrangebyscore (now - c.stale) z)

  zcard-zadd_le : (t m : ℕ) (z : Z) → d.zcard (d.zadd t m z) ≤ d.zcard z + 1
  zcard-zadd_le t m z = elim (Option-cases (d.score z m)) [
    | inl e ↦ omega (arith, d.zcard_zadd t m z e)
    | inr (u, e) ↦ omega (arith, d.zcard_zadd_again t m u z e)
  ]

  zcard-zrem_le : (m : ℕ) (z : Z) → d.zcard (d.zrem m z) ≤ d.zcard z
  zcard-zrem_le m z = elim (Option-cases (d.score z m)) [
    | inl e ↦ omega (arith, d.zcard_zrem_none m z e)
    | inr (u, e) ↦ omega (arith, d.zcard_zrem m u z e)
  ]

  step-le_limit : (call : Call) (z : Z) → d.zcard z ≤ c.limit → d.zcard (step d c call z) ≤ c.limit
  unfolding step acquire acquire_script release running_count
  step-le_limit (acquire_call true now token) z h =
      ground (arith, zcard-evict now z, zcard-zadd_le now token (evict d c now z))
  step-le_limit (acquire_call false now token) z h = h
  step-le_limit (release_call true token) z h = omega (arith, zcard-zrem_le token z)
  step-le_limit (release_call false token) z h = h
  step-le_limit (count_call true now) z h = omega (arith, zcard-evict now z)
  step-le_limit (count_call false now) z h = h

  -- Whatever is called, in whatever order and with Redis in reach or not, a user's set that starts
  -- within the limit never has more slots than the limit.
  pub run-le_limit :
      (calls : List Call) (z : Z) → d.zcard z ≤ c.limit → d.zcard (run d c calls z) ≤ c.limit
  unfolding run
  run-le_limit [] z h = h
  run-le_limit (call ∷ calls) z h = run-le_limit calls (step d c call z) (step-le_limit call z h)

  evict-none :
      (now : ℕ) (z : Z)
      → ((k t : ℕ) → d.score z k ≡ some t → t + c.stale ≤ now)
      → (k : ℕ) → d.score (evict d c now z) k ≡ none
  unfolding evict
  evict-none now z old k = elim (Option-cases (d.score z k)) [
    | inl e ↦ ground (arith, d.score_zremrangebyscore (now - c.stale) z k)
    | inr (t, e) ↦ ground (arith, d.score_zremrangebyscore (now - c.stale) z k, old k t e)
  ]

  -- The slots heal: when every slot was taken stale seconds ago or earlier, and the limit is not 0,
  -- the next request is granted as the user's only one, whether the slots were released or not.
  pub acquire_heals :
      (now token : ℕ) (z : Z)
      → ((k t : ℕ) → d.score z k ≡ some t → t + c.stale ≤ now)
      → 0 < c.limit
      → ((acquire d c true now token z).granted ≡ true)
        × ((acquire d c true now token z).running ≡ pos 1)
        × (d.zcard (acquire d c true now token z).slots ≡ 1)
  unfolding acquire acquire_script
  acquire_heals now token z old h =
      let gone = evict-none now z old in
      ground (
        arith,
        d.zcard_none (evict d c now z) gone,
        d.zcard_zadd now token (evict d c now z) (gone token),
      )

  -- A refused request takes no slot, and is refused only when as many slots as the limit are
  -- taken that are not stale.
  pub acquire_refused :
      (now token : ℕ) (z : Z)
      → (acquire d c true now token z).granted ≡ false
      → ((acquire d c true now token z).slots ≡ evict d c now z)
        × (c.limit ≤ d.zcard (evict d c now z))
  unfolding acquire acquire_script
  acquire_refused now token z h = ground arith

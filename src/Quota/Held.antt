-- ===== src/Quota/Held.antt =====
-- Who has a slot, and for how long.
use stock_invest_system.Prelude.{
  ℕ, suc, ◌+◌, ◌-◌, ◌<◌, ◌≡◌, ◌≢◌, refl, Bool, true, false, List, [], ◌∷◌, arith, none, some, All,
}
use stock_invest_system.Quota.Zset.{SortedSet}
use stock_invest_system.Quota.Slots.{
  Settings, Call, acquire_call, release_call, count_call, evict, acquire_script, acquire, release,
  running_count, step, run,
}

-- A call of others: it names another token, and comes before the slot taken at t is stale.
abbrev pub ByOthers : Settings → ℕ → ℕ → Call → Type 0
ByOthers c token t (acquire_call up now other) = (other ≢ token) × (now < t + c.stale)
ByOthers c token t (release_call up other) = other ≢ token
ByOthers c token t (count_call up now) = now < t + c.stale

module _ {Z : Type 0} (d : SortedSet Z) (c : Settings) where
  evict-keeps :
      (now token t : ℕ) (z : Z)
      → d.score z token ≡ some t
      → now < t + c.stale
      → d.score (evict d c now z) token ≡ some t
  unfolding evict
  evict-keeps now token t z h young =
      ground (arith, d.score_zremrangebyscore (now - c.stale) z token)

  step-keeps :
      (call : Call) (token t : ℕ) (z : Z)
      → d.score z token ≡ some t
      → ByOthers c token t call
      → d.score (step d c call z) token ≡ some t
  unfolding step acquire acquire_script release running_count
  step-keeps (acquire_call true now other) token t z h o =
      ground
        (arith, evict-keeps now token t z h o.1, d.score_zadd now other (evict d c now z) token)
  step-keeps (acquire_call false now other) token t z h o = h
  step-keeps (release_call true other) token t z h o = ground (arith, d.score_zrem other z token)
  step-keeps (release_call false other) token t z h o = h
  step-keeps (count_call true now) token t z h o = evict-keeps now token t z h o
  step-keeps (count_call false now) token t z h o = h

  run-keeps :
      (calls : List Call) (token t : ℕ) (z : Z)
      → d.score z token ≡ some t
      → All (ByOthers c token t) calls
      → d.score (run d c calls z) token ≡ some t
  unfolding run
  run-keeps [] token t z h o = h
  run-keeps (call ∷ calls) token t z h o =
      run-keeps calls token t (step d c call z) (step-keeps call token t z h o.0) o.1

  -- A request that Redis grants holds its slot from then on, whatever the user's other requests
  -- do, until its own token is released or it is stale.
  pub granted_is_held :
      (now token : ℕ) (z : Z) (calls : List Call)
      → (acquire d c true now token z).granted ≡ true
      → All (ByOthers c token now) calls
      → d.score (run d c calls (acquire d c true now token z).slots) token ≡ some now
  unfolding acquire acquire_script
  granted_is_held now token z calls h o =
      run-keeps calls token now (acquire d c true now token z).slots
        (ground (arith, d.score_zadd now token (evict d c now z) token)) o

  -- To release a slot that is held frees exactly one, and to release it again changes no count, also
  -- when the second release does not reach Redis.
  pub release_lem :
      (token t : ℕ) (z : Z) (up : Bool)
      → d.score z token ≡ some t
      → (d.zcard z ≡ suc (d.zcard (release d c true token z)))
        × (d.score (release d c true token z) token ≡ none)
        × (d.zcard (release d c up token (release d c true token z))
            ≡ d.zcard (release d c true token z))
  unfolding release
  release_lem token t z up h = (d.zcard_zrem token t z h, gone, again up)
    where
      gone : d.score (d.zrem token z) token ≡ none
      gone = ground (arith, d.score_zrem token z token)

      again :
          (up : Bool) → d.zcard (release d c up token (d.zrem token z)) ≡ d.zcard (d.zrem token z)
      again true = d.zcard_zrem_none token (d.zrem token z) gone
      again false = refl

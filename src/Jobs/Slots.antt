-- ===== src/Jobs/Slots.antt =====
-- The slot of a request to create a back-test.
use stock_invest_system.Prelude.{
  ℕ, ◌-◌, ◌≡◌, arith, Bool, true, false, ◌||◌, List, [], ◌∷◌, ◌++◌, Option, none, some, ◌==◌,
  is_some,
}
use stock_invest_system.Redis.{ExpiringKeys}
use stock_invest_system.Quota.Zset.{SortedSet}
use stock_invest_system.Quota.Slots as Slots
use stock_invest_system.Jobs.Store.{TradingStrategy, get_strategy}
use stock_invest_system.Jobs.Create.{
  validate_cached, Desk, Submission, create_backtest, with_task, with_slot, with_symbol,
  with_strategy, with_slots,
}

-- Whether a message holds a token.
abbrev pub has_message : ℕ → List (ℕ × ℕ) → Bool
has_message token [] = false
has_message token ((id, t) ∷ ms) = (t == token) || has_message token ms

has_message-append :
    (id token : ℕ) (ms : List (ℕ × ℕ)) → has_message token (ms ++ (id, token) ∷ []) ≡ true
has_message-append id token [] = ground arith
has_message-append id token (m ∷ ms) = ground (arith, has_message-append id token ms)

module _ {Z : Type 0} (d : SortedSet Z) (c : Slots.Settings) where
  acquire-slot :
      (now token : ℕ) (z : Z)
      → d.score z token ≡ none
      → is_some (d.score (Slots.acquire d c true now token z).slots token)
        ≡ (Slots.acquire d c true now token z).granted
  unfolding Slots.acquire Slots.acquire_script Slots.evict
  acquire-slot now token z h = ground (
    arith,
    d.score_zremrangebyscore (now - c.stale) z token,
    d.score_zadd now token (Slots.evict d c now z) token,
  )

  release-slot :
      (token : ℕ) (z : Z) → is_some (d.score (Slots.release d c true token z) token) ≡ false
  unfolding Slots.release
  release-slot token z = ground (arith, d.score_zrem token z token)

module _ {M Z S : Type 0} (k : ExpiringKeys S) (digest : ℕ → ℕ) where
  module _ (d : SortedSet Z) (c : Slots.Settings) (threshold : ℕ) where
    -- The token has a slot exactly if it has a message.
    abbrev Matched : Submission → Desk M Z S → Type 0
    Matched q desk =
        is_some (d.score (desk.world.slots q.user_id) q.token) ≡ has_message q.token desk.queue

    abbrev Unused : Submission → Desk M Z S → Type 0
    Unused q desk =
        (d.score (desk.world.slots q.user_id) q.token ≡ none)
        × (has_message q.token desk.queue ≡ false)

    with_task-Matched :
        (q : Submission) (symbol_id : ℕ) (desk : Desk M Z S)
        → q.redis ≡ true
        → is_some (d.score (desk.world.slots q.user_id) q.token) ≡ true
        → has_message q.token desk.queue ≡ false
        → Matched q (with_task k digest d c threshold q symbol_id desk).desk
    with_task-Matched q symbol_id desk up held no_message = ground (
      arith,
      up,
      has_message-append desk.world.db.next_task q.token desk.queue,
      release-slot d c q.token (desk.world.slots q.user_id),
    )

    with_slot-Matched :
        (q : Submission) (symbol_id : ℕ) (desk : Desk M Z S)
        → q.redis ≡ true
        → Unused q desk
        → Matched q (with_slot k digest d c threshold q symbol_id desk).desk
    with_slot-Matched q symbol_id desk up unused =
        let a = Slots.acquire d c true q.now q.token (desk.world.slots q.user_id) in
        let slot = acquire-slot d c q.now q.token (desk.world.slots q.user_id) unused.0 in
        let taken = with_slots k digest d c threshold q.user_id a.slots desk in
        ground (arith, up, slot, with_task-Matched q symbol_id taken up)

    with_symbol-Matched :
        (q : Submission) (symbol : Option ℕ) (desk : Desk M Z S)
        → q.redis ≡ true
        → Unused q desk
        → Matched q (with_symbol k digest d c threshold q symbol desk).desk
    with_symbol-Matched q none desk up unused = ground (arith, unused)
    with_symbol-Matched q (some symbol_id) desk up unused =
        with_slot-Matched q symbol_id desk up unused

    with_strategy-Matched :
        (q : Submission) (s : Option TradingStrategy) (desk : Desk M Z S)
        → q.redis ≡ true
        → Unused q desk
        → Matched q (with_strategy k digest d c threshold q s desk).desk
    with_strategy-Matched q none desk up unused = ground (arith, unused)
    with_strategy-Matched q (some s) desk up unused =
        let v = validate_cached k digest q.redis q.now s.code q.verdict desk.cache in
        ground (
          arith,
          unused,
          with_symbol-Matched q q.symbol (record desk { cache = v.cache }) up unused,
        )

    -- A request to create a back-test, with Redis in reach and a token that is not in use, leaves the
    -- user a slot under that token exactly if it leaves a message with the token in the queue:
    -- neither a refusal nor an error of the database or of the broker keeps a slot.
    pub create_backtest-Matched :
        (q : Submission) (desk : Desk M Z S)
        → q.redis ≡ true
        → (d.score (desk.world.slots q.user_id) q.token ≡ none)
          × (has_message q.token desk.queue ≡ false)
        → let after = (create_backtest k digest d c threshold q desk).desk in
          is_some (d.score (after.world.slots q.user_id) q.token) ≡ has_message q.token after.queue
    unfolding create_backtest
    create_backtest-Matched q desk up unused = ground (
      arith,
      unused,
      with_strategy-Matched q (get_strategy q.user_id q.strategy_id desk.world.db.strategies) desk
          up unused,
    )

-- ===== src/Sse/Cache.antt =====
-- The cache of the deltas of a conversation: agent/sse.py. Contents and the JSON of other events are
-- numbers; a round trip of an event through JSON is the event.
use stock_invest_system.Prelude.{
  ℕ, ◌+◌, ◌≤◌, ◌<◌, ◌≡◌, Bool, true, false, List, [], ◌∷◌, ◌++◌, Option, none, some, ◌==◌, ltb,
  if◌then◌else◌, take_last,
}
use stock_invest_system.Redis.{ExpiringKeys}

pub record Delta : Type 0 where
  pub seq : ℕ
  pub content : ℕ

abbrev pub is_empty : List Delta → Bool
is_empty [] = true
is_empty (d ∷ ds) = false

-- What is used of Redis' lists, as the commands' documentation has it: an empty list is no key.
pub record ExpiringLists (L : Type 0) : Type 0 where
  -- LRANGE 0 -1 at a time.
  pub lrange : L → ℕ → ℕ → List Delta
  pub exists : L → ℕ → ℕ → Bool
  -- RPUSH, LTRIM -n -1 and EXPIRE in one pipeline: the time, n, the seconds to live and the key.
  pub push_trim : ℕ → ℕ → ℕ → ℕ → Delta → L → L
  pub delete : ℕ → L → L
  pub lrange-push_trim :
      (now n ttl key : ℕ) (e : Delta) (l : L) (t k : ℕ)
      → 0 < n
      → now ≤ t
      → lrange (push_trim now n ttl key e l) t k ≡ (
          if k == key
          then (if ltb t (now + ttl) then take_last n (lrange l now key ++ e ∷ []) else [])
          else lrange l t k)
  pub lrange-delete :
      (key : ℕ) (l : L) (t k : ℕ)
      → lrange (delete key l) t k ≡ (if k == key then [] else lrange l t k)
  pub exists-empty : (l : L) (t k : ℕ) → is_empty (lrange l t k) ≡ true → exists l t k ≡ false

-- SSE_DELTA_CACHE_MAX and SSE_DELTA_CACHE_TTL.
pub record Settings : Type 0 where
  pub max : ℕ
  pub ttl : ℕ

-- The keys chat_delta and chat_done.
pub record Cache (L S : Type 0) : Type 0 where
  pub deltas : L
  pub dones : S

abbrev pub after : ℕ → List Delta → List Delta
after last_seq [] = []
after last_seq (d ∷ ds) =
    let rest = after last_seq ds in if ltb last_seq d.seq then d ∷ rest else rest

module _ {L S : Type 0} (r : ExpiringLists L) (k : ExpiringKeys S) (c : Settings) where
  unfoldable pub clear_delta_cache : Bool → ℕ → Cache L S → Cache L S
  clear_delta_cache true conv s = record {
    deltas = r.delete conv s.deltas;
    dones = k.delete conv s.dones;
  }
  clear_delta_cache false conv s = s

  unfoldable pub cache_delta : Bool → ℕ → ℕ → Delta → Cache L S → Cache L S
  cache_delta true now conv e s = record s { deltas = r.push_trim now c.max c.ttl conv e s.deltas }
  cache_delta false now conv e s = s

  unfoldable pub cache_done : Bool → ℕ → ℕ → ℕ → Cache L S → Cache L S
  cache_done true now conv e s = record s { dones = k.set_ex now c.ttl conv e s.dones }
  cache_done false now conv e s = s

  abbrev pub deltas_after : Bool → ℕ → List Delta → Option (List Delta)
  deltas_after there last_seq [] = if there then some [] else none
  deltas_after there last_seq (d ∷ ds) = some (after last_seq (d ∷ ds))

  unfoldable pub read_deltas_after : Bool → ℕ → ℕ → ℕ → Cache L S → Option (List Delta)
  read_deltas_after true now conv last_seq s =
      deltas_after (r.exists s.deltas now conv) last_seq (r.lrange s.deltas now conv)
  read_deltas_after false now conv last_seq s = none

  unfoldable pub read_done : Bool → ℕ → ℕ → Cache L S → Option ℕ
  read_done true now conv s = k.value s.dones now conv
  read_done false now conv s = none

-- ===== src/Sse/Tests.antt =====
-- A conversation with three deltas, and a cache that keeps the last two.
use stock_invest_system.Prelude.{
  ℕ, ◌+◌, ◌-◌, ◌≤◌, ◌<◌, ◌≡◌, refl, arith, true, false, not, List, [], ◌∷◌, ◌++◌, none, some, ◌==◌,
  ltb, max, if◌then◌else◌, drop, take_last, length,
}
use stock_invest_system.Auth.Simple.{Writes, writes}
use stock_invest_system.Sse.Cache.{
  Delta, is_empty, ExpiringLists, Settings, Cache, clear_delta_cache, read_deltas_after,
}
use stock_invest_system.Sse.Stream.{
  delta, done, tool_call, Arrival, Timeouts, Streamed, raised, stream,
}
use stock_invest_system.Sse.Resume.{sent_deltas, read_deltas_after_lem}

-- A key's list, and the time at which it is gone.
record Kept : Type 0 where
  pub deltas : List Delta
  pub until : ℕ

abbrev Table : Type 0
Table = ℕ → Kept

abbrev lrange : Table → ℕ → ℕ → List Delta
lrange l t k = if ltb t (l k).until then (l k).deltas else []

abbrev push_trim : ℕ → ℕ → ℕ → ℕ → Delta → Table → Table
push_trim now n ttl key e l k =
    if k == key
    then record { deltas = take_last n (lrange l now key ++ e ∷ []); until = now + ttl }
    else l k

abbrev delete : ℕ → Table → Table
delete key l k = if k == key then record { deltas = []; until = 0 } else l k

lrange-push :
    (now n ttl key : ℕ) (e : Delta) (l : Table) (t k : ℕ)
    → 0 < n
    → now ≤ t
    → lrange (push_trim now n ttl key e l) t k ≡ (
        if k == key
        then (if ltb t (now + ttl) then take_last n (lrange l now key ++ e ∷ []) else [])
        else lrange l t k)
lrange-push now n ttl key e l t k big le = ground arith

lrange-delete :
    (key : ℕ) (l : Table) (t k : ℕ)
    → lrange (delete key l) t k ≡ (if k == key then [] else lrange l t k)
lrange-delete key l t k = ground arith

absent : (ds : List Delta) → is_empty ds ≡ true → not (is_empty ds) ≡ false
absent ds h = ground (arith, h)

abbrev table : ExpiringLists Table
table = record {
  lrange = lrange;
  exists = λ l t k. not (is_empty (lrange l t k));
  push_trim = push_trim;
  delete = delete;
  lrange-push_trim = lrange-push;
  lrange-delete = lrange-delete;
  exists-empty = λ l t k h. absent (lrange l t k) h;
}

abbrev settings : Settings
settings = record { max = 2; ttl = 600 }

abbrev limits : Timeouts
limits = record { first_token = 30; inter_delta = 15; total = 120 }

abbrev arrivals : List Arrival
arrivals =
    record { wait = 5; event = delta 11 }
    ∷ record { wait = 1; event = tool_call 2 }
    ∷ record { wait = 4; event = delta 12 }
    ∷ record { wait = 4; event = delta 13 }
    ∷ record { wait = 1; event = done 9 }
    ∷ []

abbrev cache : Cache Table Writes
cache = record { deltas = λ k. record { deltas = []; until = 0 }; dones = [] }

abbrev streamed : Streamed Table Writes
streamed =
    stream table writes settings limits 7 1 100 100 true 0 arrivals
      (clear_delta_cache table writes settings true 7 cache)

ended : streamed.at ≤ 130
unfolding stream
ended = omega arith

read_deltas_after_lem_example :
    read_deltas_after table writes settings true 130 7 0 streamed.cache ≡ (
      if is_empty (sent_deltas streamed.frames)
      then none
      else some
          (drop (max 0 (length (sent_deltas streamed.frames) - 2)) (sent_deltas streamed.frames)))
read_deltas_after_lem_example =
    read_deltas_after_lem table writes settings limits 7 1 100 130 0 arrivals cache (omega arith)
      (omega arith) ended (omega arith)

-- Eight waits of 15 seconds use up the time; the ninth event is not waited for.
abbrev slow : Arrival
slow = record { wait = 15; event = delta 1 }

abbrev slow_arrivals : List Arrival
slow_arrivals = slow ∷ slow ∷ slow ∷ slow ∷ slow ∷ slow ∷ slow ∷ slow ∷ slow ∷ []

breaks_off : (stream table writes settings limits 7 1 0 0 true 0 slow_arrivals cache).end ≡ raised
unfolding stream
breaks_off = refl

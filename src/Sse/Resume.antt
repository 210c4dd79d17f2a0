-- ===== src/Sse/Resume.antt =====
-- What a client that comes back to a stream is sent.
use stock_invest_system.Prelude.{
  ℕ, suc, ◌+◌, ◌-◌, ◌≤◌, ◌<◌, ◌≡◌, refl, ◌∙◌, arith, Bool, true, false, List, [], ◌∷◌, ◌++◌, none,
  some, ◌==◌, leb, min, max, if◌then◌else◌, drop, take_last, length, append_assoc, append-nil,
  subst, subst⁻¹, Bool-cases, inl, inr,
}
use stock_invest_system.Redis.{ExpiringKeys}
use stock_invest_system.Sse.Cache.{
  Delta, is_empty, after, ExpiringLists, Settings, Cache, clear_delta_cache, cache_delta,
  cache_done, deltas_after, read_deltas_after,
}
use stock_invest_system.Sse.Stream.{
  Event, delta, done, tool_call, other, Arrival, Timeouts, Frame, numbered, truncated, StreamEnd,
  timed_out, raised, Streamed, with_frame, cached_of, frame_of, seq_of, step_timeout, still_first,
  stream,
}
use stock_invest_system.Sse.Slices.{
  take_last-nil, take_last-append, Numbered, after-take_last, is_empty-take_last,
}

-- The deltas that were sent.
abbrev pub sent_deltas : List Frame → List Delta
sent_deltas [] = []
sent_deltas (numbered d ∷ fs) = d ∷ sent_deltas fs
sent_deltas (f ∷ fs) = sent_deltas fs

abbrev own : ℕ → Event → List Delta
own seq (delta x) = record { seq = suc seq; content = x } ∷ []
own seq e = []

-- Whether the client was told that the answer was cut.
abbrev pub has_cut : List Frame → Bool
has_cut [] = false
has_cut (truncated ∷ fs) = true
has_cut (f ∷ fs) = has_cut fs

abbrev pub is_timeout : StreamEnd → Bool
is_timeout timed_out = true
is_timeout e = false

module _ {L S : Type 0} (r : ExpiringLists L) (k : ExpiringKeys S) (c : Settings)
    (limits : Timeouts) where
  module _ (conv cut : ℕ) where
    has_cut-frame :
        (seq : ℕ) (e : Event) (fs : List Frame)
        → has_cut (frame_of r k c limits conv cut seq e ∷ fs) ≡ has_cut fs
    has_cut-frame seq (delta x) fs = refl
    has_cut-frame seq (done x) fs = refl
    has_cut-frame seq (tool_call x) fs = refl
    has_cut-frame seq (other x) fs = refl

    -- A client is told that its answer was cut exactly if the stream ends by a wait that took too
    -- long: not when it ends after the agent's last event, and not when it raises because the total
    -- time is used up between two events.
    pub has_cut-stream :
        (start now : ℕ) (first : Bool) (seq : ℕ) (arrivals : List Arrival) (s : Cache L S)
        → let z = stream r k c limits conv cut start now first seq arrivals s in
          has_cut z.frames ≡ is_timeout z.end
    unfolding stream
    has_cut-stream start now first seq [] s = refl
    has_cut-stream start now first seq (a ∷ rest) s =
        let next = now + a.wait in
        let later =
          stream r k c limits conv cut start next (still_first r k c limits conv cut first a.event)
            (seq_of r k c limits conv cut seq a.event) rest
            (cached_of r k c limits conv cut next seq a.event s) in
        ground (
          arith,
          has_cut-frame seq a.event later.frames,
          has_cut-stream start next (still_first r k c limits conv cut first a.event)
              (seq_of r k c limits conv cut seq a.event) rest
              (cached_of r k c limits conv cut next seq a.event s),
        )

    -- From a time to the end of the stream's first life time, the cache holds the last of a list.
    abbrev Holds : ℕ → ℕ → List Delta → Cache L S → Type 0
    Holds from until ds s =
        (t : ℕ) → from ≤ t → t < until → r.lrange s.deltas t conv ≡ take_last c.max ds

    cached_of-Holds :
        (now next seq until : ℕ) (e : Event) (ds : List Delta) (s : Cache L S)
        → 0 < c.max
        → now ≤ next
        → next < until
        → until ≤ next + c.ttl
        → Holds now until ds s
        → Holds next until (ds ++ own seq e) (cached_of r k c limits conv cut next seq e s)
    unfolding cache_delta cache_done
    cached_of-Holds now next seq until (delta x) ds s big le lt live h t from before =
        let d : Delta = record { seq = suc seq; content = x } in
        r.lrange-push_trim next c.max c.ttl conv d s.deltas t conv big from
        ∙ ground (arith, h next le lt, take_last-append c.max ds d)
    cached_of-Holds now next seq until (done x) ds s big le lt live h t from before =
        rw (append-nil ds) (h t (omega arith) before)
    cached_of-Holds now next seq until (tool_call x) ds s big le lt live h t from before =
        rw (append-nil ds) (h t (omega arith) before)
    cached_of-Holds now next seq until (other x) ds s big le lt live h t from before =
        rw (append-nil ds) (h t (omega arith) before)

    sent_deltas-own :
        (seq : ℕ) (e : Event) (fs : List Frame)
        → sent_deltas (frame_of r k c limits conv cut seq e ∷ fs) ≡ own seq e ++ sent_deltas fs
    sent_deltas-own seq (delta x) fs = refl
    sent_deltas-own seq (done x) fs = refl
    sent_deltas-own seq (tool_call x) fs = refl
    sent_deltas-own seq (other x) fs = refl

    own-Numbered :
        (seq : ℕ) (e : Event) (ds : List Delta)
        → Numbered (seq_of r k c limits conv cut seq e) ds
        → Numbered seq (own seq e ++ ds)
    own-Numbered seq (delta x) ds h = (refl, h)
    own-Numbered seq (done x) ds h = h
    own-Numbered seq (tool_call x) ds h = h
    own-Numbered seq (other x) ds h = h

    -- What holds of a stream that goes on after a list of deltas.
    abbrev Right : ℕ → ℕ → ℕ → List Delta → Streamed L S → Type 0
    Right now until seq old z =
        Holds z.at until (old ++ sent_deltas z.frames) z.cache
        × Numbered seq (sent_deltas z.frames)
        × (now ≤ z.at)

    with_frame-Right :
        (now next until seq : ℕ) (e : Event) (old : List Delta) (z : Streamed L S)
        → now ≤ next
        → Right next until (seq_of r k c limits conv cut seq e) (old ++ own seq e) z
        → Right now until seq old
            (with_frame r k c limits conv cut (frame_of r k c limits conv cut seq e) z)
    with_frame-Right now next until seq e old z le h =
        let frames = sent_deltas-own seq e z.frames in
        (
          subst⁻¹ (λ ds. Holds z.at until (old ++ ds) z.cache) frames
              (subst (λ ds. Holds z.at until ds z.cache)
                (append_assoc old (own seq e) (sent_deltas z.frames)) h.0),
          subst⁻¹ (Numbered seq) frames (own-Numbered seq e (sent_deltas z.frames) h.1),
          omega (arith, h.2),
        )

    stopped-Right :
        (now until seq : ℕ) (old : List Delta) (s : Cache L S)
        → Holds now until old s
        → Right now until seq old (record { frames = []; end = raised; at = now; cache = s })
    stopped-Right now until seq old s h =
        (subst⁻¹ (λ ds. Holds now until ds s) (append-nil old) h, tt, omega arith)

    stream-Right :
        (start now : ℕ) (first : Bool) (seq : ℕ) (arrivals : List Arrival) (old : List Delta)
        (s : Cache L S)
        → 0 < c.max
        → limits.total < c.ttl
        → start ≤ now
        → Holds now (start + c.ttl) old s
        → Right now
            (start + c.ttl)
            seq
            old
            (stream r k c limits conv cut start now first seq arrivals s)
    unfolding stream cache_done
    stream-Right start now first seq [] old s big short le h =
        (subst⁻¹ (λ ds. Holds now (start + c.ttl) ds s) (append-nil old) h, tt, omega arith)
    stream-Right start now first seq (a ∷ rest) old s big short le h =
        let remaining = limits.total - (now - start) in
        let patience = min (step_timeout r k c limits conv cut first) remaining in
        elim (Bool-cases (remaining == 0)) [
          | inl over ↦ rw (over, stream) (stopped-Right now (start + c.ttl) seq old s h)
          | inr time ↦ elim (Bool-cases (leb a.wait patience)) [
            | inr late ↦
                rw (time, late, stream)
                  (
                    subst⁻¹ (λ ds. Holds (now + patience) (start + c.ttl) ds s) (append-nil old)
                        (λ t from before. h t (omega arith) before),
                    tt,
                    omega arith,
                  )
            | inl in_time ↦
                let next = now + a.wait in
                let soon : next < start + c.ttl = ground arith in
                let later =
                  stream r k c limits conv cut start next
                    (still_first r k c limits conv cut first a.event)
                    (seq_of r k c limits conv cut seq a.event) rest
                    (cached_of r k c limits conv cut next seq a.event s) in
                rw (time, in_time, stream)
                  (with_frame-Right now next (start + c.ttl) seq a.event old later (omega arith) (
                    stream-Right start next (still_first r k c limits conv cut first a.event)
                      (seq_of r k c limits conv cut seq a.event) rest (old ++ own seq a.event)
                      (cached_of r k c limits conv cut next seq a.event s) big short (omega arith)
                      (cached_of-Holds now next seq (start + c.ttl) a.event old s big (omega arith)
                        soon (omega arith) h)))
          ]
        ]

    deltas_after_lem :
        (there : Bool) (last_seq : ℕ) (ds : List Delta)
        → (is_empty ds ≡ true → there ≡ false)
        → deltas_after r k c there last_seq ds
          ≡ (if is_empty ds then none else some (after last_seq ds))
    deltas_after_lem there last_seq [] h = rw (h refl) refl
    deltas_after_lem there last_seq (d ∷ ds) h = refl

    held_answer :
        (now last_seq : ℕ) (sent : List Delta) (s : Cache L S)
        → 0 < c.max
        → r.lrange s.deltas now conv ≡ take_last c.max sent
        → Numbered 0 sent
        → read_deltas_after r k c true now conv last_seq s
          ≡ (if is_empty sent then none else some (drop (max last_seq (length sent - c.max)) sent))
    unfolding read_deltas_after
    held_answer now last_seq sent s big held order =
        deltas_after_lem (r.exists s.deltas now conv) last_seq (r.lrange s.deltas now conv)
          (r.exists-empty s.deltas now conv)
        ∙ rw (held, is_empty-take_last c.max sent big, after-take_last last_seq c.max sent order)
            refl

    -- A client that comes back with the number of the last delta it has is sent the deltas after it
    -- that are among the last SSE_DELTA_CACHE_MAX of the stream, in order and each once, or is told to
    -- load the answer anew if no delta was sent; as long as the cache was cleared when the stream
    -- began, Redis is in reach, and the first delta could not have expired yet.
    pub read_deltas_after_lem :
        (start now last_seq : ℕ) (arrivals : List Arrival) (s : Cache L S)
        → 0 < c.max
        → limits.total < c.ttl
        → let z =
            stream r k c limits conv cut start start true 0 arrivals
              (clear_delta_cache r k c true conv s) in
          let sent = sent_deltas z.frames in
          z.at ≤ now
          → now < start + c.ttl
          → read_deltas_after r k c true now conv last_seq z.cache ≡ (
              if is_empty sent then none else some (drop (max last_seq (length sent - c.max)) sent))
    unfolding clear_delta_cache
    read_deltas_after_lem start now last_seq arrivals s big short ended live =
        let clear = clear_delta_cache r k c true conv s in
        let z = stream r k c limits conv cut start start true 0 arrivals clear in
        let right =
          stream-Right start start true 0 arrivals [] clear big short (omega arith)
            (λ t from before.
              ground
                (arith, r.lrange-delete conv s.deltas t conv, take_last-nil {A = Delta} c.max)) in
        held_answer now last_seq (sent_deltas z.frames) z.cache big (right.0 now ended live) right.1

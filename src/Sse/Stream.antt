-- ===== src/Sse/Stream.antt =====
-- The stream: `_stream_with_timeouts`, and its resumption, `chat_resume`.
use stock_invest_system.Prelude.{
  ℕ, suc, ◌+◌, ◌-◌, Bool, true, false, List, [], ◌∷◌, Option, none, some, leb, min, ◌==◌,
  if◌then◌else◌,
}
use stock_invest_system.Redis.{ExpiringKeys}
use stock_invest_system.Sse.Cache.{
  Delta, ExpiringLists, Settings, Cache, cache_delta, cache_done, read_deltas_after, read_done,
}

-- What the agent yields; an event that is none of the first three stands for any other.
pub data Event : Type 0 where
  delta : ℕ → Event
  done : ℕ → Event
  tool_call : ℕ → Event
  other : ℕ → Event

-- The seconds until the next event, and the event.
pub record Arrival : Type 0 where
  pub wait : ℕ
  pub event : Event

-- SSE_FIRST_TOKEN_TIMEOUT, SSE_INTER_DELTA_TIMEOUT and SSE_TOTAL_TIMEOUT.
pub record Timeouts : Type 0 where
  pub first_token : ℕ
  pub inter_delta : ℕ
  pub total : ℕ

-- What the client is sent; `truncated` is the event after a timeout.
pub data Frame : Type 0 where
  numbered : Delta → Frame
  plain : Event → Frame
  truncated : Frame
  resync : Frame
  cached_done : ℕ → Frame

-- How a stream ends: the agent is at its end, a timeout was answered, or TimeoutError is raised.
pub data StreamEnd : Type 0 where
  exhausted : StreamEnd
  timed_out : StreamEnd
  raised : StreamEnd

pub record Streamed (L S : Type 0) : Type 0 where
  pub frames : List Frame
  pub end : StreamEnd
  pub at : ℕ
  pub cache : Cache L S

abbrev pub is_content : Event → Bool
is_content (delta x) = true
is_content (tool_call x) = true
is_content e = false

module _ {L S : Type 0} (r : ExpiringLists L) (k : ExpiringKeys S) (c : Settings)
    (limits : Timeouts) where
  -- The number of the event that says that the answer was cut.
  module _ (conv cut : ℕ) where
    abbrev pub with_frame : Frame → Streamed L S → Streamed L S
    with_frame f s = record s { frames = f ∷ s.frames }

    abbrev pub cached_of : ℕ → ℕ → Event → Cache L S → Cache L S
    cached_of now seq (delta x) s =
        cache_delta r k c true now conv (record { seq = suc seq; content = x }) s
    cached_of now seq (done x) s = cache_done r k c true now conv x s
    cached_of now seq e s = s

    abbrev pub frame_of : ℕ → Event → Frame
    frame_of seq (delta x) = numbered (record { seq = suc seq; content = x })
    frame_of seq e = plain e

    abbrev pub seq_of : ℕ → Event → ℕ
    seq_of seq (delta x) = suc seq
    seq_of seq e = seq

    abbrev pub step_timeout : Bool → ℕ
    step_timeout first = if first then limits.first_token else limits.inter_delta

    abbrev pub still_first : Bool → Event → Bool
    still_first first e = if is_content e then false else first

    -- The loop, from a time on: the events come while Redis is in reach.
    unfoldable pub stream : ℕ → ℕ → Bool → ℕ → List Arrival → Cache L S → Streamed L S
    stream start now first seq [] s = record { frames = []; end = exhausted; at = now; cache = s }
    stream start now first seq (a ∷ rest) s =
        let remaining = limits.total - (now - start) in
        let patience = min (step_timeout first) remaining in
        let next = now + a.wait in
        let later =
          stream start next (still_first first a.event) (seq_of seq a.event) rest
            (cached_of next seq a.event s) in
        if remaining == 0
        then record { frames = []; end = raised; at = now; cache = s }
        else (if leb a.wait patience then with_frame (frame_of seq a.event) later else record {
          frames = truncated ∷ [];
          end = timed_out;
          at = now + patience;
          cache = cache_done r k c true (now + patience) conv cut s;
        })

    abbrev done_frames : Option ℕ → List Frame
    done_frames none = []
    done_frames (some e) = cached_done e ∷ []

    abbrev frames_of : List Delta → List Frame → List Frame
    frames_of [] fs = fs
    frames_of (d ∷ ds) fs = numbered d ∷ frames_of ds fs

    abbrev resumed : Bool → ℕ → Option (List Delta) → Cache L S → List Frame
    resumed up now none s = resync ∷ []
    resumed up now (some ds) s = frames_of ds (done_frames (read_done r k c up now conv s))

    unfoldable pub chat_resume : Bool → ℕ → ℕ → Cache L S → List Frame
    chat_resume up now last_seq s =
        resumed up now (read_deltas_after r k c up now conv last_seq s) s

-- ===== src/Runner/Watch.antt =====
-- The loop of `run_isolated` that watches the child: its memory, its messages and the deadline.
use stock_invest_system.Prelude.{
  ℕ, ◌-◌, Bool, List, [], ◌∷◌, ◌++◌, Option, none, some, ltb, leb, max, if◌then◌else◌,
}
use stock_invest_system.Runner.Child.{Message, progress, ready}

-- What `recv_conn.poll`, and then `recv`, give: nothing within the wait, the end of the pipe, another
-- exception, or a message.
pub data Polled (R : Type 0) : Type 0 where
  silent : Polled R
  eof : Polled R
  unreadable : ℕ → Polled R
  got : Message R → Polled R

-- What one round of the loop would see: the child's resident memory (`none` for -1), the pipe, whether
-- the child is alive, whether there is something in the pipe of a child that is not, and the time.
pub record Round (R : Type 0) : Type 0 where
  pub rss : Option ℕ
  pub polled : Polled R
  pub alive : Bool
  pub more : Bool
  pub clock : ℕ

-- The arguments that the loop reads. `on_progress` may raise.
pub record Caller : Type 0 where
  pub memory_bytes : ℕ
  pub deadline : ℕ
  pub on_progress : Option (ℕ → Option ℕ)

-- The variables of the loop, and the percentages that `on_progress` was called with.
pub record Seen : Type 0 where
  pub rss_baseline : Option ℕ
  pub peak_rss : ℕ
  pub relayed : List ℕ

-- Why the loop is left; `watching` when it is not yet.
pub data Stop (R : Type 0) : Type 0 where
  exceeded : ℕ → Stop R
  closed : Stop R
  reported : Message R → Stop R
  exited : Stop R
  timed_out : Stop R
  interrupted : ℕ → Stop R
  watching : Stop R

pub record Watched (R : Type 0) : Type 0 where
  pub stop : Stop R
  pub seen : Seen

-- The time that `poll` waits, in milliseconds.
abbrev pub poll_interval : ℕ
poll_interval = 50

pub record Sampled : Type 0 where
  pub growth : Option ℕ
  pub seen : Seen

abbrev pub above : ℕ → ℕ → ℕ → Option ℕ
above memory_bytes rss baseline =
    if ltb memory_bytes (rss - baseline) then some (rss - baseline) else none

-- A sample that could be read.
abbrev pub sample_rss : ℕ → ℕ → Seen → Sampled
sample_rss memory_bytes rss s = elim s.rss_baseline [
  | none ↦ record {
    growth = none;
    seen = record s { rss_baseline = some rss; peak_rss = max s.peak_rss rss };
  }
  | some b ↦ record {
    growth = above memory_bytes rss b;
    seen = record s { peak_rss = max s.peak_rss rss };
  }
]

-- The watchdog of one round: the growth, when it is above the budget.
unfoldable pub sample : ℕ → Option ℕ → Seen → Sampled
sample memory_bytes none s = record { growth = none; seen = s }
sample memory_bytes (some rss) s =
    if ltb 0 memory_bytes
    then (if ltb 0 rss then sample_rss memory_bytes rss s else record { growth = none; seen = s })
    else record { growth = none; seen = s }

pub data Next (R : Type 0) : Type 0 where
  continue : Seen → Next R
  leave : Stop R → Seen → Next R

module _ {R : Type 0} (c : Caller) where
  abbrev pub relay : ℕ → Seen → Next R
  relay pct s = elim c.on_progress [
    | none ↦ continue s
    | some f ↦
        let called : Seen = record s { relayed = s.relayed ++ (pct ∷ []) } in
        elim (f pct) [ none ↦ continue called | some e ↦ leave (interrupted e) called ]
  ]

  abbrev pub on_message : Message R → Seen → Next R
  on_message (progress pct) s = relay pct s
  on_message (ready none) s = continue s
  on_message (ready (some b)) s =
      if ltb 0 b then continue (record s { rss_baseline = some b }) else continue s
  on_message m s = leave (reported m) s

  abbrev pub on_silence : Round R → Seen → Next R
  on_silence r s =
      if r.alive
      then (if leb c.deadline r.clock then leave timed_out s else continue s)
      else (if r.more then continue s else leave exited s)

  abbrev pub on_polled : Round R → Polled R → Seen → Next R
  on_polled r silent s = on_silence r s
  on_polled r eof s = leave closed s
  on_polled r (unreadable e) s = leave (interrupted e) s
  on_polled r (got m) s = on_message m s

  unfoldable pub round : Round R → Seen → Next R
  round r s =
      let z = sample c.memory_bytes r.rss s in
      elim z.growth [ some g ↦ leave (exceeded g) z.seen | none ↦ on_polled r r.polled z.seen ]

  -- The loop over the rounds so far.
  unfoldable pub watch : List (Round R) → Seen → Watched R
  watch [] s = record { stop = watching; seen = s }
  watch (r ∷ rs) s = elim (round r s) [
    | continue s' ↦ watch rs s'
    | leave stop s' ↦ record { stop = stop; seen = s' }
  ]

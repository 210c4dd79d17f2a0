-- ===== src/Runner/Child.antt =====
-- The child of backtest/runner.py: its limits, the messages it sends, and the line of an error.
use stock_invest_system.Prelude.{
  ℕ, ◌+◌, ◌*◌, ◌/◌, Bool, true, false, ◌&&◌, List, [], ◌∷◌, ◌++◌, Option, none, some, ltb,
  if◌then◌else◌,
}

-- A frame of a traceback: whether its file is `<string>`, and its line, 0 when there is none.
pub record Frame : Type 0 where
  pub is_string : Bool
  pub lineno : ℕ

-- The innermost frame of the strategy's code in one traceback, which lists the outermost first.
abbrev pub innermost : List Frame → Option ℕ
innermost [] = none
innermost (f ∷ fs) = elim (innermost fs) [
  | some line ↦ some line
  | none ↦ if f.is_string && ltb 0 f.lineno then some f.lineno else none
]

-- The tracebacks are those of the exception, of its cause, and so on.
unfoldable pub strategy_line : List (List Frame) → Option ℕ
strategy_line [] = none
strategy_line (frames ∷ causes) = elim (innermost frames) [
  | some line ↦ some line
  | none ↦ strategy_line causes
]

-- The child's machine: whether the module `resource` is there, the processor's time used so far in
-- milliseconds, the virtual memory, its resident memory (`none` for -1), and whether the two calls of
-- `setrlimit` work.
pub record Host : Type 0 where
  pub has_resource : Bool
  pub cpu_time_used : ℕ
  pub vsz : ℕ
  pub rss : Option ℕ
  pub cpu_limit_works : ℕ → ℕ → Bool
  pub memory_limit_works : ℕ → Bool

-- What `_apply_limits` reports; the processor's limit is the soft one.
pub record Limits : Type 0 where
  pub enforced : Bool
  pub cpu_limit : Option ℕ
  pub memory_limit : Option ℕ
  pub memory_error : Bool

abbrev soft_limit : Host → ℕ → ℕ
soft_limit h cpu_seconds = (h.cpu_time_used + cpu_seconds * 1000) / 1000

abbrev limit_memory : Host → ℕ → Option ℕ → Limits
limit_memory h memory_bytes cpu =
    let limit = h.vsz + memory_bytes in
    if ltb 0 memory_bytes
    then (if h.memory_limit_works limit
        then record {
          enforced = true;
          cpu_limit = cpu;
          memory_limit = some limit;
          memory_error = false;
        }
        else record { enforced = true; cpu_limit = cpu; memory_limit = none; memory_error = true })
    else record { enforced = true; cpu_limit = cpu; memory_limit = none; memory_error = false }

-- `none` when setting the processor's limit raises, which ends the child.
unfoldable pub apply_limits : Host → ℕ → ℕ → Option Limits
apply_limits h cpu_seconds memory_bytes =
    let soft = soft_limit h cpu_seconds in
    if h.has_resource
    then (if ltb 0 cpu_seconds
        then (if h.cpu_limit_works soft (soft + 5)
            then some (limit_memory h memory_bytes (some soft))
            else none)
        else some (limit_memory h memory_bytes none))
    else some
        (record { enforced = false; cpu_limit = none; memory_limit = none; memory_error = false })

pub data Message (R : Type 0) : Type 0 where
  progress : ℕ → Message R
  ready : Option ℕ → Message R
  ended : R → Limits → Message R
  failed : ℕ → Option ℕ → Limits → Message R

-- An exception: its text, by a number, and its tracebacks.
pub record Raised : Type 0 where
  pub error : ℕ
  pub tracebacks : List (List Frame)

pub data Ran (R : Type 0) : Type 0 where
  ran : R → Ran R
  raised : Raised → Ran R

-- What the engine does in the child: the percentages it reports, and how it ends.
pub record EngineRun (R : Type 0) : Type 0 where
  pub reports : List ℕ
  pub result : Ran R

-- `conn.send`, which may raise: then nothing is sent.
abbrev pub Pipe : Type 0 → Type 0
Pipe R = Message R → Option Raised

module _ {R : Type 0} where
  -- A message whose failure is swallowed.
  abbrev pub sent : Message R → Option Raised → List (Message R)
  sent m none = m ∷ []
  sent m (some e) = []

  abbrev pub try_send : Pipe R → Message R → List (Message R)
  try_send send m = sent m (send m)

  abbrev pub send_reports : Pipe R → List ℕ → List (Message R)
  send_reports send [] = []
  send_reports send (pct ∷ pcts) = try_send send (progress pct) ++ send_reports send pcts

  abbrev pub send_error : Pipe R → Limits → Raised → List (Message R)
  send_error send limits e = try_send send (failed e.error (strategy_line e.tracebacks) limits)

  -- The sending of the result stands in the same `try` as the run.
  abbrev pub send_result : Pipe R → Limits → R → Option Raised → List (Message R)
  send_result send limits r none = ended r limits ∷ []
  send_result send limits r (some e) = send_error send limits e

  abbrev pub send_ran : Pipe R → Limits → Ran R → List (Message R)
  send_ran send limits (raised e) = send_error send limits e
  send_ran send limits (ran r) = send_result send limits r (send (ended r limits))

  abbrev pub send_all : Host → Pipe R → EngineRun R → Option Limits → List (Message R)
  send_all h send run none = []
  send_all h send run (some limits) =
      try_send send (ready h.rss)
      ++ (send_reports send run.reports ++ send_ran send limits run.result)

  -- `_child_main`: the messages that it sends, in order.
  unfoldable pub child_main : Host → Pipe R → EngineRun R → ℕ → ℕ → List (Message R)
  child_main h send run cpu_seconds memory_bytes =
      send_all h send run (apply_limits h cpu_seconds memory_bytes)

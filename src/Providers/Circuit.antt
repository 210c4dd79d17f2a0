-- ===== src/Providers/Circuit.antt =====
-- `ProviderCircuit`. Times are numbers of ticks of the clock. The stamp of the last success, which
-- is only shown, is left out.
use stock_invest_system.Prelude.{ℕ, ◌+◌, Bool, true, false, List, [], ◌∷◌, leb, if◌then◌else◌}

pub data CircuitState : Type 0 where
  closed : CircuitState
  open_state : CircuitState
  half_open : CircuitState

pub record ProviderCircuit : Type 0 where
  pub failure_threshold : ℕ
  pub cooldown : ℕ
  pub failures : ℕ
  pub state : CircuitState
  pub cooldown_until : ℕ

pub record Allowed : Type 0 where
  pub granted : Bool
  pub circuit : ProviderCircuit

abbrev pub new_circuit : ℕ → ℕ → ProviderCircuit
new_circuit failure_threshold cooldown = record {
  failure_threshold = failure_threshold;
  cooldown = cooldown;
  failures = 0;
  state = closed;
  cooldown_until = 0;
}

unfoldable pub allow : ℕ → ProviderCircuit → Allowed
allow now c = elim c.state [
  | closed ↦ record { granted = true; circuit = c }
  | open_state ↦
      if leb c.cooldown_until now
      then record { granted = true; circuit = record c { state = half_open } }
      else record { granted = false; circuit = c }
  | half_open ↦ record { granted = true; circuit = c }
]

unfoldable pub record_success : ProviderCircuit → ProviderCircuit
record_success c = record c { failures = 0; state = closed }

unfoldable pub record_failure : ℕ → ProviderCircuit → ProviderCircuit
record_failure now c =
    if leb c.failure_threshold (c.failures + 1)
    then record c {
      failures = c.failures + 1;
      state = open_state;
      cooldown_until = now + c.cooldown;
    }
    else record c { failures = c.failures + 1 }

-- A call of one of the methods.
pub data Event : Type 0 where
  asked : ℕ → Event
  succeeded : Event
  failed_at : ℕ → Event

unfoldable pub step : Event → ProviderCircuit → ProviderCircuit
step (asked now) c = (allow now c).circuit
step succeeded c = record_success c
step (failed_at now) c = record_failure now c

unfoldable pub run : List Event → ProviderCircuit → ProviderCircuit
run [] c = c
run (e ∷ events) c = run events (step e c)

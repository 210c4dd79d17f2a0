-- ===== src/Trend/Swing.antt =====
-- The part of `TrendState.advance` that decides the direction, on the sign of the bar's move.
use stock_invest_system.Prelude.{ℕ, ◌+◌, Bool, true, false, not, ◌&&◌, ◌==◌, if◌then◌else◌}

-- -1, 0 and 1.
pub data Sign : Type 0 where
  down : Sign
  level : Sign
  up : Sign

abbrev pub same : Sign → Sign → Bool
same down down = true
same level level = true
same up up = true
same _ _ = false

-- The truth value of a sign.
abbrev pub moves : Sign → Bool
moves level = false
moves s = true

-- The fields direction, age, pending and pending_days of TrendState.
pub record Swing : Type 0 where
  pub direction : Sign
  pub age : ℕ
  pub pending : Sign
  pub pending_days : ℕ

abbrev pub older : Swing → ℕ
older s = if moves s.direction then s.age + 1 else s.age

abbrev pub days_against : Sign → Swing → ℕ
days_against sign s = if same s.pending sign then s.pending_days + 1 else 1

-- Whether the bar turns the direction.
unfoldable pub turns : Sign → Swing → Bool
turns sign s = moves sign && not (same sign s.direction) && (days_against sign s == 2)

unfoldable pub swing : Sign → Swing → Swing
swing sign s =
    if moves sign && not (same sign s.direction)
    then (if days_against sign s == 2
        then record { direction = sign; age = 1; pending = level; pending_days = 0 }
        else record {
          direction = s.direction;
          age = older s;
          pending = sign;
          pending_days = days_against sign s;
        })
    else record { direction = s.direction; age = older s; pending = level; pending_days = 0 }

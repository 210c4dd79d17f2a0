-- ===== src/Trend/Tests.antt =====
-- Closes that rise for two days and fall for two, in whole numbers.
use stock_invest_system.Prelude.{ℕ, ◌≡◌, refl, List, [], ◌∷◌, arith, none, length}
use stock_invest_system.Prelude.Int.{ℤ, pos, ◌+ℤ◌, ◌*ℤ◌, ◌-ℤ◌}
use stock_invest_system.Floating.Whole.{whole}
use stock_invest_system.Trend.Swing.{down, level, up, swing}
use stock_invest_system.Trend.State.{TrendState, Bar, init, accepted, advance, run, sign_of}
use stock_invest_system.Trend.Turns.{moves_onto, Ends, run-init}

abbrev bar_at : ℕ → ℕ → Bar ℤ
bar_at day close = record { date = day; close = pos close; volume = pos 7; change = pos 1 }

abbrev bars : List (Bar ℤ)
bars = bar_at 1 10 ∷ bar_at 2 11 ∷ bar_at 4 12 ∷ bar_at 5 11 ∷ []

-- Up since the second rise, with one fall pending.
abbrev rising : TrendState ℤ
rising = record init {
  close = pos 11;
  date = 5;
  moved = record { direction = up; age = 2; pending = down; pending_days = 1 };
}

falls_twice :
    (accepted rising (bar_at 6 10)).state.moved
    ≡ record { direction = down; age = 1; pending = level; pending_days = 0 }
unfolding accepted swing sign_of ◌+ℤ◌ ◌*ℤ◌ ◌-ℤ◌
falls_twice = refl

refuses_same_day : advance rising (bar_at 5 10) ≡ none
unfolding advance
refuses_same_day = refl

run-init_example : Ends (moves_onto [] (pos 0) bars) (length bars) (run init bars)
run-init_example = run-init bars (ground arith)

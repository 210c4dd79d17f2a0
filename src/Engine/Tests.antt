-- ===== src/Engine/Tests.antt =====
-- Runs of the engine on three bars, and the theorems at them.
use stock_invest_system.Prelude.{ℕ, ◌≤◌, ◌≡◌, refl, [], ◌∷◌, Option, none, some, arith}
use stock_invest_system.Prelude.Int.{ℤ, pos}
use stock_invest_system.Floating.Whole.{whole}
use stock_invest_system.Engine.Types.{
  Bar, on_open, BacktestConfig, sell_side, State, Result, ok, err, Program, finish, buy,
}
use stock_invest_system.Engine.Run.{auto_exit, open_bar, step, run_from}
use stock_invest_system.Engine.Examples.{
  config, params, bar_at, bars, trader, clock, all_of_it, value_of,
}
use stock_invest_system.Engine.Counts.{IsValid, traded}
use stock_invest_system.Engine.Position.{run_from-IsValid, step_sells_settled}
use stock_invest_system.Engine.Replay.{IsReplayed, run_from-IsReplayed}

-- Shares held, settled and bought today, and the cash.
abbrev summary : State ℤ → ℕ × ℕ × ℕ × ℤ
summary s = (s.shares_held, s.sellable, s.pending, s.cash)

-- The position is closed at 20 on the third bar, and the purchase after it is refused.
all_of_it_run : summary (value_of all_of_it).1 ≡ (0, 0, 0, pos 1102)
unfolding all_of_it
all_of_it_run = refl

run_from-IsValid_example : IsValid (value_of all_of_it).1
unfolding all_of_it
run_from-IsValid_example =
    run_from-IsValid config params (pos 1) trader clock bars {r = value_of all_of_it} refl

run_from-IsReplayed_example : IsReplayed config (value_of all_of_it).1
unfolding all_of_it
run_from-IsReplayed_example =
    run_from-IsReplayed config params (pos 1) trader clock bars {r = value_of all_of_it} refl

-- The state after the first two bars: 4 shares settled, 7 bought on the second.
two_bars : Result (Unit {0} × State ℤ)
unfolding all_of_it
two_bars = run_from config params (pos 1) trader clock (bar_at 1 9 10 11 ∷ bar_at 2 11 12 13 ∷ [])

third_bar : Bar ℤ → Result (Unit {0} × State ℤ)
unfolding all_of_it two_bars
third_bar bar = step config params (pos 1) trader (pos 2) (value_of two_bars) bar

step_sells_settled_example :
    traded sell_side (value_of (third_bar (bar_at 3 15 18 21))).1.trades ≤ 14
unfolding third_bar
step_sells_settled_example =
    step_sells_settled config params (pos 1) trader (pos 2) (value_of two_bars) (bar_at 3 15 18 21)
      {r' = value_of (third_bar (bar_at 3 15 18 21))} (ground arith) refl

abbrev limit_bar : Bar ℤ
limit_bar = bar_at 3 18 18 18

-- The third bar, opened with 11 settled shares, whose automatic exit closes the position.
abbrev exit_bar : Bar ℤ
exit_bar = bar_at 3 15 18 21

opened_state : State ℤ
unfolding third_bar
opened_state = open_bar (value_of two_bars).1 exit_bar

state_or : State ℤ → Result (State ℤ) → State ℤ
state_or s (ok s') = s'
state_or s (err e) = s

exited_state : State ℤ
unfolding opened_state state_or
exited_state = state_or opened_state (auto_exit config params opened_state exit_bar)

abbrev greedy : Program ℤ (Unit {0})
greedy = buy (some (pos 7)) (λ _ _. buy none (λ _ _. finish tt))

code_value : Option (Unit {0} × State ℤ) → Unit {0} × State ℤ
code_value none = (tt, exited_state)
code_value (some r) = r

abbrev delayed : BacktestConfig ℤ
delayed = record config { fill_on = on_open }

-- ===== src/Engine/Examples.antt =====
-- A run of the engine on three bars, for the tests.
use stock_invest_system.Prelude.{ℕ, false, List, [], ◌∷◌, none, some}
use stock_invest_system.Prelude.Int.{ℤ, pos, ◌+ℤ◌, ◌-ℤ◌, ◌*ℤ◌}
use stock_invest_system.Floating.Whole.{whole}
use stock_invest_system.Engine.Types.{
  Bar, on_close, BacktestConfig, Params, State, Result, ok, err, finish, buy, sell, Strategy,
}
use stock_invest_system.Engine.Fill.{
  consume, is_limit_up, is_limit_down, fill_price, volume_limit, affordable, book_buy, fill_buy,
  book_sell, fill_sell, book_if_any, sell_if_any,
}
use stock_invest_system.Engine.Run.{
  place_buy, place_sell, do_buy, do_sell, fifo_entry_cost, exit_entry, auto_exit, settle_orders,
  open_bar, close_bar, exit_if_held, run_program, step, run_bars, fresh, run_from,
}

abbrev pub config : BacktestConfig ℤ
config = record {
  initial_cash = pos 1000;
  commission_rate = pos 0;
  stamp_duty_rate = pos 0;
  fill_on = on_close;
  slippage_pct = pos 0;
  time_budget = pos 30;
  max_volume_pct = pos 1;
}

abbrev pub params : Params ℤ
params = record { position_max_pct = none; stop_loss_pct = none; take_profit_pct = some (pos 1) }

abbrev pub bar_at : ℕ → ℕ → ℕ → ℕ → Bar ℤ
bar_at ts low close high = record {
  ts = ts;
  open_price = pos close;
  high = pos high;
  low = pos low;
  close = pos close;
  volume = some (pos 500);
  limit_up = none;
  limit_down = none;
}

abbrev pub bars : List (Bar ℤ)
bars = bar_at 1 9 10 11 ∷ bar_at 2 11 12 13 ∷ bar_at 3 15 18 21 ∷ []

-- Buys 7 shares on every bar, and sells 3 when it can.
abbrev pub trader : Strategy ℤ (Unit {0})
trader = record {
  start = tt;
  initialize = none;
  on_bar = λ _ _ _. buy (some (pos 7)) (λ _ _. sell (some (pos 3)) (λ _ _. finish tt));
}

abbrev pub clock : ℕ → ℤ
clock n = pos n

-- What a run needs open to compute.
unfoldable pub all_of_it : Result (Unit {0} × State ℤ)
unfolding run_from run_bars step fresh close_bar open_bar settle_orders exit_if_held auto_exit
    exit_entry fifo_entry_cost do_buy do_sell place_buy place_sell run_program fill_buy fill_sell
    book_if_any sell_if_any book_buy book_sell affordable volume_limit fill_price is_limit_up
    is_limit_down consume ◌+ℤ◌ ◌-ℤ◌ ◌*ℤ◌
all_of_it = run_from config params (pos 1) trader clock bars

abbrev pub start : State ℤ
unfolding fresh
start = fresh config (bar_at 1 9 10 11)

abbrev pub value_of : Result (Unit {0} × State ℤ) → Unit {0} × State ℤ
value_of (ok r) = r
value_of (err e) = (
  tt,
  record {
    cash = pos 0;
    shares_held = 0;
    entry_price = none;
    price = pos 0;
    bar_index = 0;
    history = [];
    sellable = 0;
    pending = 0;
    current_bar = none;
    fifo_cost = [];
    auto_exited_this_bar = false;
    trades = [];
    equity_curve = [];
    pending_buy = none;
    pending_sell = none;
  },
)

-- ===== src/Engine/Run.antt =====
-- One bar and the whole run: `_do_buy`, `_do_sell`, `_auto_exit`, `run`, `_output`.
use stock_invest_system.Prelude.{
  ℕ, zero, suc, ◌+◌, Bool, false, not, ◌&&◌, List, [], ◌∷◌, ◌++◌, Option, none, some, ◌==◌,
  if◌then◌else◌,
}
use stock_invest_system.Prelude.Int.{ℤ, pos, negsuc}
use stock_invest_system.Floating.{Floating, is_zero}
use stock_invest_system.Engine.Types.{
  Bar, FillOn, on_close, on_open, BacktestConfig, Params, Lot, signal, stop_loss, take_profit,
  Point, State, no_bars, init_failed, on_bar_failed, timeout, Result, ok, err, ◌>>=◌, or_raise,
  Program, finish, fail, buy, sell, Strategy,
}
use stock_invest_system.Engine.Fill.{affordable, fill_buy, fill_sell}

module _ {ℓ} {F : Type ℓ} ⦃d : Floating F⦄ where
  -- `value or fallback`, where `value` may be missing or zero.
  abbrev pub or_default : Option F → F → F
  or_default none fallback = fallback
  or_default (some v) fallback = if is_zero v then fallback else v

  -- An order of so many shares: kept for the next bar's opening, or filled at once.
  unfoldable pub place_buy : FillOn → BacktestConfig F → State F → ℕ → Result (State F)
  place_buy on_open c s shares = ok (record s { pending_buy = some shares })
  place_buy on_close c s shares = fill_buy c s s.current_bar shares signal

  abbrev pub buy_count : BacktestConfig F → State F → ℤ → Result (State F)
  buy_count c s (pos zero) = ok s
  buy_count c s (pos (suc n)) = place_buy c.fill_on c s (suc n)
  buy_count c s (negsuc _) = ok s

  abbrev pub buy_order : BacktestConfig F → Params F → F → State F → Option ℤ → Result (State F)
  buy_order c p default_pct s none =
      if d.leb s.price d.nought
      then ok s
      else affordable c (d.mul s.cash (or_default p.position_max_pct default_pct)) s.price
        >>= λ shares. buy_count c s shares
  buy_order c p default_pct s (some shares) = buy_count c s shares

  -- `default_pct` is `_POSITION_DEFAULT_PCT`, 0.95.
  unfoldable pub do_buy : BacktestConfig F → Params F → F → State F → Option ℤ → Result (State F)
  unfolding place_buy
  do_buy c p default_pct s shares =
      if s.auto_exited_this_bar then ok s else buy_order c p default_pct s shares

  unfoldable pub place_sell : FillOn → BacktestConfig F → State F → ℕ → Result (State F)
  place_sell on_open c s shares = ok (record s { pending_sell = some shares })
  place_sell on_close c s shares = fill_sell c s s.current_bar shares signal none

  abbrev pub sell_count : BacktestConfig F → State F → ℕ → Result (State F)
  sell_count c s zero = ok s
  sell_count c s (suc n) = place_sell c.fill_on c s (suc n)

  unfoldable pub do_sell : BacktestConfig F → State F → Option ℤ → Result (State F)
  unfolding place_sell
  do_sell c s none = sell_count c s s.sellable
  do_sell c s (some (pos n)) = sell_count c s n
  do_sell c s (some (negsuc _)) = ok s

  -- `_fifo_entry_cost`
  unfoldable pub fifo_entry_cost : List (Lot F) → F
  fifo_entry_cost [] = d.nought
  fifo_entry_cost (lot ∷ lots) = lot.price

  -- The cost that the two limits start from.
  unfoldable pub exit_entry : State F → F
  unfolding fifo_entry_cost
  exit_entry s =
      if d.ltb d.nought (fifo_entry_cost s.fifo_cost)
      then fifo_entry_cost s.fifo_cost
      else or_default s.entry_price s.price

  -- Whether a limit is set and reached: `if stop_price and low <= stop_price`.
  abbrev pub stop_hit : F → F → Bar F → Bool
  stop_hit pct price bar = d.ltb d.nought pct && not (is_zero price) && d.leb bar.low price

  abbrev pub take_hit : F → F → Bar F → Bool
  take_hit pct price bar = d.ltb d.nought pct && not (is_zero price) && d.leb price bar.high

  unfoldable pub auto_exit : BacktestConfig F → Params F → State F → Bar F → Result (State F)
  auto_exit c p s bar =
      let stop_pct = or_default p.stop_loss_pct d.nought in
      let take_pct = or_default p.take_profit_pct d.nought in
      let stop_price = d.mul (exit_entry s) (d.sub d.unit stop_pct) in
      let take_price = d.mul (exit_entry s) (d.add d.unit take_pct) in
      if stop_hit stop_pct stop_price bar
      then fill_sell c s (some bar) s.sellable stop_loss (some stop_price)
      else if take_hit take_pct take_price bar
      then fill_sell c s (some bar) s.sellable take_profit (some take_price)
      else ok s

  -- The orders kept from the bar before, sale first; a count of 0 is no order.
  abbrev pub sell_pending : BacktestConfig F → State F → Bar F → Option ℕ → Result (State F)
  sell_pending c s bar none = ok s
  sell_pending c s bar (some zero) = ok s
  sell_pending c s bar (some (suc n)) =
      fill_sell c s (some bar) (suc n) signal none >>= λ s'. ok (record s' { pending_sell = none })

  abbrev pub buy_pending : BacktestConfig F → State F → Bar F → Option ℕ → Result (State F)
  buy_pending c s bar none = ok s
  buy_pending c s bar (some zero) = ok s
  buy_pending c s bar (some (suc n)) =
      fill_buy c s (some bar) (suc n) signal >>= λ s'. ok (record s' { pending_buy = none })

  unfoldable pub settle_orders : BacktestConfig F → State F → Bar F → Result (State F)
  settle_orders c s bar =
      sell_pending c s bar s.pending_sell >>= λ s'. buy_pending c s' bar s'.pending_buy

  abbrev pub settle_on : FillOn → FillOn → BacktestConfig F → State F → Bar F → Result (State F)
  settle_on on_close on_close c s bar = settle_orders c s bar
  settle_on on_open on_open c s bar = settle_orders c s bar
  settle_on on_close on_open c s bar = ok s
  settle_on on_open on_close c s bar = ok s

  -- Step 1 of a bar: yesterday's purchases may be sold from now on.
  unfoldable pub open_bar : State F → Bar F → State F
  open_bar s bar = record s {
    current_bar = some bar;
    auto_exited_this_bar = false;
    sellable = s.sellable + s.pending;
    pending = 0;
  }

  -- Step 7: the curve and the history.
  unfoldable pub close_bar : State F → Bar F → State F
  close_bar s bar =
      let point : Point F = record {
        ts = bar.ts;
        equity = d.round 2 (d.add s.cash (d.mul (d.of_nat s.shares_held) bar.close));
        cash = d.round 2 s.cash;
        held = s.shares_held;
        price = bar.close;
      } in
      record s {
        equity_curve = s.equity_curve ++ point ∷ [];
        bar_index = s.bar_index + 1;
        history = s.history ++ bar ∷ [];
      }

  unfoldable pub exit_if_held : BacktestConfig F → Params F → State F → Bar F → Result (State F)
  exit_if_held c p s bar = if s.shares_held == 0 then ok s else auto_exit c p s bar

  -- A fresh engine and context.
  unfoldable pub fresh : BacktestConfig F → Bar F → State F
  fresh c bar = record {
    cash = c.initial_cash;
    shares_held = 0;
    entry_price = none;
    price = bar.close;
    bar_index = 0;
    history = [];
    sellable = 0;
    pending = 0;
    current_bar = none;
    fifo_cost = [];
    auto_exited_this_bar = false;
    trades = [];
    equity_curve = [];
    pending_buy = none;
    pending_sell = none;
  }

  module _ {κ} {T : Type κ} (c : BacktestConfig F) (p : Params F) (default_pct : F) where
    -- The strategy's code, its calls answered by the engine. An exception leaves the context as it
    -- was, and the code sees which one it is.
    unfoldable pub run_program : Program F T → State F → Option (T × State F)
    run_program (finish t) s = some (t, s)
    run_program fail s = none
    run_program (buy shares next) s = elim (do_buy c p default_pct s shares) [
      | ok s' ↦ run_program (next none s') s'
      | err e ↦ run_program (next (some e) s) s
    ]
    run_program (sell shares next) s = elim (do_sell c s shares) [
      | ok s' ↦ run_program (next none s') s'
      | err e ↦ run_program (next (some e) s) s
    ]

    -- The body of the loop of `run`; `elapsed` is what the clock shows when the bar begins.
    unfoldable pub step : Strategy F T → F → T × State F → Bar F → Result (T × State F)
    step strategy elapsed (t, s) bar =
        if d.ltb c.time_budget elapsed
        then err timeout
        else settle_on on_open c.fill_on c (open_bar s bar) bar >>= λ settled.
            exit_if_held c p (record settled { price = bar.close }) bar >>= λ exited.
            or_raise (run_program (strategy.on_bar t bar exited) exited) on_bar_failed >>= λ r.
            settle_on on_close c.fill_on c r.1 bar >>= λ filled. ok (r.0, close_bar filled bar)

    unfoldable pub run_bars :
        Strategy F T → (ℕ → F) → ℕ → T × State F → List (Bar F) → Result (T × State F)
    run_bars strategy clock idx r [] = ok r
    run_bars strategy clock idx r (bar ∷ bars) =
        step strategy (clock idx) r bar >>= λ r'. run_bars strategy clock (suc idx) r' bars

    abbrev pub call_init : Option (State F → Program F T) → T → State F → Result (T × State F)
    call_init none t s = ok (t, s)
    call_init (some init) t s = or_raise (run_program (init s) s) init_failed

    unfoldable pub run_from : Strategy F T → (ℕ → F) → List (Bar F) → Result (T × State F)
    run_from strategy clock [] = err no_bars
    run_from strategy clock (bar ∷ bars) =
        call_init strategy.initialize strategy.start (fresh c bar) >>= λ r.
        run_bars strategy clock 0 r (bar ∷ bars)

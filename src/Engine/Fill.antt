-- ===== src/Engine/Fill.antt =====
-- Filling an order: `_is_limit_up`, `_is_limit_down`, `_fill_price`, `_fill_buy`, `_fill_sell`.
use stock_invest_system.Prelude.{
  ℕ, zero, suc, ◌+◌, ◌-◌, min, Bool, true, false, not, ◌&&◌, List, [], ◌∷◌, ◌++◌, Option, none,
  some, ltb, ◌==◌, if◌then◌else◌,
}
use stock_invest_system.Prelude.Int.{ℤ, pos, negsuc}
use stock_invest_system.Floating.{Floating, is_zero}
use stock_invest_system.Engine.Types.{
  Bar, FillOn, on_close, on_open, BacktestConfig, Lot, Side, buy_side, sell_side, Reason, signal,
  stop_loss, take_profit, State, Error, zero_division, bad_int, Result, ok, err, ◌>>=◌, or_raise,
}

-- The count of shares that remains under a limit: 0 stands for every limit that is not above 0.
abbrev pub at_most : ℕ → ℤ → ℕ
at_most shares (pos m) = if ltb m shares then m else shares
at_most shares (negsuc _) = 0

-- `if max_shares_vol > 0: shares = min(shares, max_shares_vol)`
abbrev pub cap_volume : ℕ → ℤ → ℕ
cap_volume shares (pos zero) = shares
cap_volume shares (pos (suc m)) = min shares (suc m)
cap_volume shares (negsuc _) = shares

-- The deduction of a sale from the lots, oldest first.
unfoldable pub consume {ℓ} : {F : Type ℓ} → List (Lot F) → ℕ → List (Lot F)
consume [] remaining = []
consume (lot ∷ lots) remaining =
    let rest = consume lots (remaining - lot.shares) in
    if remaining == 0
    then lot ∷ lots
    else if lot.shares - min remaining lot.shares == 0
    then rest
    else record lot { shares = lot.shares - min remaining lot.shares } ∷ lots

abbrev pub is_exit : Reason → Bool
is_exit signal = false
is_exit stop_loss = true
is_exit take_profit = true

module _ {ℓ} {F : Type ℓ} ⦃d : Floating F⦄ where
  -- A bar whose four prices are one.
  abbrev is_flat : Bar F → Bool
  is_flat bar =
      d.ltb d.nought bar.close
      && d.eqb bar.close bar.high
      && d.eqb bar.high bar.low
      && d.eqb bar.low bar.open_price

  unfoldable pub is_limit_up : Bar F → Bool
  is_limit_up bar = elim bar.limit_up [ none ↦ is_flat bar | some marked ↦ marked ]

  unfoldable pub is_limit_down : Bar F → Bool
  is_limit_down bar = elim bar.limit_down [ none ↦ is_flat bar | some marked ↦ marked ]

  abbrev base_price : FillOn → Bar F → F
  base_price on_close bar = bar.close
  base_price on_open bar = bar.open_price

  abbrev slipped : Side → F → F → F
  slipped buy_side pct price = d.mul price (d.add d.unit pct)
  slipped sell_side pct price = d.mul price (d.sub d.unit pct)

  unfoldable pub fill_price : BacktestConfig F → Bar F → Side → F
  fill_price c bar side =
      let price = base_price c.fill_on bar in
      d.round 4 (if d.ltb d.nought c.slippage_pct then slipped side c.slippage_pct price else price)

  -- The cap of one fill at a part of the bar's volume.
  volume_cap : BacktestConfig F → ℕ → F → Result ℕ
  volume_cap c shares v =
      or_raise (d.trunc (d.mul v c.max_volume_pct)) bad_int >>= λ most. ok (cap_volume shares most)

  unfoldable pub volume_limit : BacktestConfig F → Bar F → ℕ → Result ℕ
  unfolding volume_cap
  volume_limit c bar shares = elim bar.volume [
    | none ↦ ok shares
    | some v ↦
        if not (is_zero v) && d.ltb c.max_volume_pct d.unit
        then volume_cap c shares v
        else ok shares
  ]

  -- `int(cash * ... / (price * (1 + commission_rate)))`
  unfoldable pub affordable : BacktestConfig F → F → F → Result ℤ
  affordable c money price =
      let cost = d.mul price (d.add d.unit c.commission_rate) in
      if is_zero cost then err zero_division else or_raise (d.trunc (d.div money cost)) bad_int

  -- The weighted average of the cost: `shares` are already in `shares_held`, so it is not 0.
  abbrev average_cost : Option F → ℕ → ℕ → F → F → F
  average_cost none held shares price amount = price
  average_cost (some entry) held shares price amount =
      d.div (d.add (d.mul entry (d.of_nat (held - shares))) amount) (d.of_nat held)

  -- The end of `_fill_buy`: cash, position, lots and the trade.
  unfoldable pub book_buy : BacktestConfig F → State F → Bar F → F → ℕ → Reason → State F
  book_buy c s bar price shares reason =
      let amount = d.mul price (d.of_nat shares) in
      let fee = d.mul amount c.commission_rate in
      record s {
        cash = d.sub s.cash (d.add amount fee);
        shares_held = s.shares_held + shares;
        pending = s.pending + shares;
        entry_price =
            some (average_cost s.entry_price (s.shares_held + shares) shares price amount);
        fifo_cost = s.fifo_cost ++ record { price = price; shares = shares } ∷ [];
        trades =
            s.trades
            ++ record {
              ts = bar.ts;
              side = buy_side;
              price = price;
              shares = shares;
              amount = amount;
              fee = fee;
              reason = reason;
            }
              ∷ [];
      }

  unfoldable pub book_if_any : BacktestConfig F → State F → Bar F → F → ℕ → Reason → State F
  book_if_any c s bar price shares reason =
      if shares == 0 then s else book_buy c s bar price shares reason

  unfoldable pub fill_buy :
      BacktestConfig F → State F → Option (Bar F) → ℕ → Reason → Result (State F)
  unfolding book_if_any
  fill_buy c s none shares reason = if shares == 0 then ok s else err Error.no_current_bar
  fill_buy c s (some bar) shares reason =
      if shares == 0
      then ok s
      else if is_limit_up bar
      then ok s
      else if s.auto_exited_this_bar
      then ok s
      else volume_limit c bar shares >>= λ wanted.
          affordable c s.cash (fill_price c bar buy_side) >>= λ most.
          ok (book_if_any c s bar (fill_price c bar buy_side) (at_most wanted most) reason)

  -- The end of `_fill_sell`, by whether shares are left.
  abbrev close_out : State F → Reason → State F
  close_out s reason = record s {
    entry_price = none;
    fifo_cost = [];
    auto_exited_this_bar = if is_exit reason then true else s.auto_exited_this_bar;
  }

  unfoldable pub book_sell : BacktestConfig F → State F → Bar F → F → ℕ → Reason → State F
  book_sell c s bar price shares reason =
      let amount = d.mul price (d.of_nat shares) in
      let fee = d.mul amount (d.add c.commission_rate c.stamp_duty_rate) in
      let sold = record s {
        cash = d.add s.cash (d.sub amount fee);
        shares_held = s.shares_held - shares;
        sellable = s.sellable - shares;
        fifo_cost = consume s.fifo_cost shares;
        trades =
            s.trades
            ++ record {
              ts = bar.ts;
              side = sell_side;
              price = price;
              shares = shares;
              amount = amount;
              fee = fee;
              reason = reason;
            }
              ∷ [];
      } in
      if s.shares_held - shares == 0 then close_out sold reason else sold

  abbrev pub price_or_fill : BacktestConfig F → Bar F → Option F → F
  price_or_fill c bar none = fill_price c bar sell_side
  price_or_fill c bar (some price) = price

  unfoldable pub sell_if_any : BacktestConfig F → State F → Bar F → F → ℕ → Reason → State F
  sell_if_any c s bar price shares reason =
      if shares == 0 then s else book_sell c s bar price shares reason

  unfoldable pub fill_sell :
      BacktestConfig F → State F → Option (Bar F) → ℕ → Reason → Option F → Result (State F)
  unfolding sell_if_any
  fill_sell c s none shares reason price =
      if min shares s.sellable == 0 then ok s else err Error.no_current_bar
  fill_sell c s (some bar) shares reason price =
      if min shares s.sellable == 0
      then ok s
      else if is_limit_down bar
      then ok s
      else volume_limit c bar (min shares s.sellable) >>= λ count.
          ok (sell_if_any c s bar (price_or_fill c bar price) count reason)

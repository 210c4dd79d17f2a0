-- ===== src/Engine/Moves.antt =====
-- The engine as a step relation: whatever the strategy does on a bar, the state changes by a
-- sequence of booked purchases, booked sales and changes that touch no position.
use stock_invest_system.Prelude.{ℕ, zero, suc, ◌≡◌, refl, Option, none, some, by_test}
use stock_invest_system.Prelude.Int.{ℤ, pos, negsuc}
use stock_invest_system.Floating.{Floating}
use stock_invest_system.Engine.Types.{
  Bar, FillOn, on_close, on_open, BacktestConfig, Params, Reason, signal, State, Result, ok, err,
  ◌>>=◌, by_result,
}
use stock_invest_system.Engine.Fill.{fill_buy, fill_sell, affordable}
use stock_invest_system.Engine.Run.{
  place_buy, buy_count, buy_order, place_sell, sell_count, do_buy, do_sell, or_default,
}
use stock_invest_system.Engine.Outcome.{
  Bought, BuyOutcome, fill_buy-BuyOutcome, Sold, SellOutcome, fill_sell-SellOutcome,
}

module _ {ℓ} {F : Type ℓ} ⦃d : Floating F⦄ where
  -- One change of the state. The bar of a fill is the current one.
  pub data Move (c : BacktestConfig F) (s s' : State F) : Type ℓ where
    quiet :
        (price : F) (kept_buy kept_sell : Option ℕ)
        → s' ≡ record s { price = price; pending_buy = kept_buy; pending_sell = kept_sell }
        → Move c s s'
    buys :
        (bar : Bar F) (shares : ℕ) (reason : Reason)
        → s.current_bar ≡ some bar
        → Bought c s bar shares reason s'
        → Move c s s'
    sells :
        (bar : Bar F) (shares : ℕ) (reason : Reason) (price : Option F)
        → s.current_bar ≡ some bar
        → Sold c s bar shares reason price s'
        → Move c s s'

  pub data Moves (c : BacktestConfig F) (s : State F) : State F → Type ℓ where
    here : Moves c s s
    next : {t u : State F} → Moves c s t → Move c t u → Moves c s u

  pub Moves-trans :
      {c : BacktestConfig F} {s t u : State F} → Moves c s t → Moves c t u → Moves c s u
  Moves-trans h here = h
  Moves-trans h (next k m) = next (Moves-trans h k) m

  -- A result is reached by moves, or is an exception.
  abbrev pub Reaches : BacktestConfig F → State F → Result (State F) → Type ℓ
  Reaches c s (ok s') = Moves c s s'
  Reaches c s (err e) = Unit

  pub bind-Reaches :
      (c : BacktestConfig F) (s : State F) (m : Result (State F)) (f : State F → Result (State F))
      → Reaches c s m
      → ((t : State F) → m ≡ ok t → Reaches c t (f t))
      → Reaches c s (m >>= f)
  bind-Reaches c s (ok t) f h k = then_reaches (f t) (k t refl)
    where
      then_reaches : (r : Result (State F)) → Reaches c t r → Reaches c s r
      then_reaches (ok u) g = Moves-trans h g
      then_reaches (err e) g = tt
  bind-Reaches c s (err e) f h k = tt

  BuyOutcome-Reaches :
      {c : BacktestConfig F} {s : State F} {shares : ℕ} {reason : Reason} {r : Result (State F)}
      (bar : Option (Bar F))
      → s.current_bar ≡ bar
      → BuyOutcome c s bar shares reason r
      → Reaches c s r
  BuyOutcome-Reaches bar e BuyOutcome.kept = here
  BuyOutcome-Reaches bar e (BuyOutcome.raised x) = tt
  BuyOutcome-Reaches bar e (BuyOutcome.booked b s' at trade) = next here (buys b _ _ (cc) trade)

  SellOutcome-Reaches :
      {c : BacktestConfig F} {s : State F} {shares : ℕ} {reason : Reason} {price : Option F}
      {r : Result (State F)} (bar : Option (Bar F))
      → s.current_bar ≡ bar
      → SellOutcome c s bar shares reason price r
      → Reaches c s r
  SellOutcome-Reaches bar e SellOutcome.kept = here
  SellOutcome-Reaches bar e (SellOutcome.raised x) = tt
  SellOutcome-Reaches bar e (SellOutcome.booked b s' at trade) =
      next here (sells b _ _ _ (cc) trade)

  pub fill_buy-Reaches :
      (c : BacktestConfig F) (s : State F) (bar : Option (Bar F)) (shares : ℕ) (reason : Reason)
      → s.current_bar ≡ bar
      → Reaches c s (fill_buy c s bar shares reason)
  fill_buy-Reaches c s bar shares reason e =
      BuyOutcome-Reaches bar e (fill_buy-BuyOutcome c s bar shares reason)

  pub fill_sell-Reaches :
      (c : BacktestConfig F) (s : State F) (bar : Option (Bar F)) (shares : ℕ) (reason : Reason)
      (price : Option F)
      → s.current_bar ≡ bar
      → Reaches c s (fill_sell c s bar shares reason price)
  fill_sell-Reaches c s bar shares reason price e =
      SellOutcome-Reaches bar e (fill_sell-SellOutcome c s bar shares reason price)

  -- An order of the strategy, by the mode of filling and by its count.
  place_buy-Reaches :
      (mode : FillOn) (c : BacktestConfig F) (s : State F) (n : ℕ)
      → Reaches c s (place_buy mode c s n)
  unfolding place_buy
  place_buy-Reaches on_open c s n = next here (quiet s.price (some n) s.pending_sell refl)
  place_buy-Reaches on_close c s n = fill_buy-Reaches c s s.current_bar n signal refl

  buy_count-Reaches : (c : BacktestConfig F) (s : State F) (n : ℤ) → Reaches c s (buy_count c s n)
  buy_count-Reaches c s (pos zero) = here
  buy_count-Reaches c s (pos (suc n)) = place_buy-Reaches c.fill_on c s (suc n)
  buy_count-Reaches c s (negsuc n) = here

  buy_order-Reaches :
      (c : BacktestConfig F) (p : Params F) (pct : F) (s : State F) (shares : Option ℤ)
      → Reaches c s (buy_order c p pct s shares)
  buy_order-Reaches c p pct s (some n) = buy_count-Reaches c s n
  buy_order-Reaches c p pct s none =
      by_test (Reaches c s) (d.leb s.price d.nought) (λ _. here)
        λ _.
          by_result (Reaches c s)
            (affordable c (d.mul s.cash (or_default p.position_max_pct pct)) s.price)
            (λ n _. buy_count-Reaches c s n) (λ _. tt)

  pub do_buy-Reaches :
      (c : BacktestConfig F) (p : Params F) (pct : F) (s : State F) (shares : Option ℤ)
      → Reaches c s (do_buy c p pct s shares)
  unfolding do_buy
  do_buy-Reaches c p pct s shares =
      by_test (Reaches c s) s.auto_exited_this_bar (λ _. here)
        λ _. buy_order-Reaches c p pct s shares

  place_sell-Reaches :
      (mode : FillOn) (c : BacktestConfig F) (s : State F) (n : ℕ)
      → Reaches c s (place_sell mode c s n)
  unfolding place_sell
  place_sell-Reaches on_open c s n = next here (quiet s.price s.pending_buy (some n) refl)
  place_sell-Reaches on_close c s n = fill_sell-Reaches c s s.current_bar n signal none refl

  sell_count-Reaches : (c : BacktestConfig F) (s : State F) (n : ℕ) → Reaches c s (sell_count c s n)
  sell_count-Reaches c s zero = here
  sell_count-Reaches c s (suc n) = place_sell-Reaches c.fill_on c s (suc n)

  pub do_sell-Reaches :
      (c : BacktestConfig F) (s : State F) (shares : Option ℤ) → Reaches c s (do_sell c s shares)
  unfolding do_sell
  do_sell-Reaches c s none = sell_count-Reaches c s s.sellable
  do_sell-Reaches c s (some (pos n)) = sell_count-Reaches c s n
  do_sell-Reaches c s (some (negsuc n)) = here

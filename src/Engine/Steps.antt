-- ===== src/Engine/Steps.antt =====
-- The parts of a bar as moves: the automatic exit and the orders kept from the bar before.
use stock_invest_system.Prelude.{
  ℕ, zero, suc, ◌≡◌, refl, ap, subst, ◌∙◌, ◌-◌, Option, none, some, ◌==◌, by_test,
}
use stock_invest_system.Floating.{Floating}
use stock_invest_system.Engine.Types.{
  Bar, FillOn, on_close, on_open, BacktestConfig, Params, signal, State, Result, ok, err,
  ok-injective,
}
use stock_invest_system.Engine.Fill.{fill_buy, fill_sell, book_buy, book_sell}
use stock_invest_system.Engine.Run.{
  sell_pending, buy_pending, stop_hit, take_hit, auto_exit, settle_orders, settle_on, exit_if_held,
}
use stock_invest_system.Engine.Moves.{
  Move, Moves, here, next, quiet, buys, sells, Reaches, bind-Reaches, fill_buy-Reaches,
  fill_sell-Reaches,
}

module _ {ℓ} {F : Type ℓ} ⦃d : Floating F⦄ where
  pub auto_exit-Reaches :
      (c : BacktestConfig F) (p : Params F) (s : State F) (bar : Bar F)
      → s.current_bar ≡ some bar
      → Reaches c s (auto_exit c p s bar)
  unfolding auto_exit
  auto_exit-Reaches c p s bar e =
      by_test (Reaches c s) (stop_hit _ _ bar) (λ _. fill_sell-Reaches c s (some bar) _ _ _ e)
        λ _.
          by_test (Reaches c s) (take_hit _ _ bar) (λ _. fill_sell-Reaches c s (some bar) _ _ _ e)
            (λ _. here)

  -- The current bar stays in place during a bar.
  pub Move-current_bar :
      {c : BacktestConfig F} {s s' : State F} → Move c s s' → s'.current_bar ≡ s.current_bar
  unfolding book_buy book_sell
  Move-current_bar (quiet price b q e) = ap (λ (x : State F). x.current_bar) e
  Move-current_bar (buys bar n r at trade) = ap (λ (x : State F). x.current_bar) trade.result
  Move-current_bar {s} (sells bar n r price at trade) =
      ap (λ (x : State F). x.current_bar) trade.result
      ∙ by_test (λ (x : State F). x.current_bar ≡ s.current_bar) (s.shares_held - trade.count == 0)
          (λ _. refl) (λ _. refl)

  pub Moves-current_bar :
      {c : BacktestConfig F} {s s' : State F} → Moves c s s' → s'.current_bar ≡ s.current_bar
  Moves-current_bar here = refl
  Moves-current_bar (next h m) = Move-current_bar m ∙ Moves-current_bar h

  sell_pending-Reaches :
      (c : BacktestConfig F) (s : State F) (bar : Bar F) (kept : Option ℕ)
      → s.current_bar ≡ some bar
      → Reaches c s (sell_pending c s bar kept)
  sell_pending-Reaches c s bar none e = here
  sell_pending-Reaches c s bar (some zero) e = here
  sell_pending-Reaches c s bar (some (suc n)) e =
      bind-Reaches c s (fill_sell c s (some bar) (suc n) signal none) _
        (fill_sell-Reaches c s (some bar) (suc n) signal none e)
        λ t _. next here (quiet t.price t.pending_buy none refl)

  buy_pending-Reaches :
      (c : BacktestConfig F) (s : State F) (bar : Bar F) (kept : Option ℕ)
      → s.current_bar ≡ some bar
      → Reaches c s (buy_pending c s bar kept)
  buy_pending-Reaches c s bar none e = here
  buy_pending-Reaches c s bar (some zero) e = here
  buy_pending-Reaches c s bar (some (suc n)) e =
      bind-Reaches c s (fill_buy c s (some bar) (suc n) signal) _
        (fill_buy-Reaches c s (some bar) (suc n) signal e)
        λ t _. next here (quiet t.price none t.pending_sell refl)

  pub Reaches-ok :
      {c : BacktestConfig F} {s t : State F} (m : Result (State F))
      → Reaches c s m
      → m ≡ ok t
      → Moves c s t
  Reaches-ok (ok x) h e = subst (Moves _ _) (ok-injective e) h
  Reaches-ok (err x) h e = cc

  pub settle_orders-Reaches :
      (c : BacktestConfig F) (s : State F) (bar : Bar F)
      → s.current_bar ≡ some bar
      → Reaches c s (settle_orders c s bar)
  unfolding settle_orders
  settle_orders-Reaches c s bar e =
      let sale = sell_pending-Reaches c s bar s.pending_sell e in
      bind-Reaches c s (sell_pending c s bar s.pending_sell) _ sale λ t done.
        buy_pending-Reaches c t bar t.pending_buy
          (Moves-current_bar (Reaches-ok (sell_pending c s bar s.pending_sell) sale done) ∙ e)

  pub settle_on-Reaches :
      (at mode : FillOn) (c : BacktestConfig F) (s : State F) (bar : Bar F)
      → s.current_bar ≡ some bar
      → Reaches c s (settle_on at mode c s bar)
  settle_on-Reaches on_close on_close c s bar e = settle_orders-Reaches c s bar e
  settle_on-Reaches on_open on_open c s bar e = settle_orders-Reaches c s bar e
  settle_on-Reaches on_close on_open c s bar e = here
  settle_on-Reaches on_open on_close c s bar e = here

  pub exit_if_held-Reaches :
      (c : BacktestConfig F) (p : Params F) (s : State F) (bar : Bar F)
      → s.current_bar ≡ some bar
      → Reaches c s (exit_if_held c p s bar)
  unfolding exit_if_held
  exit_if_held-Reaches c p s bar e =
      by_test (Reaches c s) (s.shares_held == 0) (λ _. here) (λ _. auto_exit-Reaches c p s bar e)

-- ===== src/Engine/Position.antt =====
-- Position accounting: T+1 settlement, the lots, and the trade log.
use stock_invest_system.Prelude.{
  ℕ, ◌+◌, ◌-◌, ◌≤◌, ◌<◌, min, ◌≡◌, refl, subst⁻¹, List, [], ◌∷◌, arith, ◌==◌, ==_iff, by_test,
  All-append,
}
use stock_invest_system.Floating.{Floating}
use stock_invest_system.Engine.Types.{
  Bar, BacktestConfig, Params, Lot, buy_side, sell_side, Reason, State, ok, Strategy,
}
use stock_invest_system.Engine.Fill.{book_buy, book_sell}
use stock_invest_system.Engine.Run.{open_bar, close_bar, step, fresh, run_from}
use stock_invest_system.Engine.Counts.{
  traded, IsOpen, traded-append, total-append, total-consume, consume-IsOpen, IsValid, Trades,
  Trades-refl, Trades-trans,
}
use stock_invest_system.Engine.Outcome.{volume_limit-le}
use stock_invest_system.Engine.Moves.{Move, Moves, here, next, quiet, buys, sells}
use stock_invest_system.Engine.Bars.{step-Moves, run_from_inv}

module _ {ℓ} {F : Type ℓ} ⦃d : Floating F⦄ where
  book_buy-Trades :
      (c : BacktestConfig F) (s : State F) (bar : Bar F) (price : F) (n : ℕ) (reason : Reason)
      → 0 < n
      → IsValid s
      → Trades s (book_buy c s bar price n reason)
  unfolding book_buy
  book_buy-Trades c s bar price n reason some_shares v =
      let lot : Lot F = record { price = price; shares = n } in
      record {
        valid = record {
          settled = omega arith;
          covered = omega (arith, total-append s.fifo_cost (lot ∷ []));
          open_lots = All-append IsOpen s.fifo_cost (lot ∷ []) v.open_lots (some_shares, tt);
          accounted = omega (
            arith,
            traded-append {F = F} buy_side s.trades,
            traded-append {F = F} sell_side s.trades,
          );
          costed = ground arith;
        };
        more_bought = omega (arith, traded-append {F = F} buy_side s.trades);
        more_sold = omega (arith, traded-append {F = F} sell_side s.trades);
        from_settled = omega (arith, traded-append {F = F} sell_side s.trades);
        into_pending = omega (arith, traded-append {F = F} buy_side s.trades);
      }

  book_sell-Trades :
      (c : BacktestConfig F) (s : State F) (bar : Bar F) (price : F) (n : ℕ) (reason : Reason)
      → 0 < n
      → n ≤ s.sellable
      → IsValid s
      → Trades s (book_sell c s bar price n reason)
  unfolding book_sell
  book_sell-Trades c s bar price n reason some_shares enough v =
      by_test (Trades s) (s.shares_held - n == 0)
        (λ gone. record {
          valid = record {
            settled = omega (arith, (==_iff (s.shares_held - n) 0).0 gone);
            covered = omega (arith, (==_iff (s.shares_held - n) 0).0 gone);
            open_lots = tt;
            accounted = omega (
              arith,
              traded-append {F = F} buy_side s.trades,
              traded-append {F = F} sell_side s.trades,
            );
            costed = ground arith;
          };
          more_bought = omega (arith, traded-append {F = F} buy_side s.trades);
          more_sold = omega (arith, traded-append {F = F} sell_side s.trades);
          from_settled = omega (arith, traded-append {F = F} sell_side s.trades);
          into_pending = omega (arith, traded-append {F = F} buy_side s.trades);
        })
        (λ left. record {
          valid = record {
            settled = omega arith;
            covered = omega (arith, total-consume s.fifo_cost n);
            open_lots = consume-IsOpen s.fifo_cost n v.open_lots;
            accounted = omega (
              arith,
              traded-append {F = F} buy_side s.trades,
              traded-append {F = F} sell_side s.trades,
            );
            costed = ground arith;
          };
          more_bought = omega (arith, traded-append {F = F} buy_side s.trades);
          more_sold = omega (arith, traded-append {F = F} sell_side s.trades);
          from_settled = omega (arith, traded-append {F = F} sell_side s.trades);
          into_pending = omega (arith, traded-append {F = F} buy_side s.trades);
        })

  -- No move breaks the accounts.
  pub Move-Trades : {c : BacktestConfig F} {s s' : State F} → Move c s s' → IsValid s → Trades s s'
  Move-Trades {s = s} (quiet price b q e) v = subst⁻¹ (Trades s) e (record {
    valid = ground arith;
    more_bought = omega arith;
    more_sold = omega arith;
    from_settled = refl;
    into_pending = refl;
  })
  Move-Trades {c} {s} (buys bar n r at trade) v =
      subst⁻¹ (Trades s) trade.result (book_buy-Trades c s bar _ trade.count r trade.some_shares v)
  Move-Trades {c} {s} (sells bar n r price at trade) v = subst⁻¹ (Trades s) trade.result (
      book_sell-Trades c s bar _ trade.count r trade.some_shares
        (omega (arith, volume_limit-le c bar (min n s.sellable) trade.count trade.within_volume)) v)

  pub Moves-Trades :
      {c : BacktestConfig F} {s s' : State F} → Moves c s s' → IsValid s → Trades s s'
  Moves-Trades here v = Trades-refl v
  Moves-Trades (next h m) v =
      let first = Moves-Trades h v in Trades-trans first (Move-Trades m first.valid)

  pub open_bar-IsValid : (s : State F) (bar : Bar F) → IsValid s → IsValid (open_bar s bar)
  unfolding open_bar
  open_bar-IsValid s bar v = ground arith

  pub close_bar-IsValid : (s : State F) (bar : Bar F) → IsValid s → IsValid (close_bar s bar)
  unfolding close_bar
  close_bar-IsValid s bar v = ground arith

  pub fresh-IsValid : (c : BacktestConfig F) (bar : Bar F) → IsValid (fresh c bar)
  unfolding fresh
  fresh-IsValid c bar = ground arith

  module _ {κ} {T : Type κ} (c : BacktestConfig F) (p : Params F) (pct : F) where
    -- Every run that ends normally leaves accounts that agree: the shares held are the settled ones
    -- and those bought on the last bar, the lots are not empty and add up to the shares held, the
    -- log's purchases are its sales and the shares held, and a cost is kept exactly while shares
    -- are held. This is so for every strategy.
    pub run_from-IsValid :
        (strategy : Strategy F T) (clock : ℕ → F) (bars : List (Bar F)) {r : T × State F}
        → run_from c p pct strategy clock bars ≡ ok r
        → IsValid r.1
    run_from-IsValid strategy clock bars h =
        run_from_inv c p pct IsValid (λ bar u m. (Moves-Trades m (fresh-IsValid c bar)).valid)
          (λ s bar u v m. close_bar-IsValid u bar (Moves-Trades m (open_bar-IsValid s bar v)).valid)
          strategy clock bars h

    -- T+1: what is sold on a bar was held when the bar began, so no share is sold on the bar that
    -- it was bought on, whatever the strategy does.
    pub step_sells_settled :
        (strategy : Strategy F T) (elapsed : F) (r : T × State F) (bar : Bar F) {r' : T × State F}
        → IsValid r.1
        → step c p pct strategy elapsed r bar ≡ ok r'
        → traded sell_side r'.1.trades ≤ traded sell_side r.1.trades + r.1.shares_held
    unfolding open_bar close_bar
    step_sells_settled strategy elapsed r bar {r'} v h =
        let (u, m, e) = step-Moves c p pct strategy elapsed r bar h in
        let t = Moves-Trades m (open_bar-IsValid r.1 bar v) in rw e (omega arith)

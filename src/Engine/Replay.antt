-- ===== src/Engine/Replay.antt =====
-- The trade log as the account's only source: cash and lots are what a replay of the log gives.
use stock_invest_system.Prelude.{
  ℕ, ◌-◌, ◌<◌, ◌≡◌, refl, sym, subst, subst⁻¹, List, [], ◌∷◌, ◌++◌, arith, ◌==◌, ==_iff, by_test,
  All, All-append,
}
use stock_invest_system.Floating.{Floating}
use stock_invest_system.Engine.Types.{
  Bar, BacktestConfig, Params, Lot, Side, buy_side, sell_side, Reason, Trade, State, ok, Strategy,
}
use stock_invest_system.Engine.Fill.{book_buy, book_sell, consume}
use stock_invest_system.Engine.Run.{open_bar, close_bar, fresh, run_from}
use stock_invest_system.Engine.Counts.{total, IsOpen, total-consume, consume-IsOpen, IsValid}
use stock_invest_system.Engine.Position.{
  Move-Trades, open_bar-IsValid, close_bar-IsValid, fresh-IsValid,
}
use stock_invest_system.Engine.Moves.{Move, Moves, here, next, quiet, buys, sells}
use stock_invest_system.Engine.Bars.{run_from_inv}

-- One trade of the log, on the open lots: a purchase is a new lot, a sale uses up the oldest.
abbrev pub lots_after {ℓ} : {F : Type ℓ} → Side → List (Lot F) → Trade F → List (Lot F)
lots_after buy_side lots t = lots ++ record { price = t.price; shares = t.shares } ∷ []
lots_after sell_side lots t = consume lots t.shares

unfoldable pub replay_lots {ℓ} : {F : Type ℓ} → List (Lot F) → List (Trade F) → List (Lot F)
replay_lots lots [] = lots
replay_lots lots (t ∷ ts) = replay_lots (lots_after t.side lots t) ts

replay_lots-append {ℓ} :
    {F : Type ℓ} (lots : List (Lot F)) (xs : List (Trade F)) (t : Trade F)
    → replay_lots lots (xs ++ t ∷ []) ≡ lots_after t.side (replay_lots lots xs) t
unfolding replay_lots
replay_lots-append lots [] t = refl
replay_lots-append lots (x ∷ xs) t = replay_lots-append (lots_after x.side lots x) xs t

-- Lots without an empty one are none when they add up to nothing.
no_lots {ℓ} : {F : Type ℓ} (lots : List (Lot F)) → All IsOpen lots → total lots ≡ 0 → lots ≡ []
no_lots [] h e = refl
no_lots (x ∷ lots) h e = absurd (omega arith)

module _ {ℓ} {F : Type ℓ} ⦃d : Floating F⦄ where
  abbrev cash_after : Side → F → Trade F → F
  cash_after buy_side cash t = d.sub cash (d.add t.amount t.fee)
  cash_after sell_side cash t = d.add cash (d.sub t.amount t.fee)

  pub replay_cash : F → List (Trade F) → F
  replay_cash cash [] = cash
  replay_cash cash (t ∷ ts) = replay_cash (cash_after t.side cash t) ts

  replay_cash-append :
      (cash : F) (xs : List (Trade F)) (t : Trade F)
      → replay_cash cash (xs ++ t ∷ []) ≡ cash_after t.side (replay_cash cash xs) t
  unfolding replay_cash
  replay_cash-append cash [] t = refl
  replay_cash-append cash (x ∷ xs) t = replay_cash-append (cash_after x.side cash x) xs t

  -- What a trade is charged: commission on both sides, stamp duty on sales only.
  abbrev rate : BacktestConfig F → Side → F
  rate c buy_side = c.commission_rate
  rate c sell_side = d.add c.commission_rate c.stamp_duty_rate

  abbrev pub IsCharged : BacktestConfig F → Trade F → Type ℓ
  IsCharged c t =
      (0 < t.shares)
      × (t.amount ≡ d.mul t.price (d.of_nat t.shares))
      × (t.fee ≡ d.mul t.amount (rate c t.side))

  pub record IsReplayed (c : BacktestConfig F) (s : State F) : Type ℓ where
    pub valid : IsValid s
    pub cash_replayed : s.cash ≡ replay_cash c.initial_cash s.trades
    pub lots_replayed : s.fifo_cost ≡ replay_lots [] s.trades
    pub all_charged : All (IsCharged c) s.trades

  module _ (c : BacktestConfig F) (s : State F) (bar : Bar F) (price : F) (n : ℕ)
      (reason : Reason) where
    book_buy-IsReplayed :
        0 < n
        → IsValid (book_buy c s bar price n reason)
        → IsReplayed c s
        → IsReplayed c (book_buy c s bar price n reason)
    unfolding book_buy
    book_buy-IsReplayed some_shares v h = record {
      valid = v;
      cash_replayed = rw (replay_cash-append c.initial_cash s.trades, ← h.cash_replayed);
      lots_replayed = rw (replay_lots-append [] s.trades, ← h.lots_replayed);
      all_charged =
          All-append (IsCharged c) s.trades _ h.all_charged ((some_shares, refl, refl), tt);
    }

    book_sell-IsReplayed :
        0 < n
        → IsValid (book_sell c s bar price n reason)
        → IsReplayed c s
        → IsReplayed c (book_sell c s bar price n reason)
    unfolding book_sell
    book_sell-IsReplayed some_shares =
        by_test (λ (x : State F). IsValid x → IsReplayed c s → IsReplayed c x)
          (s.shares_held - n == 0)
          (λ gone v h. record {
            valid = v;
            cash_replayed = rw (replay_cash-append c.initial_cash s.trades, ← h.cash_replayed);
            lots_replayed =
                rw (replay_lots-append [] s.trades, ← h.lots_replayed)
                  (sym (used_up h.valid ((==_iff (s.shares_held - n) 0).0 gone)));
            all_charged =
                All-append (IsCharged c) s.trades _ h.all_charged ((some_shares, refl, refl), tt);
          })
          (λ left v h. record {
            valid = v;
            cash_replayed = rw (replay_cash-append c.initial_cash s.trades, ← h.cash_replayed);
            lots_replayed = rw (replay_lots-append [] s.trades, ← h.lots_replayed);
            all_charged =
                All-append (IsCharged c) s.trades _ h.all_charged ((some_shares, refl, refl), tt);
          })
      where
        used_up : IsValid s → s.shares_held - n ≡ 0 → consume s.fifo_cost n ≡ []
        used_up v gone =
            no_lots (consume s.fifo_cost n) (consume-IsOpen s.fifo_cost n v.open_lots)
              (omega (arith, total-consume s.fifo_cost n))

  Move-IsReplayed :
      {c : BacktestConfig F} {s s' : State F} → Move c s s' → IsReplayed c s → IsReplayed c s'
  Move-IsReplayed {c} {s} {s'} m h = go m (Move-Trades m h.valid).valid
    where
      go : Move c s s' → IsValid s' → IsReplayed c s'
      go (quiet price b q e) v = subst⁻¹ (IsReplayed c) e (record {
        valid = subst (λ (x : State F). IsValid x) e v;
        cash_replayed = h.cash_replayed;
        lots_replayed = h.lots_replayed;
        all_charged = h.all_charged;
      })
      go (buys bar n r at trade) v = subst⁻¹ (IsReplayed c) trade.result (
          book_buy-IsReplayed c s bar _ trade.count r trade.some_shares
            (subst (λ (x : State F). IsValid x) trade.result v) h)
      go (sells bar n r price at trade) v = subst⁻¹ (IsReplayed c) trade.result (
          book_sell-IsReplayed c s bar _ trade.count r trade.some_shares
            (subst (λ (x : State F). IsValid x) trade.result v) h)

  Moves-IsReplayed :
      {c : BacktestConfig F} {s s' : State F} → Moves c s s' → IsReplayed c s → IsReplayed c s'
  Moves-IsReplayed here h = h
  Moves-IsReplayed (next k m) h = Move-IsReplayed m (Moves-IsReplayed k h)

  module _ {κ} {T : Type κ} (c : BacktestConfig F) (p : Params F) (pct : F) where
    -- At the end of every run the cash is the initial cash with the log's trades settled one after
    -- the other, the open lots are what first-in-first-out use of the log's purchases by its sales
    -- leaves, and every trade is of one share or more, its amount is its price times its shares, and
    -- its fee the commission on that, with stamp duty too on a sale.
    pub run_from-IsReplayed :
        (strategy : Strategy F T) (clock : ℕ → F) (bars : List (Bar F)) {r : T × State F}
        → run_from c p pct strategy clock bars ≡ ok r
        → IsReplayed c r.1
    unfolding open_bar close_bar fresh replay_cash replay_lots
    run_from-IsReplayed strategy clock bars h =
        run_from_inv c p pct (IsReplayed c)
          (λ bar u m. Moves-IsReplayed m (record {
            valid = fresh-IsValid c bar;
            cash_replayed = refl;
            lots_replayed = refl;
            all_charged = tt;
          }))
          (λ s bar u k m. closed u bar (Moves-IsReplayed m (opened s bar k))) strategy clock bars h
      where
        opened : (s : State F) (bar : Bar F) → IsReplayed c s → IsReplayed c (open_bar s bar)
        opened s bar k = record {
          valid = open_bar-IsValid s bar k.valid;
          cash_replayed = k.cash_replayed;
          lots_replayed = k.lots_replayed;
          all_charged = k.all_charged;
        }

        closed : (s : State F) (bar : Bar F) → IsReplayed c s → IsReplayed c (close_bar s bar)
        closed s bar k = record {
          valid = close_bar-IsValid s bar k.valid;
          cash_replayed = k.cash_replayed;
          lots_replayed = k.lots_replayed;
          all_charged = k.all_charged;
        }

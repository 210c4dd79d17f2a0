-- ===== src/Metrics/Tests.antt =====
-- The pairing at the log of a run, and the fee of a purchase that is sold in two parts.
use stock_invest_system.Prelude.{ℕ, ◌≡◌, refl, List, [], ◌∷◌}
use stock_invest_system.Prelude.Int.{ℤ, pos, ◌+ℤ◌, ◌-ℤ◌, ◌*ℤ◌}
use stock_invest_system.Floating.Whole.{whole}
use stock_invest_system.Engine.Types.{buy_side, sell_side, signal, Trade}
use stock_invest_system.Engine.Counts.{traded}
use stock_invest_system.Engine.Examples.{config, params, trader, clock, bars, all_of_it, value_of}
use stock_invest_system.Metrics.Pairing.{pair_trades, pair_from, pair_sale, make_pair, no_pairs}
use stock_invest_system.Metrics.Agreement.{lots_of, paired, rounds, run_from-pair_trades}

abbrev bought_at : ℕ → ℕ → ℕ → Trade ℤ
bought_at ts price n = record {
  ts = ts;
  side = buy_side;
  price = pos price;
  shares = n;
  amount = pos 0;
  fee = pos 0;
  reason = signal;
}

abbrev sold_at : ℕ → ℕ → ℕ → Trade ℤ
sold_at ts price n = record {
  ts = ts;
  side = sell_side;
  price = pos price;
  shares = n;
  amount = pos 0;
  fee = pos 0;
  reason = signal;
}

-- Two rounds: the first is closed by the second sale, the other by the third.
abbrev log : List (Trade ℤ)
log =
    bought_at 1 10 5
    ∷ bought_at 2 12 5
    ∷ sold_at 3 15 7
    ∷ sold_at 4 15 3
    ∷ bought_at 5 9 4
    ∷ sold_at 6 10 4
    ∷ []

log-rounds : (rounds (pair_trades log) ≡ 2) × (paired (pair_trades log) ≡ 14)
unfolding pair_trades pair_from pair_sale make_pair ◌+ℤ◌ ◌-ℤ◌ ◌*ℤ◌
log-rounds = (refl, refl)

run_from-pair_trades_example :
    (lots_of (pair_from no_pairs (value_of all_of_it).1.trades).buys
      ≡ (value_of all_of_it).1.fifo_cost)
    × (paired (pair_trades (value_of all_of_it).1.trades)
        ≡ traded sell_side (value_of all_of_it).1.trades)
unfolding all_of_it
run_from-pair_trades_example =
    run_from-pair_trades config params (pos 1) trader clock bars {r = value_of all_of_it} refl

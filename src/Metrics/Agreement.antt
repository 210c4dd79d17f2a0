-- ===== src/Metrics/Agreement.antt =====
-- The pairing of the figures and the lots of the engine agree: both use up the same purchases, and a
-- round is closed by exactly the sales that leave no share open.
use stock_invest_system.Prelude.{
  ℕ, suc, ◌+◌, ◌-◌, ◌<◌, min, ◌≡◌, refl, sym, ap, subst⁻¹, ◌∙◌, ◌&&◌, List, [], ◌∷◌, ◌++◌, arith,
  ltb, leb, ◌==◌, if◌then◌else◌, All, All-append, by_test,
}
use stock_invest_system.Floating.{Floating}
use stock_invest_system.Engine.Types.{
  Bar, BacktestConfig, Params, Lot, Side, buy_side, sell_side, Trade, State, ok, Strategy,
}
use stock_invest_system.Engine.Run.{run_from}
use stock_invest_system.Engine.Fill.{consume}
use stock_invest_system.Engine.Counts.{
  total, IsOpen, traded, total-append, total-consume, consume-IsOpen, count_on,
}
use stock_invest_system.Engine.Replay.{lots_after, replay_lots, IsCharged, run_from-IsReplayed}
use stock_invest_system.Metrics.Pairing.{
  Purchase, Pair, Pairing, closes_round, pair_sale, pair_on, pair_from, no_pairs, pair_trades,
  make_pair,
}

module _ {ℓ} {F : Type ℓ} where
  abbrev pub lot_of : Purchase F → Lot F
  lot_of b = record { price = b.price; shares = b.shares }

  abbrev pub lots_of : List (Purchase F) → List (Lot F)
  lots_of [] = []
  lots_of (b ∷ buys) = lot_of b ∷ lots_of buys

  -- The shares that the pairs close, and how many of them close a round.
  abbrev pub paired : List (Pair F) → ℕ
  paired [] = 0
  paired (q ∷ pairs) = q.shares + paired pairs

  abbrev pub rounds : List (Pair F) → ℕ
  rounds [] = 0
  rounds (q ∷ pairs) = if q.round_close then suc (rounds pairs) else rounds pairs

-- 1 for a sale of `n` shares that leaves nothing of `lots`, 0 for any other.
abbrev pub empties : ℕ → ℕ → ℕ
empties n lots = if ltb 0 n && ltb 0 lots && leb lots n then 1 else 0

module _ {ℓ} {F : Type ℓ} ⦃d : Floating F⦄ where
  record SaleDone (n : ℕ) (lots : List (Lot F)) (r : Pairing F) : Type ℓ where
    used : lots_of r.buys ≡ consume lots n
    balanced : r.round_buy_shares ≡ r.round_sell_shares + total (lots_of r.buys)
    closed : paired r.pairs ≡ min n (total lots)
    round_ended : rounds r.pairs ≡ empties n (total lots)

  pair_sale-SaleDone :
      (t : Trade F) (left bought sold : ℕ) (buys : List (Purchase F))
      → All IsOpen (lots_of buys)
      → bought ≡ sold + total (lots_of buys)
      → SaleDone left (lots_of buys) (pair_sale t left bought sold buys)
  unfolding pair_sale consume make_pair
  pair_sale-SaleDone t left bought sold [] o e = record {
    used = refl;
    balanced = e;
    closed = omega arith;
    round_ended = ground arith;
  }
  pair_sale-SaleDone t left bought sold (b ∷ buys) o e =
      by_test (SaleDone left (lots_of (b ∷ buys))) (left == 0)
        (λ nothing. record {
          used = ground arith;
          balanced = e;
          closed = ground arith;
          round_ended = ground arith;
        })
        λ some_left.
          by_test (SaleDone left (lots_of (b ∷ buys))) (b.shares - min left b.shares == 0)
            (λ used_up.
              let ih =
                pair_sale-SaleDone t (left - min left b.shares)
                  (if closes_round bought (sold + min left b.shares) then 0 else bought)
                  (if closes_round bought (sold + min left b.shares)
                    then 0
                    else sold + min left b.shares)
                  buys o.1 (ground arith) in
              record {
                used = ground arith;
                balanced = ih.balanced;
                closed = ground arith;
                round_ended = ground arith;
              })
            (λ some_kept. record {
              used = ground arith;
              balanced = ground arith;
              closed = ground arith;
              round_ended = ground arith;
            })

module _ {ℓ} {F : Type ℓ} where
  -- What a log closes, by a replay of it on the open lots: shares, and rounds.
  abbrev closed_on : Side → List (Lot F) → ℕ → ℕ
  closed_on buy_side lots n = 0
  closed_on sell_side lots n = min n (total lots)

  abbrev rounds_on : Side → List (Lot F) → ℕ → ℕ
  rounds_on buy_side lots n = 0
  rounds_on sell_side lots n = empties n (total lots)

  pub closed_shares : List (Lot F) → List (Trade F) → ℕ
  closed_shares lots [] = 0
  closed_shares lots (t ∷ ts) =
      closed_on t.side lots t.shares + closed_shares (lots_after t.side lots t) ts

  pub closed_rounds : List (Lot F) → List (Trade F) → ℕ
  closed_rounds lots [] = 0
  closed_rounds lots (t ∷ ts) =
      rounds_on t.side lots t.shares + closed_rounds (lots_after t.side lots t) ts

  lots_of-append : (xs ys : List (Purchase F)) → lots_of (xs ++ ys) ≡ lots_of xs ++ lots_of ys
  lots_of-append [] ys = refl
  lots_of-append (x ∷ xs) ys = ap (λ l. lot_of x ∷ l) (lots_of-append xs ys)

  paired-append : (xs ys : List (Pair F)) → paired (xs ++ ys) ≡ paired xs + paired ys
  paired-append [] ys = omega arith
  paired-append (x ∷ xs) ys = omega (arith, paired-append xs ys)

  rounds-append : (xs ys : List (Pair F)) → rounds (xs ++ ys) ≡ rounds xs + rounds ys
  rounds-append [] ys = omega arith
  rounds-append (x ∷ xs) ys = ground (arith, rounds-append xs ys)

  abbrev pub IsTrade : Trade F → Type 0
  IsTrade t = 0 < t.shares

  one_trade-total :
      (side : Side) (lots : List (Lot F)) (t : Trade F)
      → closed_on side lots t.shares + total (lots_after side lots t)
        ≡ total lots + count_on buy_side side t.shares
  one_trade-total buy_side lots t = omega (arith, total-append lots)
  one_trade-total sell_side lots t = omega (arith, total-consume lots t.shares)

  -- The shares of the log's purchases are closed or still open.
  pub closed_shares-total :
      (lots : List (Lot F)) (ts : List (Trade F))
      → closed_shares lots ts + total (replay_lots lots ts) ≡ total lots + traded buy_side ts
  unfolding closed_shares replay_lots
  closed_shares-total lots [] = omega arith
  closed_shares-total lots (t ∷ ts) =
      omega
        (arith, one_trade-total t.side lots t, closed_shares-total (lots_after t.side lots t) ts)

module _ {ℓ} {F : Type ℓ} ⦃d : Floating F⦄ where
  -- The loop's variables between two trades.
  record IsPaired (r : Pairing F) : Type 0 where
    open_lots : All IsOpen (lots_of r.buys)
    balanced : r.round_buy_shares ≡ r.round_sell_shares + total (lots_of r.buys)

  -- What one trade does to them.
  record PairedBy (side : Side) (r : Pairing F) (t : Trade F) (r' : Pairing F) : Type ℓ where
    still : IsPaired r'
    lots : lots_of r'.buys ≡ lots_after side (lots_of r.buys) t
    shares : paired r'.pairs ≡ paired r.pairs + closed_on side (lots_of r.buys) t.shares
    ended : rounds r'.pairs ≡ rounds r.pairs + rounds_on side (lots_of r.buys) t.shares

  pair_on-PairedBy :
      (side : Side) (r : Pairing F) (t : Trade F)
      → IsPaired r
      → IsTrade t
      → PairedBy side r t (pair_on side r t)
  pair_on-PairedBy buy_side r t h some_shares =
      let lots : lots_of (pair_on buy_side r t).buys ≡ lots_after buy_side (lots_of r.buys) t =
        lots_of-append r.buys _ in
      record {
        still = record {
          open_lots =
              subst⁻¹ (All IsOpen) lots
                (All-append IsOpen (lots_of r.buys) _ h.open_lots (some_shares, tt));
          balanced = omega (arith, h.balanced, ap total lots, total-append (lots_of r.buys));
        };
        lots = lots;
        shares = omega arith;
        ended = omega arith;
      }
  pair_on-PairedBy sell_side r t h some_shares =
      let done =
        pair_sale-SaleDone t t.shares r.round_buy_shares r.round_sell_shares r.buys h.open_lots
          h.balanced in
      record {
        still = record {
          open_lots =
              subst⁻¹ (All IsOpen) done.used (consume-IsOpen (lots_of r.buys) t.shares h.open_lots);
          balanced = done.balanced;
        };
        lots = done.used;
        shares = omega (arith, paired-append r.pairs, done.closed);
        ended = omega (arith, rounds-append r.pairs, done.round_ended);
      }

  pair_from-agrees :
      (r : Pairing F) (ts : List (Trade F))
      → IsPaired r
      → All IsTrade ts
      → (lots_of (pair_from r ts).buys ≡ replay_lots (lots_of r.buys) ts)
        × (paired (pair_from r ts).pairs ≡ paired r.pairs + closed_shares (lots_of r.buys) ts)
        × (rounds (pair_from r ts).pairs ≡ rounds r.pairs + closed_rounds (lots_of r.buys) ts)
  unfolding pair_from replay_lots closed_shares closed_rounds
  pair_from-agrees r [] h all = (refl, omega arith, omega arith)
  pair_from-agrees r (t ∷ ts) h all =
      let first = pair_on-PairedBy t.side r t h all.0 in
      let (lots, shares, ended) = pair_from-agrees (pair_on t.side r t) ts first.still all.1 in
      (
        lots ∙ ap (λ l. replay_lots l ts) first.lots,
        omega (arith, shares, first.shares, ap (λ l. closed_shares l ts) first.lots),
        omega (arith, ended, first.ended, ap (λ l. closed_rounds l ts) first.lots),
      )

  -- On any log whose trades are of one share or more, the pairing uses up the purchases first in,
  -- first out, as the engine's lots do; the pairs close as many shares as the sales take off the
  -- lots; and the rounds that it counts are the sales that take the last open share.
  pub pair_trades_lem :
      (log : List (Trade F))
      → All IsTrade log
      → (lots_of (pair_from no_pairs log).buys ≡ replay_lots [] log)
        × (paired (pair_trades log) ≡ closed_shares [] log)
        × (rounds (pair_trades log) ≡ closed_rounds [] log)
  unfolding pair_trades
  pair_trades_lem log all =
      let (lots, shares, ended) =
        pair_from-agrees no_pairs log (record { open_lots = tt; balanced = refl }) all in
      (lots, omega (arith, shares), omega (arith, ended))

  IsCharged→IsTrade :
      (c : BacktestConfig F) (log : List (Trade F)) → All (IsCharged c) log → All IsTrade log
  IsCharged→IsTrade c [] h = tt
  IsCharged→IsTrade c (t ∷ log) h = (h.0.0, IsCharged→IsTrade c log h.1)

  module _ {κ} {T : Type κ} (c : BacktestConfig F) (p : Params F) (pct : F) where
    -- For the log of any run the figures and the engine agree: the purchases that the pairing leaves
    -- over are the engine's open lots, and every share sold is in a pair.
    pub run_from-pair_trades :
        (strategy : Strategy F T) (clock : ℕ → F) (bars : List (Bar F)) {r : T × State F}
        → run_from c p pct strategy clock bars ≡ ok r
        → (lots_of (pair_from no_pairs r.1.trades).buys ≡ r.1.fifo_cost)
          × (paired (pair_trades r.1.trades) ≡ traded sell_side r.1.trades)
    run_from-pair_trades strategy clock bars {r} h =
        let k = run_from-IsReplayed c p pct strategy clock bars h in
        let (lots, shares, ended) =
          pair_trades_lem r.1.trades (IsCharged→IsTrade c r.1.trades k.all_charged) in
        (
          lots ∙ sym k.lots_replayed,
          omega (
            arith,
            shares,
            closed_shares-total [] r.1.trades,
            ap total k.lots_replayed,
            k.valid.covered,
            k.valid.accounted,
          ),
        )

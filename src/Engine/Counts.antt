-- ===== src/Engine/Counts.antt =====
-- Share counts of the trade log and of the lots, and the invariant that ties them to the position.
use stock_invest_system.Prelude.{
  ℕ, ◌+◌, ◌-◌, ◌≤◌, ◌<◌, ◌≡◌, refl, List, [], ◌∷◌, ◌++◌, All, arith, ltb, is_some,
}
use stock_invest_system.Engine.Types.{Lot, Side, buy_side, sell_side, Trade, State}
use stock_invest_system.Engine.Fill.{consume}

abbrev pub count_on : Side → Side → ℕ → ℕ
count_on buy_side buy_side n = n
count_on sell_side sell_side n = n
count_on buy_side sell_side n = 0
count_on sell_side buy_side n = 0

module _ {ℓ} {F : Type ℓ} where
  -- How many shares the log has on one side.
  abbrev pub traded : Side → List (Trade F) → ℕ
  traded side [] = 0
  traded side (t ∷ ts) = count_on side t.side t.shares + traded side ts

  abbrev pub total : List (Lot F) → ℕ
  total [] = 0
  total (lot ∷ lots) = lot.shares + total lots

  abbrev pub IsOpen : Lot F → Type 0
  IsOpen lot = 0 < lot.shares

  pub traded-append :
      (side : Side) (xs ys : List (Trade F))
      → traded side (xs ++ ys) ≡ traded side xs + traded side ys
  traded-append side [] ys = omega arith
  traded-append side (x ∷ xs) ys = omega (arith, traded-append side xs ys)

  pub total-append : (xs ys : List (Lot F)) → total (xs ++ ys) ≡ total xs + total ys
  total-append [] ys = omega arith
  total-append (x ∷ xs) ys = omega (arith, total-append xs ys)

  -- A sale takes exactly its shares off the lots, as far as they go.
  pub total-consume : (lots : List (Lot F)) (n : ℕ) → total (consume lots n) ≡ total lots - n
  unfolding consume
  total-consume [] n = omega arith
  total-consume (lot ∷ lots) n = ground (arith, total-consume lots (n - lot.shares))

  pub consume-IsOpen : (lots : List (Lot F)) (n : ℕ) → All IsOpen lots → All IsOpen (consume lots n)
  unfolding consume
  consume-IsOpen [] n h = tt
  consume-IsOpen (lot ∷ lots) n h = ground (arith, consume-IsOpen lots (n - lot.shares) h.1)

-- What holds between any two calls: every share held is settled or bought today, the lots add up to
-- the position and none is empty, the log accounts for the position, and a cost is known exactly
-- while shares are held.
pub record IsValid {ℓ} {F : Type ℓ} (s : State F) : Type ℓ where
  pub settled : s.shares_held ≡ s.sellable + s.pending
  pub covered : total s.fifo_cost ≡ s.shares_held
  pub open_lots : All IsOpen s.fifo_cost
  pub accounted : traded buy_side s.trades ≡ s.shares_held + traded sell_side s.trades
  pub costed : is_some s.entry_price ≡ ltb 0 s.shares_held

-- What a sequence of fills may do to a valid state: the log grows, what is sold comes out of the
-- settled shares, and what is bought waits for the next bar.
pub record Trades {ℓ} {F : Type ℓ} (s s' : State F) : Type ℓ where
  pub valid : IsValid s'
  pub more_bought : traded buy_side s.trades ≤ traded buy_side s'.trades
  pub more_sold : traded sell_side s.trades ≤ traded sell_side s'.trades
  pub from_settled :
      s'.sellable + traded sell_side s'.trades ≡ s.sellable + traded sell_side s.trades
  pub into_pending : s'.pending + traded buy_side s.trades ≡ s.pending + traded buy_side s'.trades

module _ {ℓ} {F : Type ℓ} where
  pub Trades-refl : {s : State F} → IsValid s → Trades s s
  Trades-refl v = record {
    valid = v;
    more_bought = omega arith;
    more_sold = omega arith;
    from_settled = refl;
    into_pending = refl;
  }

  pub Trades-trans : {s t u : State F} → Trades s t → Trades t u → Trades s u
  Trades-trans {s} {t} {u} h k = record {
    valid = k.valid;
    more_bought = omega arith;
    more_sold = omega arith;
    from_settled = omega arith;
    into_pending = omega arith;
  }

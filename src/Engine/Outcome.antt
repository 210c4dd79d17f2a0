-- ===== src/Engine/Outcome.antt =====
-- What the two fills can do: each leaves the state as it was, raises, or books one trade whose
-- count passed every limit.
use stock_invest_system.Prelude.{
  ℕ, ◌≤◌, ◌<◌, min, ◌≡◌, refl, false, Option, none, some, arith, ◌==◌, by_test,
}
use stock_invest_system.Prelude.Int.{ℤ, pos, negsuc}
use stock_invest_system.Floating.{Floating}
use stock_invest_system.Engine.Types.{
  Bar, BacktestConfig, buy_side, Reason, State, Error, Result, ok, err, by_result,
}
use stock_invest_system.Engine.Fill.{
  at_most, book_if_any, sell_if_any, is_limit_up, is_limit_down, fill_price, volume_limit,
  affordable, book_buy, fill_buy, book_sell, price_or_fill, fill_sell,
}

module _ {ℓ} {F : Type ℓ} ⦃d : Floating F⦄ where
  -- A purchase that was booked, with every test that it passed.
  pub record Bought (c : BacktestConfig F) (s : State F) (bar : Bar F) (shares : ℕ)
      (reason : Reason) (s' : State F) : Type ℓ where
    pub wanted : ℕ
    pub most : ℤ
    pub count : ℕ
    pub some_shares : 0 < count
    pub not_limit_up : is_limit_up bar ≡ false
    pub not_exited : s.auto_exited_this_bar ≡ false
    pub within_volume : volume_limit c bar shares ≡ ok wanted
    pub within_cash : affordable c s.cash (fill_price c bar buy_side) ≡ ok most
    pub counted : count ≡ at_most wanted most
    pub result : s' ≡ book_buy c s bar (fill_price c bar buy_side) count reason

  pub data BuyOutcome (c : BacktestConfig F) (s : State F) (bar : Option (Bar F)) (shares : ℕ)
      (reason : Reason) : Result (State F) → Type ℓ where
    kept : BuyOutcome c s bar shares reason (ok s)
    raised : (e : Error) → BuyOutcome c s bar shares reason (err e)
    booked :
        (b : Bar F) (s' : State F)
        → bar ≡ some b
        → Bought c s b shares reason s'
        → BuyOutcome c s bar shares reason (ok s')

  module _ (c : BacktestConfig F) (s : State F) (bar : Bar F) (shares : ℕ) (reason : Reason) where
    abbrev Buys : Result (State F) → Type ℓ
    Buys = BuyOutcome c s (some bar) shares reason

    buy_booked :
        (wanted : ℕ) (most : ℤ)
        → is_limit_up bar ≡ false
        → s.auto_exited_this_bar ≡ false
        → volume_limit c bar shares ≡ ok wanted
        → affordable c s.cash (fill_price c bar buy_side) ≡ ok most
        → Buys (ok (book_if_any c s bar (fill_price c bar buy_side) (at_most wanted most) reason))
    unfolding book_if_any
    buy_booked wanted most up out volume cash =
        by_test (λ s'. Buys (ok s')) (at_most wanted most == 0) (λ _. kept)
          λ some_left. booked bar _ refl (record {
            wanted = wanted;
            most = most;
            count = at_most wanted most;
            some_shares = ground arith;
            not_limit_up = up;
            not_exited = out;
            within_volume = volume;
            within_cash = cash;
            counted = refl;
            result = refl;
          })

    fill_buy_bar : Buys (fill_buy c s (some bar) shares reason)
    unfolding fill_buy
    fill_buy_bar =
        by_test Buys (shares == 0) (λ _. kept)
          λ _.
            by_test Buys (is_limit_up bar) (λ _. kept)
              λ up.
                by_test Buys s.auto_exited_this_bar (λ _. kept)
                  λ out.
                    by_result Buys (volume_limit c bar shares)
                      (λ wanted volume.
                        by_result Buys (affordable c s.cash (fill_price c bar buy_side))
                          (λ most cash. buy_booked wanted most up out volume cash) raised)
                      raised

  -- Every purchase has one of the three outcomes.
  pub fill_buy-BuyOutcome :
      (c : BacktestConfig F) (s : State F) (bar : Option (Bar F)) (shares : ℕ) (reason : Reason)
      → BuyOutcome c s bar shares reason (fill_buy c s bar shares reason)
  unfolding fill_buy
  fill_buy-BuyOutcome c s (some bar) shares reason = fill_buy_bar c s bar shares reason
  fill_buy-BuyOutcome c s none shares reason =
      by_test (BuyOutcome c s none shares reason) (shares == 0) (λ _. kept) (λ _. raised _)

  -- A sale that was booked, with every test that it passed.
  pub record Sold (c : BacktestConfig F) (s : State F) (bar : Bar F) (shares : ℕ) (reason : Reason)
      (price : Option F) (s' : State F) : Type ℓ where
    pub count : ℕ
    pub some_shares : 0 < count
    pub not_limit_down : is_limit_down bar ≡ false
    pub within_volume : volume_limit c bar (min shares s.sellable) ≡ ok count
    pub result : s' ≡ book_sell c s bar (price_or_fill c bar price) count reason

  pub data SellOutcome (c : BacktestConfig F) (s : State F) (bar : Option (Bar F)) (shares : ℕ)
      (reason : Reason) (price : Option F) : Result (State F) → Type ℓ where
    kept : SellOutcome c s bar shares reason price (ok s)
    raised : (e : Error) → SellOutcome c s bar shares reason price (err e)
    booked :
        (b : Bar F) (s' : State F)
        → bar ≡ some b
        → Sold c s b shares reason price s'
        → SellOutcome c s bar shares reason price (ok s')

  module _ (c : BacktestConfig F) (s : State F) (bar : Bar F) (shares : ℕ) (reason : Reason)
      (price : Option F) where
    abbrev Sells : Result (State F) → Type ℓ
    Sells = SellOutcome c s (some bar) shares reason price

    sell_booked :
        (count : ℕ)
        → is_limit_down bar ≡ false
        → volume_limit c bar (min shares s.sellable) ≡ ok count
        → Sells (ok (sell_if_any c s bar (price_or_fill c bar price) count reason))
    unfolding sell_if_any
    sell_booked count down volume =
        by_test (λ s'. Sells (ok s')) (count == 0) (λ _. SellOutcome.kept)
          λ some_left. SellOutcome.booked bar _ refl (record {
            count = count;
            some_shares = ground arith;
            not_limit_down = down;
            within_volume = volume;
            result = refl;
          })

    fill_sell_bar : Sells (fill_sell c s (some bar) shares reason price)
    unfolding fill_sell
    fill_sell_bar =
        by_test Sells (min shares s.sellable == 0) (λ _. SellOutcome.kept)
          λ _.
            by_test Sells (is_limit_down bar) (λ _. SellOutcome.kept)
              λ down.
                by_result Sells (volume_limit c bar (min shares s.sellable))
                  (λ count volume. sell_booked count down volume) SellOutcome.raised

  pub fill_sell-SellOutcome :
      (c : BacktestConfig F) (s : State F) (bar : Option (Bar F)) (shares : ℕ) (reason : Reason)
      (price : Option F)
      → SellOutcome c s bar shares reason price (fill_sell c s bar shares reason price)
  unfolding fill_sell
  fill_sell-SellOutcome c s (some bar) shares reason price =
      fill_sell_bar c s bar shares reason price
  fill_sell-SellOutcome c s none shares reason price =
      by_test (SellOutcome c s none shares reason price) (min shares s.sellable == 0)
        (λ _. SellOutcome.kept) (λ _. SellOutcome.raised _)

  -- A fill never asks for more than the limits let through.
  pub volume_limit-le :
      (c : BacktestConfig F) (bar : Bar F) (shares : ℕ) (n : ℕ)
      → volume_limit c bar shares ≡ ok n
      → n ≤ shares
  unfolding volume_limit
  volume_limit-le c bar shares n h = ground arith

pub at_most-le : (shares : ℕ) (most : ℤ) → at_most shares most ≤ shares
at_most-le shares (pos m) = ground arith
at_most-le shares (negsuc m) = omega arith

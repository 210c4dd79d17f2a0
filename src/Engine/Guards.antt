-- ===== src/Engine/Guards.antt =====
-- The trading rules: price limits, no new purchase after an automatic exit, the share of a bar's
-- volume, and what each trade is charged.
use stock_invest_system.Prelude.{
  ℕ, ◌-◌, ◌<◌, ◌≡◌, refl, sym, ap, subst⁻¹, ◌∙◌, Bool, true, false, Option, some, arith, ◌==◌,
  by_test,
}
use stock_invest_system.Floating.{Floating}
use stock_invest_system.Engine.Types.{
  Bar, BacktestConfig, Params, buy_side, sell_side, Reason, State, Result, ok, ok-injective,
  Program, Strategy,
}
use stock_invest_system.Engine.Fill.{is_exit, is_limit_up, is_limit_down, book_buy, book_sell}
use stock_invest_system.Engine.Run.{
  stop_hit, take_hit, auto_exit, open_bar, close_bar, run_program, step,
}
use stock_invest_system.Engine.Counts.{traded, traded-append}
use stock_invest_system.Engine.Outcome.{SellOutcome, fill_sell-SellOutcome}
use stock_invest_system.Engine.Moves.{Move, Moves, here, next, quiet, buys, sells}
use stock_invest_system.Engine.Bars.{step-Moves, run_program-Moves}
use stock_invest_system.Engine.Steps.{Moves-current_bar}

module _ {ℓ} {F : Type ℓ} ⦃d : Floating F⦄ where
  abbrev pub bought_by : State F → ℕ
  bought_by s = traded {F = F} buy_side s.trades

  abbrev pub sold_by : State F → ℕ
  sold_by s = traded {F = F} sell_side s.trades

  book_sell-bought :
      (c : BacktestConfig F) (s : State F) (bar : Bar F) (price : F) (n : ℕ) (reason : Reason)
      → bought_by (book_sell c s bar price n reason) ≡ bought_by s
  unfolding book_sell
  book_sell-bought c s bar price n reason =
      by_test (λ (x : State F). bought_by x ≡ bought_by s) (s.shares_held - n == 0)
        (λ _. omega (arith, traded-append {F = F} buy_side s.trades))
        (λ _. omega (arith, traded-append {F = F} buy_side s.trades))

  book_buy-sold :
      (c : BacktestConfig F) (s : State F) (bar : Bar F) (price : F) (n : ℕ) (reason : Reason)
      → sold_by (book_buy c s bar price n reason) ≡ sold_by s
  unfolding book_buy
  book_buy-sold c s bar price n reason = omega (arith, traded-append {F = F} sell_side s.trades)

  -- A move buys nothing where a purchase would break a rule.
  Move-bought :
      {c : BacktestConfig F} {s s' : State F} (m : Move c s s')
      → ((bar : Bar F)
          → s.current_bar ≡ some bar
          → is_limit_up bar ≡ false
          → s.auto_exited_this_bar ≡ false
          → ⊥)
      → bought_by s' ≡ bought_by s
  Move-bought (quiet price b q e) banned = ap bought_by e
  Move-bought (buys bar n r at trade) banned =
      absurd (banned bar at trade.not_limit_up trade.not_exited)
  Move-bought {c} {s} (sells bar n r price at trade) banned =
      ap bought_by trade.result ∙ book_sell-bought c s bar _ trade.count r

  Move-sold :
      {c : BacktestConfig F} {s s' : State F} (m : Move c s s')
      → ((bar : Bar F) → s.current_bar ≡ some bar → is_limit_down bar ≡ false → ⊥)
      → sold_by s' ≡ sold_by s
  Move-sold (quiet price b q e) banned = ap sold_by e
  Move-sold {c} {s} (buys bar n r at trade) banned =
      ap sold_by trade.result ∙ book_buy-sold c s bar _ trade.count r
  Move-sold (sells bar n r price at trade) banned = absurd (banned bar at trade.not_limit_down)

  -- Two readings of the current bar cannot differ in a test.
  clash :
      (test : Bar F → Bool) {bar other : Bar F} {o o' : Option (Bar F)}
      → test bar ≡ true
      → o ≡ some bar
      → o' ≡ o
      → o' ≡ some other
      → test other ≡ false
      → ⊥
  clash test marked at same at' free = cc

  Moves-not_bought :
      {c : BacktestConfig F} {s s' : State F} (bar : Bar F)
      → Moves c s s'
      → s.current_bar ≡ some bar
      → is_limit_up bar ≡ true
      → bought_by s' ≡ bought_by s
  Moves-not_bought bar here at up = refl
  Moves-not_bought bar (next h m) at up =
      Move-bought m (λ b at' free _. clash is_limit_up up at (Moves-current_bar h) at' free)
      ∙ Moves-not_bought bar h at up

  Moves-not_sold :
      {c : BacktestConfig F} {s s' : State F} (bar : Bar F)
      → Moves c s s'
      → s.current_bar ≡ some bar
      → is_limit_down bar ≡ true
      → sold_by s' ≡ sold_by s
  Moves-not_sold bar here at down = refl
  Moves-not_sold bar (next h m) at down =
      Move-sold m (λ b at' free. clash is_limit_down down at (Moves-current_bar h) at' free)
      ∙ Moves-not_sold bar h at down

  -- The mark of an automatic exit stays for the rest of the bar, and nothing is bought under it.
  Move-locked :
      {c : BacktestConfig F} {s s' : State F}
      → Move c s s'
      → s.auto_exited_this_bar ≡ true
      → s'.auto_exited_this_bar ≡ true
  unfolding book_sell
  Move-locked (quiet price b q e) out = ap (λ (x : State F). x.auto_exited_this_bar) e ∙ out
  Move-locked (buys bar n r at trade) out = absurd (apart out trade.not_exited)
    where
      apart : {b : Bool} → b ≡ true → b ≡ false → ⊥
      apart yes_it no_it = cc
  Move-locked {s} (sells bar n r price at trade) out =
      subst⁻¹ (λ (x : State F). x.auto_exited_this_bar ≡ true) trade.result
        (by_test (λ (x : State F). x.auto_exited_this_bar ≡ true) (s.shares_held - trade.count == 0)
          (λ _. ground arith) (λ _. out))

  pub Moves-locked :
      {c : BacktestConfig F} {s s' : State F}
      → Moves c s s'
      → s.auto_exited_this_bar ≡ true
      → (s'.auto_exited_this_bar ≡ true) × (bought_by s' ≡ bought_by s)
  Moves-locked here out = (out, refl)
  Moves-locked (next h m) out =
      let (still, same) = Moves-locked h out in
      (Move-locked m still, Move-bought m (λ _ _ _ free. cc) ∙ same)

  -- A sale that closes the position on an automatic exit leaves the mark.
  SellOutcome-locks :
      {c : BacktestConfig F} {s t : State F} {bar : Option (Bar F)} {n : ℕ} {reason : Reason}
      {price : Option F} {m : Result (State F)}
      → is_exit reason ≡ true
      → SellOutcome c s bar n reason price m
      → m ≡ ok t
      → 0 < s.shares_held
      → t.shares_held ≡ 0
      → t.auto_exited_this_bar ≡ true
  unfolding book_sell
  SellOutcome-locks exits SellOutcome.kept done held gone =
      absurd (omega (arith, ap (λ (x : State F). x.shares_held) (ok-injective done)))
  SellOutcome-locks exits (SellOutcome.raised e) done held gone = cc
  SellOutcome-locks {c} {s} {t} {reason = reason} exits (SellOutcome.booked b s' at trade) done held
        gone =
      by_test Locks (s.shares_held - trade.count == 0)
        (λ _ e. ap (λ (x : State F). x.auto_exited_this_bar) e ∙ rw exits)
        (λ left e. absurd (omega (arith, ap (λ (x : State F). x.shares_held) e, positive left)))
        (sym (ok-injective done) ∙ trade.result)
    where
      Locks : State F → Type ℓ
      Locks x = t ≡ x → t.auto_exited_this_bar ≡ true

      positive : (s.shares_held - trade.count == 0) ≡ false → 0 < s.shares_held - trade.count
      positive left = ground arith

  auto_exit_locks :
      (c : BacktestConfig F) (p : Params F) (s : State F) (bar : Bar F) {t : State F}
      → 0 < s.shares_held
      → auto_exit c p s bar ≡ ok t
      → t.shares_held ≡ 0
      → t.auto_exited_this_bar ≡ true
  unfolding auto_exit
  auto_exit_locks c p s bar {t} held done gone =
      by_test Goal (stop_hit _ _ bar)
        (λ _ e. SellOutcome-locks refl (fill_sell-SellOutcome c s (some bar) _ _ _) e held gone)
        (λ _.
          by_test Goal (take_hit _ _ bar)
            (λ _ e. SellOutcome-locks refl (fill_sell-SellOutcome c s (some bar) _ _ _) e held gone)
            (λ _ e. absurd (omega (arith, ap (λ (x : State F). x.shares_held) (ok-injective e)))))
        done
    where
      Goal : Result (State F) → Type ℓ
      Goal m = m ≡ ok t → t.auto_exited_this_bar ≡ true

  module _ {κ} {T : Type κ} (c : BacktestConfig F) (p : Params F) (pct : F) where
    -- On a bar that is at its upper limit nothing is bought, by the strategy or by an order kept
    -- from the bar before.
    pub step_limit_up :
        (strategy : Strategy F T) (elapsed : F) (r : T × State F) (bar : Bar F) {r' : T × State F}
        → is_limit_up bar ≡ true
        → step c p pct strategy elapsed r bar ≡ ok r'
        → bought_by r'.1 ≡ bought_by r.1
    unfolding open_bar close_bar
    step_limit_up strategy elapsed r bar up h =
        let (u, m, e) = step-Moves c p pct strategy elapsed r bar h in
        ap bought_by e ∙ Moves-not_bought bar m refl up

    -- On a bar that is at its lower limit nothing is sold, by the strategy, by an order kept from
    -- the bar before or by an automatic exit.
    pub step_limit_down :
        (strategy : Strategy F T) (elapsed : F) (r : T × State F) (bar : Bar F) {r' : T × State F}
        → is_limit_down bar ≡ true
        → step c p pct strategy elapsed r bar ≡ ok r'
        → sold_by r'.1 ≡ sold_by r.1
    unfolding open_bar close_bar
    step_limit_down strategy elapsed r bar down h =
        let (u, m, e) = step-Moves c p pct strategy elapsed r bar h in
        ap sold_by e ∙ Moves-not_sold bar m refl down

    -- Once the automatic exit has closed a position, the strategy's code buys nothing more on that
    -- bar, whatever it calls.
    pub run_program_after_exit :
        (code : Program F T) (s : State F) (bar : Bar F) {t : State F} {r : T × State F}
        → 0 < s.shares_held
        → auto_exit c p s bar ≡ ok t
        → t.shares_held ≡ 0
        → run_program c p pct code t ≡ some r
        → bought_by r.1 ≡ bought_by t
    run_program_after_exit code s bar {t} held done gone h =
        (Moves-locked (run_program-Moves c p pct code t h)
          (auto_exit_locks c p s bar held done gone)).1

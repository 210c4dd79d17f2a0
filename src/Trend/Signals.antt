-- ===== src/Trend/Signals.antt =====
-- What the letters B and S of a report mean for the direction.
use stock_invest_system.Prelude.{
  ◌≡◌, ◌∙◌, ap, Bool, true, false, not, ◌&&◌, ◌||◌, ◌==◌, List, [], ◌∷◌, ◌++◌, arith,
}
use stock_invest_system.Floating.{Floating}
use stock_invest_system.Trend.Swing.{Sign, down, level, up, same, Swing, swing}
use stock_invest_system.Trend.State.{
  TrendState, Signal, buy_letter, sell_letter, volume_letter, Bar, sign_of, accepted, one_if, buys,
  sells,
}
use stock_invest_system.Trend.Turns.{Aged, swing-Aged}

abbrev is_sell : Signal → Bool
is_sell sell_letter = true
is_sell _ = false

abbrev is_buy : Signal → Bool
is_buy buy_letter = true
is_buy _ = false

abbrev pub any : (Signal → Bool) → List Signal → Bool
any p [] = false
any p (x ∷ xs) = p x || any p xs

abbrev pub has_sell : List Signal → Bool
has_sell xs = any is_sell xs

abbrev pub has_buy : List Signal → Bool
has_buy xs = any is_buy xs

has_sell_lem :
    (b s v : Bool)
    → has_sell (one_if b buy_letter ++ one_if s sell_letter ++ one_if v volume_letter) ≡ s
has_sell_lem b s v = ground arith

has_buy_lem :
    (b s v : Bool)
    → has_buy (one_if b buy_letter ++ one_if s sell_letter ++ one_if v volume_letter) ≡ b
has_buy_lem b s v = ground arith

sells-swing :
    (a : Sign) (s : Swing)
    → Aged s
    → sells (swing a s) ≡ (same (swing a s).direction down && not (same s.direction down))
unfolding swing
sells-swing down s h = ground arith
sells-swing level s h = ground arith
sells-swing up s h = ground arith

-- The bar after a turn to 1, unless it turns back.
buys-swing :
    (b : Sign) (s : Swing)
    → Aged s
    → buys (swing b s) ≡ (same (swing b s).direction up && (same s.direction up && (s.age == 1)))
unfolding swing
buys-swing down s h = ground arith
buys-swing level s h = ground arith
buys-swing up s h = ground arith

rises-swing :
    (a : Sign) (s : Swing)
    → Aged s
    → (same (swing a s).direction up && ((swing a s).age == 1))
      ≡ (same (swing a s).direction up && not (same s.direction up))
unfolding swing
rises-swing down s h = ground arith
rises-swing level s h = ground arith
rises-swing up s h = ground arith

module _ {ℓ} {F : Type ℓ} ⦃d : Floating F⦄ where
  -- From a state with an age above 0 exactly when there is a direction, a bar's report has the
  -- letter S exactly when the bar turns the direction to -1.
  pub sell_signal :
      (s : TrendState F) (bar : Bar F)
      → Aged s.moved
      → has_sell (accepted s bar).report.signals
        ≡ (same (accepted s bar).state.moved.direction down && not (same s.moved.direction down))
  unfolding accepted
  sell_signal s bar h = has_sell_lem _ _ _ ∙ sells-swing (sign_of s.close bar.close) s.moved h

  -- From such a state, of two bars in a row the second one's report has the letter B exactly when
  -- the first one turns the direction to 1 and the second one does not turn it back.
  pub buy_signal :
      (s : TrendState F) (bar next : Bar F)
      → Aged s.moved
      → has_buy (accepted (accepted s bar).state next).report.signals ≡ (
          same (accepted (accepted s bar).state next).state.moved.direction up
          && (same (accepted s bar).state.moved.direction up && not (same s.moved.direction up)))
  unfolding accepted
  buy_signal s bar next h =
      let a = sign_of s.close bar.close in
      let b = sign_of bar.close next.close in
      has_buy_lem _ _ _
      ∙ buys-swing b (swing a s.moved) (swing-Aged a s.moved h)
      ∙ ap (λ r. same (swing b (swing a s.moved)).direction up && r) (rises-swing a s.moved h)

-- ===== src/Trend/State.antt =====
-- `TrendState`, `advance` and `metrics`. The floats are the interface of `Floating`.
use stock_invest_system.Prelude.{
  ℕ, ◌^◌, Bool, true, false, not, ◌&&◌, ◌||◌, List, [], ◌∷◌, ◌++◌, Option, none, some, ◌==◌, leb,
  if◌then◌else◌, length, take_last,
}
use stock_invest_system.Prelude.Int.{ℤ, pos, ◌-ℤ◌}
use stock_invest_system.Floating.{Floating, is_zero}
use stock_invest_system.Trend.Swing.{Sign, down, level, up, Swing, swing, turns}

pub record TrendState {ℓ} (F : Type ℓ) : Type ℓ where
  pub close : F
  pub date : ℕ
  pub moved : Swing
  pub base : F
  pub base_date : ℕ
  pub fast : F
  pub slow : F
  pub dea : F
  pub cross : Bool
  pub volumes : List F

-- The letters of `signals`.
pub data Signal : Type 0 where
  buy_letter : Signal
  sell_letter : Signal
  volume_letter : Signal

pub record Report {ℓ} (F : Type ℓ) : Type ℓ where
  pub wave : ℤ
  pub change : F
  pub signals : List Signal

pub record Advanced {ℓ} (F : Type ℓ) : Type ℓ where
  pub state : TrendState F
  pub report : Report F

pub record Bar {ℓ} (F : Type ℓ) : Type ℓ where
  pub date : ℕ
  pub close : F
  pub volume : F
  pub change : F

-- direction * age
abbrev pub wave : Swing → ℤ
wave s = elim s.direction [ down ↦ pos 0 -ℤ pos s.age | level ↦ pos 0 | up ↦ pos s.age ]

abbrev pub one_if : Bool → Signal → List Signal
one_if b x = if b then x ∷ [] else []

abbrev pub buys : Swing → Bool
buys s = elim s.direction [ up ↦ s.age == 2 | _ ↦ false ]

abbrev pub sells : Swing → Bool
sells s = elim s.direction [ down ↦ s.age == 1 | _ ↦ false ]

abbrev pub rises : Swing → Bool
rises s = elim s.direction [ up ↦ true | _ ↦ false ]

module _ {ℓ} {F : Type ℓ} ⦃d : Floating F⦄ where
  abbrev pub init : TrendState F
  init = record {
    close = d.nought;
    date = 0;
    moved = record { direction = level; age = 0; pending = level; pending_days = 0 };
    base = d.nought;
    base_date = 0;
    fast = d.nought;
    slow = d.nought;
    dea = d.nought;
    cross = false;
    volumes = [];
  }

  -- Python's abs, and its max of two and of a list, which keep the first of equals.
  abbrev abs : F → F
  abs x = if d.ltb x d.nought then d.sub d.nought x else x

  abbrev pub larger : F → F → F
  larger x y = if d.ltb x y then y else x

  abbrev pub largest : F → List F → F
  largest x [] = x
  largest x (y ∷ ys) = largest (larger x y) ys

  abbrev pub exceeds : F → List F → Bool
  exceeds x [] = false
  exceeds x (y ∷ ys) = d.ltb (largest y ys) x

  -- x + (y - x) * 2 / n
  abbrev smoothed : ℕ → F → F → F
  smoothed n x y = d.add x (d.div (d.mul (d.sub y x) (d.of_nat 2)) (d.of_nat n))

  abbrev tolerance : F → F → F
  tolerance close previous =
      d.mul (larger (abs close) (abs previous)) (d.div (d.of_nat 1) (d.of_nat (10 ^ 10)))

  -- The sign of the move from one close to the next, within the tolerance; 0 on the first bar.
  unfoldable pub sign_of : F → F → Sign
  sign_of previous close =
      if is_zero previous
      then level
      else (if d.ltb (d.add previous (tolerance close previous)) close
          then up
          else (if d.ltb close (d.sub previous (tolerance close previous)) then down else level))

  abbrev pub signals_of : Swing → List F → F → F → List Signal
  signals_of s volumes volume change =
      one_if (buys s) buy_letter
      ++ one_if (sells s) sell_letter
      ++ one_if
          (rises s && d.ltb d.nought change && (length volumes == 20) && exceeds volume volumes)
          volume_letter

  -- What `advance` leaves and returns, once the bar is accepted.
  unfoldable pub accepted : TrendState F → Bar F → Advanced F
  accepted s bar =
      let sign = sign_of s.close bar.close in
      let moved = swing sign s.moved in
      let turned = turns sign s.moved in
      let old_gap = d.sub (d.sub s.fast s.slow) s.dea in
      let fast = if is_zero s.close then bar.close else smoothed 13 s.fast bar.close in
      let slow = if is_zero s.close then bar.close else smoothed 27 s.slow bar.close in
      let dif = d.sub fast slow in
      let dea = smoothed 10 s.dea dif in
      record {
        state = record {
          close = bar.close;
          date = bar.date;
          moved = moved;
          base = if turned then s.close else s.base;
          base_date = if turned then s.date else s.base_date;
          fast = fast;
          slow = slow;
          dea = dea;
          cross = not (is_zero s.close) && d.leb old_gap d.nought && d.ltb d.nought (d.sub dif dea);
          volumes = take_last 20 (s.volumes ++ larger d.nought bar.volume ∷ []);
        };
        report = record {
          wave = wave moved;
          change = bar.change;
          signals = signals_of moved s.volumes bar.volume bar.change;
        };
      }

  -- None is the ValueError.
  unfoldable pub advance : TrendState F → Bar F → Option (Advanced F)
  advance s bar =
      if leb bar.date s.date || d.leb bar.close d.nought then none else some (accepted s bar)

  -- Bars in order, as the service gives them; the reports are passed on elsewhere.
  unfoldable pub run : TrendState F → List (Bar F) → Option (TrendState F)
  run s [] = some s
  run s (bar ∷ bars) = elim (advance s bar) [ none ↦ none | some r ↦ run r.state bars ]

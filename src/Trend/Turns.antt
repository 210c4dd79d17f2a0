-- ===== src/Trend/Turns.antt =====
-- The direction is decided by the moves alone: it is the direction of the last two moves in a row
-- that agree.
use stock_invest_system.Prelude.{
  ℕ, suc, ◌+◌, ◌++◌, ◌<◌, ◌≡◌, refl, Bool, false, not, ◌&&◌, if◌then◌else◌, List, [], ◌∷◌, Option,
  some, arith, length, length-append, length-take_last, min,
}
use stock_invest_system.Floating.{Floating}
use stock_invest_system.Trend.Swing.{Sign, down, level, up, same, moves, Swing, swing}
use stock_invest_system.Trend.State.{TrendState, Bar, init, sign_of, accepted, advance, run, larger}

abbrev starts_with : Sign → List Sign → Bool
starts_with a [] = false
starts_with a (b ∷ rest) = same a b

-- Of the moves so far, the last one first.
abbrev pub trend : List Sign → Sign
trend [] = level
trend (a ∷ rest) = if moves a && starts_with a rest then a else trend rest

abbrev against : List Sign → Sign
against [] = level
against (a ∷ rest) = if moves a && not (same a (trend (a ∷ rest))) then a else level

abbrev one_if_moves : Sign → ℕ
one_if_moves level = 0
one_if_moves s = 1

abbrev Follows : List Sign → Swing → Type 0
Follows acc s =
    (s.direction ≡ trend acc)
    × (s.pending ≡ against acc)
    × (s.pending_days ≡ one_if_moves s.pending)

-- One more move a, after a move b that left the direction u.
swing_after :
    (a b u : Sign) (s : Swing)
    → s.direction ≡ u
    → s.pending ≡ (if moves b && not (same b u) then b else level)
    → s.pending_days ≡ one_if_moves s.pending
    → let t = if moves a && same a b then a else u in
      ((swing a s).direction ≡ t)
      × ((swing a s).pending ≡ (if moves a && not (same a t) then a else level))
      × ((swing a s).pending_days ≡ one_if_moves (swing a s).pending)
unfolding swing
swing_after down b u s e p n = ground arith
swing_after level b u s e p n = ground arith
swing_after up b u s e p n = ground arith

swing-Follows :
    (a : Sign) (acc : List Sign) (s : Swing) → Follows acc s → Follows (a ∷ acc) (swing a s)
unfolding swing
swing-Follows down [] s h = ground arith
swing-Follows level [] s h = ground arith
swing-Follows up [] s h = ground arith
swing-Follows a (b ∷ rest) s h = swing_after a b (trend (b ∷ rest)) s h.0 h.1 h.2

-- Whole positive ages, in a direction only.
abbrev pub Aged : Swing → Type 0
Aged s = if moves s.direction then 0 < s.age else s.age ≡ 0

pub swing-Aged : (a : Sign) (s : Swing) → Aged s → Aged (swing a s)
unfolding swing
swing-Aged down s h = ground arith
swing-Aged level s h = ground arith
swing-Aged up s h = ground arith

module _ {ℓ} {F : Type ℓ} ⦃d : Floating F⦄ where
  -- Bars as `advance` takes them: later and later, with closes above 0.
  abbrev pub Increasing : ℕ → List (Bar F) → Type 0
  Increasing date [] = Unit
  Increasing date (bar ∷ bars) =
      (date < bar.date) × (d.leb bar.close d.nought ≡ false) × Increasing bar.date bars

  abbrev pub moves_onto : List Sign → F → List (Bar F) → List Sign
  moves_onto acc previous [] = acc
  moves_onto acc previous (bar ∷ bars) =
      moves_onto (sign_of previous bar.close ∷ acc) bar.close bars

  abbrev pub Ends : List Sign → ℕ → Option (TrendState F) → Type ℓ
  Ends acc n end =
      (s : TrendState F) × (end ≡ some s)
      × (s.moved.direction ≡ trend acc)
      × Aged s.moved
      × (length s.volumes ≡ min 20 n)

  advance-accepted :
      (s : TrendState F) (bar : Bar F)
      → s.date < bar.date
      → d.leb bar.close d.nought ≡ false
      → advance s bar ≡ some (accepted s bar)
  unfolding advance
  advance-accepted s bar h k = ground arith

  run_onto :
      (bars : List (Bar F)) (s : TrendState F) (acc : List Sign) (n total : ℕ)
      → total ≡ n + length bars
      → Increasing s.date bars
      → Follows acc s.moved
      → Aged s.moved
      → length s.volumes ≡ min 20 n
      → Ends (moves_onto acc s.close bars) total (run s bars)
  unfolding run accepted
  run_onto [] s acc n total t i f a v = (s, refl, f.0, a, omega (arith, v, t))
  run_onto (bar ∷ bars) s acc n total t i f a v =
      let sign = sign_of s.close bar.close in
      let next = (accepted s bar).state in
      rw (advance-accepted s bar i.0 i.1, run)
        (run_onto bars next (sign ∷ acc) (suc n) total (omega (arith, t)) i.2
          (swing-Follows sign acc s.moved f) (swing-Aged sign s.moved a)
          (omega (
            arith,
            v,
            length-take_last 20 (s.volumes ++ larger d.nought bar.volume ∷ []),
            length-append s.volumes (larger d.nought bar.volume ∷ []),
          )))

  -- Every sequence of bars with later and later dates and closes above 0 is accepted from a fresh
  -- state. At its end the direction is that of the last two moves in a row that agree, 0 if there
  -- are none; the age is above 0 exactly when there is a direction; and as many volumes are kept as
  -- there were bars, 20 at most.
  pub run-init :
      (bars : List (Bar F))
      → Increasing 0 bars
      → Ends (moves_onto [] d.nought bars) (length bars) (run init bars)
  run-init bars i =
      run_onto bars init [] 0 (length bars) (omega arith) i (refl, refl, refl) refl (omega arith)

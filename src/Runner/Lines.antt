-- ===== src/Runner/Lines.antt =====
-- `_strategy_line`, against where the line stands in the tracebacks.
use stock_invest_system.Prelude.{
  ℕ, ◌<◌, ◌≡◌, ◌⊎◌, inl, inr, refl, ap, arith, Bool, true, false, ◌&&◌, List, [], ◌∷◌, ◌++◌, Option,
  none, some, ltb, All, Bool-cases, if◌then◌else◌,
}
use stock_invest_system.Runner.Child.{Frame, innermost, strategy_line}

-- A frame with a line of the strategy.
abbrev IsStrategy : Frame → Type 0
IsStrategy f = (f.is_string ≡ true) × (0 < f.lineno)

abbrev IsOther : Frame → Type 0
IsOther f = (f.is_string ≡ false) ⊎ (f.lineno ≡ 0)

-- The line of the last such frame of a traceback, if there is one.
abbrev IsInnermost : List Frame → Option ℕ → Type 0
IsInnermost frames none = All IsOther frames
IsInnermost frames (some line) =
    (outer : List Frame) × (f : Frame) × (inner : List Frame) × (frames ≡ outer ++ f ∷ inner)
    × IsStrategy f
    × (f.lineno ≡ line)
    × All IsOther inner

-- The line is that of the first traceback with such a frame, if there is one.
abbrev pub IsLineOf : List (List Frame) → Option ℕ → Type 0
IsLineOf tracebacks none = All (All IsOther) tracebacks
IsLineOf tracebacks (some line) =
    (before : List (List Frame)) × (frames : List Frame) × (causes : List (List Frame))
    × (tracebacks ≡ before ++ frames ∷ causes)
    × All (All IsOther) before
    × IsInnermost frames (some line)

IsOther-cases : (f : Frame) → (f.is_string && ltb 0 f.lineno) ≡ false → IsOther f
IsOther-cases f e = elim (Bool-cases f.is_string) [ inl h ↦ inr (ground arith) | inr h ↦ inl h ]

innermost_lem : (frames : List Frame) → IsInnermost frames (innermost frames)
innermost_lem [] = tt
innermost_lem (f ∷ fs) = by_rest (innermost fs) (innermost_lem fs)
  where
    by_test :
        (b : Bool)
        → (f.is_string && ltb 0 f.lineno) ≡ b
        → All IsOther fs
        → IsInnermost (f ∷ fs) (if b then some f.lineno else none)
    by_test true e rest = ([], f, fs, refl, (ground arith, ground arith), refl, rest)
    by_test false e rest = (IsOther-cases f e, rest)

    by_rest :
        (o : Option ℕ)
        → IsInnermost fs o
        → IsInnermost (f ∷ fs) (elim o [
          | some line ↦ some line
          | none ↦ if f.is_string && ltb 0 f.lineno then some f.lineno else none
        ])
    by_rest none rest = by_test _ refl rest
    by_rest (some line) (outer, g, inner, e, mine, line_of, rest) =
        (f ∷ outer, g, inner, ap (◌∷◌ f) e, mine, line_of, rest)

pub strategy_line_lem :
    (tracebacks : List (List Frame)) → IsLineOf tracebacks (strategy_line tracebacks)
unfolding strategy_line
strategy_line_lem [] = tt
strategy_line_lem (frames ∷ causes) =
    by_own (innermost frames) (innermost_lem frames) (strategy_line_lem causes)
  where
    by_causes :
        (o : Option ℕ) → All IsOther frames → IsLineOf causes o → IsLineOf (frames ∷ causes) o
    by_causes none own rest = (own, rest)
    by_causes (some line) own (before, fs, more, e, others, rest) =
        (frames ∷ before, fs, more, ap (◌∷◌ frames) e, (own, others), rest)

    by_own :
        (o : Option ℕ)
        → IsInnermost frames o
        → IsLineOf causes (strategy_line causes)
        → IsLineOf
            (frames ∷ causes)
            (elim o [ some line ↦ some line | none ↦ strategy_line causes ])
    by_own none own rest = by_causes (strategy_line causes) own rest
    by_own (some line) own rest = ([], frames, causes, refl, tt, own)

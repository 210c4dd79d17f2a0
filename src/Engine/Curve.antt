-- ===== src/Engine/Curve.antt =====
-- The outputs by bar: the equity curve and the history have one entry for each bar, in order.
use stock_invest_system.Prelude.{
  ℕ, suc, ◌-◌, ◌≡◌, refl, sym, ap, subst⁻¹, ◌∙◌, List, [], ◌∷◌, ◌++◌, map, ◌==◌, by_test,
  append_assoc, append-nil,
}
use mathlib.Core.List.{map-append}
use stock_invest_system.Floating.{Floating}
use stock_invest_system.Engine.Types.{
  Bar, BacktestConfig, Params, Point, State, Result, ok, Strategy, ok-injective, by_result,
}
use stock_invest_system.Engine.Fill.{book_buy, book_sell}
use stock_invest_system.Engine.Run.{open_bar, close_bar, step, run_bars, fresh, run_from, call_init}
use stock_invest_system.Engine.Moves.{Move, Moves, here, next, quiet, buys, sells}
use stock_invest_system.Engine.Bars.{step-Moves, init-Moves}

module _ {ℓ} {F : Type ℓ} where
  abbrev pub stamps : State F → List ℕ
  stamps s = map (λ (q : Point F). q.ts) s.equity_curve

  -- Two states with the same outputs by bar.
  abbrev SameOutputs : State F → State F → Type ℓ
  SameOutputs s s' = (s'.equity_curve ≡ s.equity_curve) × (s'.history ≡ s.history)

module _ {ℓ} {F : Type ℓ} ⦃d : Floating F⦄ where
  Move-SameOutputs : {c : BacktestConfig F} {s s' : State F} → Move c s s' → SameOutputs s s'
  unfolding book_buy book_sell
  Move-SameOutputs (quiet price b q e) =
      (ap (λ (x : State F). x.equity_curve) e, ap (λ (x : State F). x.history) e)
  Move-SameOutputs (buys bar n r at trade) = (
    ap (λ (x : State F). x.equity_curve) trade.result,
    ap (λ (x : State F). x.history) trade.result,
  )
  Move-SameOutputs {s} (sells bar n r price at trade) = subst⁻¹ (SameOutputs s) trade.result (
      by_test (SameOutputs s) (s.shares_held - trade.count == 0) (λ _. (refl, refl))
        (λ _. (refl, refl)))

  Moves-SameOutputs : {c : BacktestConfig F} {s s' : State F} → Moves c s s' → SameOutputs s s'
  Moves-SameOutputs here = (refl, refl)
  Moves-SameOutputs (next h m) =
      let (e, f) = Move-SameOutputs m in let (e', f') = Moves-SameOutputs h in (e ∙ e', f ∙ f')

  module _ {κ} {T : Type κ} (c : BacktestConfig F) (p : Params F) (pct : F) where
    step_outputs :
        (strategy : Strategy F T) (elapsed : F) (r : T × State F) (bar : Bar F) {r' : T × State F}
        → step c p pct strategy elapsed r bar ≡ ok r'
        → (stamps r'.1 ≡ stamps r.1 ++ bar.ts ∷ []) × (r'.1.history ≡ r.1.history ++ bar ∷ [])
    unfolding open_bar close_bar
    step_outputs strategy elapsed r bar h =
        let (u, m, e) = step-Moves c p pct strategy elapsed r bar h in
        let (curve, past) = Moves-SameOutputs m in
        (
          ap stamps e
              ∙ map-append (λ (q : Point F). q.ts) u.equity_curve _
              ∙ ap (λ (x : List (Point F)). map (λ (q : Point F). q.ts) x ++ bar.ts ∷ []) curve,
          ap (λ (x : State F). x.history) e ∙ ap (λ (x : List (Bar F)). x ++ bar ∷ []) past,
        )

    run_bars_outputs :
        (strategy : Strategy F T) (clock : ℕ → F) (idx : ℕ) (r : T × State F) (bars : List (Bar F))
        {r' : T × State F}
        → run_bars c p pct strategy clock idx r bars ≡ ok r'
        → (stamps r'.1 ≡ stamps r.1 ++ map (λ (b : Bar F). b.ts) bars)
          × (r'.1.history ≡ r.1.history ++ bars)
    unfolding run_bars
    run_bars_outputs strategy clock idx r [] h =
        let e = ap (λ (q : T × State F). q.1) (ok-injective h) in
        (
          sym (ap stamps e) ∙ sym (append-nil (stamps r.1)),
          sym (ap (λ (x : State F). x.history) e) ∙ sym (append-nil r.1.history),
        )
    run_bars_outputs strategy clock idx r (bar ∷ bars) {r' = r'} h =
        by_result Goal (step c p pct strategy (clock idx) r bar)
          (λ x ex g.
            joined x (step_outputs strategy (clock idx) r bar ex)
              (run_bars_outputs strategy clock (suc idx) x bars g))
          (λ e g. cc) h
      where
        Ends : Type ℓ
        Ends =
            (stamps r'.1 ≡ stamps r.1 ++ bar.ts ∷ map (λ (b : Bar F). b.ts) bars)
            × (r'.1.history ≡ r.1.history ++ bar ∷ bars)

        Goal : Result (T × State F) → Type (ℓ ⊔ κ)
        Goal m = m ≡ ok r' → Ends

        joined :
            (x : T × State F)
            → (stamps x.1 ≡ stamps r.1 ++ bar.ts ∷ []) × (x.1.history ≡ r.1.history ++ bar ∷ [])
            → (stamps r'.1 ≡ stamps x.1 ++ map (λ (b : Bar F). b.ts) bars)
              × (r'.1.history ≡ x.1.history ++ bars)
            → Ends
        joined x (a, b) (a', b') = (
          a' ∙ rw a (append_assoc (stamps r.1) (bar.ts ∷ []) _),
          b' ∙ rw b (append_assoc r.1.history (bar ∷ []) bars),
        )

    -- A run that ends normally has gone through every bar once and in order: the curve's time
    -- stamps are the bars', and the history is the list of bars.
    pub run_from_outputs :
        (strategy : Strategy F T) (clock : ℕ → F) (bars : List (Bar F)) {r : T × State F}
        → run_from c p pct strategy clock bars ≡ ok r
        → (stamps r.1 ≡ map (λ (b : Bar F). b.ts) bars) × (r.1.history ≡ bars)
    unfolding run_from fresh
    run_from_outputs strategy clock [] h = cc
    run_from_outputs strategy clock (bar ∷ bars) {r = r} h =
        by_result Goal (call_init c p pct strategy.initialize strategy.start (fresh c bar))
          (λ x ex g.
            joined x (Moves-SameOutputs (init-Moves c p pct strategy.initialize (fresh c bar) _ ex))
              (run_bars_outputs strategy clock 0 x (bar ∷ bars) g))
          (λ e g. cc) h
      where
        Ends : Type ℓ
        Ends = (stamps r.1 ≡ map (λ (b : Bar F). b.ts) (bar ∷ bars)) × (r.1.history ≡ bar ∷ bars)

        Goal : Result (T × State F) → Type (ℓ ⊔ κ)
        Goal m = m ≡ ok r → Ends

        joined :
            (x : T × State F)
            → SameOutputs (fresh c bar) x.1
            → (stamps r.1 ≡ stamps x.1 ++ map (λ (b : Bar F). b.ts) (bar ∷ bars))
              × (r.1.history ≡ x.1.history ++ bar ∷ bars)
            → Ends
        joined x (a, b) (a', b') = (
          a'
              ∙ ap
                  (λ (y : List (Point F)).
                    map (λ (q : Point F). q.ts) y ++ map (λ (b : Bar F). b.ts) (bar ∷ bars))
                  a,
          b' ∙ ap (λ (y : List (Bar F)). y ++ bar ∷ bars) b,
        )

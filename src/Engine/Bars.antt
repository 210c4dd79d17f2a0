-- ===== src/Engine/Bars.antt =====
-- The bar and the run as moves: a bar opens, makes its moves, and closes; a run is a first sequence
-- of moves by `initialize` and then its bars in order.
use stock_invest_system.Prelude.{
  ℕ, suc, ◌≡◌, refl, sym, ap, subst, subst⁻¹, ◌∙◌, List, [], ◌∷◌, Option, none, some, by_test,
  eq_of_some,
}
use stock_invest_system.Floating.{Floating}
use stock_invest_system.Engine.Types.{
  Bar, on_close, on_open, BacktestConfig, Params, State, Error, Result, ok, err, or_raise, Program,
  finish, fail, buy, sell, Strategy, by_result, on_bar_failed, ok-injective, some_of_raise,
}
use stock_invest_system.Engine.Run.{
  call_init, do_buy, do_sell, settle_on, exit_if_held, open_bar, close_bar, run_program, step,
  run_bars, fresh, run_from,
}
use stock_invest_system.Engine.Moves.{
  Moves, here, next, quiet, Moves-trans, Reaches, do_buy-Reaches, do_sell-Reaches,
}
use stock_invest_system.Engine.Steps.{
  Moves-current_bar, Reaches-ok, settle_on-Reaches, exit_if_held-Reaches,
}

module _ {ℓ} {F : Type ℓ} ⦃d : Floating F⦄ where
  module _ {κ} {T : Type κ} (c : BacktestConfig F) (p : Params F) (pct : F) where
    -- One answered call of the strategy's code.
    answered :
        {s : State F} {r : T × State F} (m : Result (State F))
        (next_ok : State F → Option (T × State F)) (next_err : Error → Option (T × State F))
        → Reaches c s m
        → ((s' : State F) → next_ok s' ≡ some r → Moves c s' r.1)
        → ((e : Error) → next_err e ≡ some r → Moves c s r.1)
        → elim m [ ok s' ↦ next_ok s' | err e ↦ next_err e ] ≡ some r
        → Moves c s r.1
    answered (ok s') f g h kf kg e = Moves-trans h (kf s' e)
    answered (err x) f g h kf kg e = kg x e

    -- Whatever code runs, the state changes by moves only.
    pub run_program-Moves :
        (code : Program F T) (s : State F) {r : T × State F}
        → run_program c p pct code s ≡ some r
        → Moves c s r.1
    unfolding run_program
    run_program-Moves (finish t) s h =
        subst (Moves c s) (ap (λ (x : T × State F). x.1) (eq_of_some h)) here
    run_program-Moves fail s h = cc
    run_program-Moves (buy n code) s h =
        answered (do_buy c p pct s n) _ _ (do_buy-Reaches c p pct s n)
          (λ s'. run_program-Moves (code none s') s') (λ e. run_program-Moves (code (some e) s) s) h
    run_program-Moves (sell n code) s h =
        answered (do_sell c s n) _ _ (do_sell-Reaches c s n)
          (λ s'. run_program-Moves (code none s') s') (λ e. run_program-Moves (code (some e) s) s) h

    -- The four parts of a bar, one after the other.
    bar-Moves :
        (s : State F) (bar : Bar F) (code : State F → Program F T) {a b y : State F}
        {x : T × State F}
        → s.current_bar ≡ some bar
        → settle_on on_open c.fill_on c s bar ≡ ok a
        → exit_if_held c p (record a { price = bar.close }) bar ≡ ok b
        → or_raise (run_program c p pct (code b) b) on_bar_failed ≡ ok x
        → settle_on on_close c.fill_on c x.1 bar ≡ ok y
        → Moves c s y
    bar-Moves s bar code {a} {b} {y} {x} at ea eb ex ey =
        let first = Reaches-ok _ (settle_on-Reaches on_open c.fill_on c s bar at) ea in
        let priced : Moves c s (record a { price = bar.close }) =
          next first (quiet bar.close a.pending_buy a.pending_sell refl) in
        let second = Moves-trans priced (
          Reaches-ok _
            (exit_if_held-Reaches c p (record a { price = bar.close }) bar
              (Moves-current_bar first ∙ at))
            eb) in
        let third = Moves-trans second (run_program-Moves (code b) b (some_of_raise _ _ ex)) in
        Moves-trans third (
          Reaches-ok _
            (settle_on-Reaches on_close c.fill_on c x.1 bar (Moves-current_bar third ∙ at)) ey)

    -- A bar that succeeds opens, moves and closes.
    pub step-Moves :
        (strategy : Strategy F T) (elapsed : F) (r : T × State F) (bar : Bar F) {r' : T × State F}
        → step c p pct strategy elapsed r bar ≡ ok r'
        → (u : State F) × Moves c (open_bar r.1 bar) u × (r'.1 ≡ close_bar u bar)
    unfolding step open_bar
    step-Moves strategy elapsed (t, s) bar {r' = r'} =
        by_test Goal (d.ltb c.time_budget elapsed) (λ _ h. cc)
          λ _.
            by_result Goal (settle_on on_open c.fill_on c (open_bar s bar) bar)
              (λ a ea.
                by_result Goal (exit_if_held c p (record a { price = bar.close }) bar)
                  (λ b eb.
                    by_result Goal
                      (or_raise (run_program c p pct (strategy.on_bar t bar b) b) on_bar_failed)
                      (λ x ex.
                        by_result Goal (settle_on on_close c.fill_on c x.1 bar)
                          (λ y ey h. (
                            y,
                            bar-Moves (open_bar s bar) bar (strategy.on_bar t bar) refl ea eb ex ey,
                            sym (ap (λ (q : T × State F). q.1) (ok-injective h)),
                          ))
                          failed)
                      failed)
                  failed)
              failed
      where
        Goal : Result (T × State F) → Type (ℓ ⊔ κ)
        Goal m = m ≡ ok r' → (u : State F) × Moves c (open_bar s bar) u × (r'.1 ≡ close_bar u bar)

        failed : (e : Error) → Goal (err e)
        failed e h = cc

    -- A property of states that every bar keeps holds after any number of bars.
    pub run_bars_inv {μ} :
        (P : State F → Type μ)
        → ((s : State F) (bar : Bar F) (u : State F)
            → P s
            → Moves c (open_bar s bar) u
            → P (close_bar u bar))
        → (strategy : Strategy F T) (clock : ℕ → F) (idx : ℕ) (r : T × State F)
          (bars : List (Bar F)) {r' : T × State F}
        → run_bars c p pct strategy clock idx r bars ≡ ok r'
        → P r.1
        → P r'.1
    unfolding run_bars
    run_bars_inv P keep strategy clock idx r [] h start =
        subst P (ap (λ (q : T × State F). q.1) (ok-injective h)) start
    run_bars_inv P keep strategy clock idx r (bar ∷ bars) {r' = r'} h start =
        by_result (λ m. m ≡ ok r' → P r'.1) (step c p pct strategy (clock idx) r bar)
          (λ x ex g.
            run_bars_inv P keep strategy clock (suc idx) x bars g
              (after x (step-Moves strategy (clock idx) r bar ex)))
          (λ e h. cc) h
      where
        after :
            (x : T × State F)
            → (u : State F) × Moves c (open_bar r.1 bar) u × (x.1 ≡ close_bar u bar)
            → P x.1
        after x (u, m, e) = subst⁻¹ P e (keep r.1 bar u start m)

    pub init-Moves :
        (init : Option (State F → Program F T)) (s : State F) (t : T) {x : T × State F}
        → call_init c p pct init t s ≡ ok x
        → Moves c s x.1
    init-Moves none s t h = subst (Moves c s) (ap (λ (q : T × State F). q.1) (ok-injective h)) here
    init-Moves (some code) s t h = run_program-Moves (code s) s (some_of_raise _ _ h)

    -- And so it holds at the end of a run, if every start has it.
    pub run_from_inv {μ} :
        (P : State F → Type μ)
        → ((bar : Bar F) (u : State F) → Moves c (fresh c bar) u → P u)
        → ((s : State F) (bar : Bar F) (u : State F)
            → P s
            → Moves c (open_bar s bar) u
            → P (close_bar u bar))
        → (strategy : Strategy F T) (clock : ℕ → F) (bars : List (Bar F)) {r' : T × State F}
        → run_from c p pct strategy clock bars ≡ ok r'
        → P r'.1
    unfolding run_from
    run_from_inv P start keep strategy clock [] h = cc
    run_from_inv P start keep strategy clock (bar ∷ bars) {r' = r'} h =
        by_result (λ m. m ≡ ok r' → P r'.1)
          (call_init c p pct strategy.initialize strategy.start (fresh c bar))
          (λ x ex g.
            run_bars_inv P keep strategy clock 0 x (bar ∷ bars) g
              (start bar x.1 (init-Moves strategy.initialize (fresh c bar) _ ex)))
          (λ e g. cc) h

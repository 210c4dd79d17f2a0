-- ===== src/Engine/Delay.antt =====
-- Filling at the next opening: under `fill_on = "open"` the strategy's calls only leave orders.
use stock_invest_system.Prelude.{
  ℕ, zero, suc, ◌≡◌, refl, sym, ap, subst, ◌∙◌, Option, none, some, by_test, eq_of_some,
}
use stock_invest_system.Prelude.Int.{ℤ, pos, negsuc}
use stock_invest_system.Floating.{Floating}
use stock_invest_system.Engine.Types.{
  on_open, BacktestConfig, Params, State, Error, Result, ok, err, Program, finish, fail, buy, sell,
  by_result,
}
use stock_invest_system.Engine.Fill.{affordable}
use stock_invest_system.Engine.Run.{
  place_buy, place_sell, buy_count, sell_count, do_buy, do_sell, or_default, run_program,
}

module _ {ℓ} {F : Type ℓ} ⦃d : Floating F⦄ where
  -- Nothing has been traded between the two states.
  abbrev pub IsUntraded : State F → State F → Type ℓ
  IsUntraded s s' =
      (s'.trades ≡ s.trades)
      × (s'.cash ≡ s.cash)
      × (s'.shares_held ≡ s.shares_held)
      × (s'.fifo_cost ≡ s.fifo_cost)

  -- So it is for a result, if it is a state.
  abbrev Waits : State F → Result (State F) → Type ℓ
  Waits s (ok s') = IsUntraded s s'
  Waits s (err e) = Unit

  module _ (c : BacktestConfig F) (p : Params F) (pct : F) (later : c.fill_on ≡ on_open) where
    buy_count-Waits : (s : State F) (n : ℤ) → Waits s (buy_count c s n)
    unfolding place_buy
    buy_count-Waits s (pos zero) = (refl, refl, refl, refl)
    buy_count-Waits s (pos (suc n)) =
        subst (λ mode. Waits s (place_buy mode c s (suc n))) (sym later) (refl, refl, refl, refl)
    buy_count-Waits s (negsuc n) = (refl, refl, refl, refl)

    do_buy-Waits : (s : State F) (shares : Option ℤ) → Waits s (do_buy c p pct s shares)
    unfolding do_buy
    do_buy-Waits s (some n) =
        by_test (Waits s) s.auto_exited_this_bar (λ _. (refl, refl, refl, refl))
          λ _. buy_count-Waits s n
    do_buy-Waits s none =
        by_test (Waits s) s.auto_exited_this_bar (λ _. (refl, refl, refl, refl))
          λ _.
            by_test (Waits s) (d.leb s.price d.nought) (λ _. (refl, refl, refl, refl))
              λ _.
                by_result (Waits s)
                  (affordable c (d.mul s.cash (or_default p.position_max_pct pct)) s.price)
                  (λ n _. buy_count-Waits s n) (λ _. tt)

    sell_count-Waits : (s : State F) (n : ℕ) → Waits s (sell_count c s n)
    unfolding place_sell
    sell_count-Waits s zero = (refl, refl, refl, refl)
    sell_count-Waits s (suc n) =
        subst (λ mode. Waits s (place_sell mode c s (suc n))) (sym later) (refl, refl, refl, refl)

    do_sell-Waits : (s : State F) (shares : Option ℤ) → Waits s (do_sell c s shares)
    unfolding do_sell
    do_sell-Waits s none = sell_count-Waits s s.sellable
    do_sell-Waits s (some (pos n)) = sell_count-Waits s n
    do_sell-Waits s (some (negsuc n)) = (refl, refl, refl, refl)

    module _ {κ} {T : Type κ} where
      waited :
          (s : State F) {r : T × State F} (m : Result (State F))
          (next_ok : State F → Option (T × State F)) (next_err : Error → Option (T × State F))
          → Waits s m
          → ((s' : State F) → next_ok s' ≡ some r → IsUntraded s' r.1)
          → ((e : Error) → next_err e ≡ some r → IsUntraded s r.1)
          → elim m [ ok s' ↦ next_ok s' | err e ↦ next_err e ] ≡ some r
          → IsUntraded s r.1
      waited s (ok s') f g h kf kg e =
          let k = kf s' e in (k.0 ∙ h.0, k.1 ∙ h.1, k.2 ∙ h.2, k.3 ∙ h.3)
      waited s (err x) f g h kf kg e = kg x e

      -- Under `fill_on = "open"` no code of the strategy trades on the bar on which it decides: log,
      -- cash, position and lots are as before it ran, whatever it calls.
      pub run_program_delayed :
          (code : Program F T) (s : State F) {r : T × State F}
          → run_program c p pct code s ≡ some r
          → IsUntraded s r.1
      unfolding run_program
      run_program_delayed (finish t) s h =
          subst (IsUntraded s) (ap (λ (x : T × State F). x.1) (eq_of_some h))
            (refl, refl, refl, refl)
      run_program_delayed fail s h = cc
      run_program_delayed (buy n code) s h =
          waited s (do_buy c p pct s n) _ _ (do_buy-Waits s n)
            (λ s'. run_program_delayed (code none s') s')
            (λ e. run_program_delayed (code (some e) s) s) h
      run_program_delayed (sell n code) s h =
          waited s (do_sell c s n) _ _ (do_sell-Waits s n)
            (λ s'. run_program_delayed (code none s') s')
            (λ e. run_program_delayed (code (some e) s) s) h

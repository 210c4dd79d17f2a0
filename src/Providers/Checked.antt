-- ===== src/Providers/Checked.antt =====
-- When an empty answer of `fetch_kline_checked` counts as confirmed.
use stock_invest_system.Prelude.{◌≡◌, Bool, true, false, not, ◌&&◌, ◌||◌, List, [], ◌∷◌, arith, All}
use stock_invest_system.Providers.Circuit.{allow}
use stock_invest_system.Providers.Chain.{
  Answer, failed, gave, Source, Bars, is_nil, is_asked, check_chain, fetch_kline_checked,
}

module _ {ℓ} {X : Type ℓ} (enabled external_only : Bool) where
  abbrev gave_none : Answer (Bars X) → Bool
  gave_none failed = false
  gave_none (gave bars) = is_nil bars

  -- A provider that does not speak against an empty answer: it is not asked, or it is let through
  -- and gives no bars.
  abbrev pub agrees : Source (Bars X) → Bool
  agrees p =
      not (is_asked enabled external_only p)
      || ((allow p.asked_at p.circuit).granted && gave_none p.answer)

  abbrev pub any_asked : List (Source (Bars X)) → Bool
  any_asked [] = false
  any_asked (p ∷ ps) = is_asked enabled external_only p || any_asked ps

  check_chain_lem :
      (confirmed attempted : Bool) (ps : List (Source (Bars X)))
      → let r = check_chain enabled external_only confirmed attempted ps in
        r.bars ≡ []
        → r.confirmed ≡ true
        → (confirmed ≡ true) × All (λ p. agrees p ≡ true) ps × ((attempted || any_asked ps) ≡ true)
  unfolding check_chain
  check_chain_lem confirmed attempted [] e h = ground arith
  check_chain_lem confirmed attempted (p ∷ ps) e h = ground (
    arith,
    check_chain_lem confirmed attempted ps,
    check_chain_lem false attempted ps,
    check_chain_lem false true ps,
    check_chain_lem confirmed true ps,
  )

  -- If no bars are returned and the emptiness counts as confirmed, then one provider at least was
  -- asked, and every provider that is active and serves what is asked for was let through by its
  -- circuit and gave no bars: none failed and none was left out for its circuit.
  pub checked_empty :
      (ps : List (Source (Bars X)))
      → (fetch_kline_checked enabled external_only ps).bars ≡ []
      → (fetch_kline_checked enabled external_only ps).confirmed ≡ true
      → All (λ p. agrees p ≡ true) ps × (any_asked ps ≡ true)
  unfolding fetch_kline_checked
  checked_empty ps e h = let r = check_chain_lem true false ps e h in (r.1, r.2)

  check_chain-agrees :
      (attempted : Bool) (ps : List (Source (Bars X)))
      → All (λ p. agrees p ≡ true) ps
      → (attempted || any_asked ps) ≡ true
      → ((check_chain enabled external_only true attempted ps).bars ≡ [])
        × ((check_chain enabled external_only true attempted ps).confirmed ≡ true)
  unfolding check_chain
  check_chain-agrees attempted [] a h = ground arith
  check_chain-agrees attempted (p ∷ ps) a h =
      ground (arith, check_chain-agrees attempted ps, check_chain-agrees true ps a.1)

  -- If one provider at least is active and serves what is asked for, and every such provider is let
  -- through by its circuit and gives no bars, then no bars are returned and this is confirmed.
  pub checked_confirms :
      (ps : List (Source (Bars X)))
      → All (λ p. agrees p ≡ true) ps
      → any_asked ps ≡ true
      → ((fetch_kline_checked enabled external_only ps).bars ≡ [])
        × ((fetch_kline_checked enabled external_only ps).confirmed ≡ true)
  unfolding fetch_kline_checked
  checked_confirms ps a h = check_chain-agrees false ps a h

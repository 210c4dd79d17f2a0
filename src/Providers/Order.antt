-- ===== src/Providers/Order.antt =====
-- Which provider answers.
use stock_invest_system.Prelude.{
  ℕ, ◌≡◌, refl, ap, Bool, true, false, ◌&&◌, List, [], ◌∷◌, ◌++◌, Option, none, some, arith, All,
  ◌⊎◌, inl, inr, Bool-cases,
}
use stock_invest_system.Providers.Circuit.{allow}
use stock_invest_system.Providers.Chain.{
  Answer, failed, gave, Source, Chained, is_active, answered, iter_chain,
}

module _ {ℓ} {R : Type ℓ} (enabled : Bool) (is_none : R → Bool) (label : Bool → R → R) where
  -- A provider that may be asked at a time.
  abbrev pub may_ask : ℕ → Source R → Bool
  may_ask now p = is_active enabled p && (p.in_scope && (allow now p.circuit).granted)

  -- A provider that may be asked and answers with something, and what this is once it is labelled.
  abbrev pub Gives : ℕ → Source R → R → Type ℓ
  Gives now p r =
      (may_ask now p ≡ true)
      × ((x : R) × (p.answer ≡ gave x) × (is_none x ≡ false) × (r ≡ label p.is_stockdb x))

  -- One that may not be asked, fails, or gives nothing.
  abbrev pub Silent : ℕ → Source R → Type ℓ
  Silent now p =
      (may_ask now p ≡ false)
      ⊎ ((p.answer ≡ failed) ⊎ ((x : R) × (p.answer ≡ gave x) × (is_none x ≡ true)))

  -- The first of a chain that gives something stands behind silent ones; or all are silent.
  abbrev pub IsFirst : ℕ → List (Source R) → Option R → Type ℓ
  IsFirst now ps none = All (Silent now) ps
  IsFirst now ps (some r) =
      (before : List (Source R)) × (p : Source R) × (after : List (Source R)) × (ps
        ≡ before ++ p ∷ after)
      × All (Silent now) before
      × Gives now p r

  Silent-IsFirst :
      (now : ℕ) (p : Source R) (ps : List (Source R)) (o : Option R)
      → Silent now p
      → IsFirst now ps o
      → IsFirst now (p ∷ ps) o
  Silent-IsFirst now p ps none s h = (s, h)
  Silent-IsFirst now p ps (some r) s (before, q, after, e, hs, g) =
      (p ∷ before, q, after, ap (◌∷◌ p) e, (s, hs), g)

  answered-IsFirst :
      (now : ℕ) (p : Source R) (ps : List (Source R)) (rest : Chained R)
      → may_ask now p ≡ true
      → IsFirst now ps rest.result
      → (a : Answer R) → p.answer ≡ a
      → IsFirst now (p ∷ ps) (answered enabled is_none label now p ps rest a).result
  answered-IsFirst now p ps rest may h failed e =
      Silent-IsFirst now p ps rest.result (inr (inl e)) h
  answered-IsFirst now p ps rest may h (gave x) e = elim (Bool-cases (is_none x)) [
    | inl n ↦ rw n (Silent-IsFirst now p ps rest.result (inr (inr (x, e, n))) h)
    | inr n ↦ rw n ([], p, ps, refl, tt, (may, (x, e, n, refl)))
  ]

  -- The call returns what the first provider gives, in the order of the chain, that is active, serves
  -- what is asked for, is let through by its circuit and answers with something; all before it are
  -- not asked, fail or give nothing. It returns none only if this holds of all of them.
  pub iter_chain_lem :
      (now : ℕ) (ps : List (Source R))
      → IsFirst now ps (iter_chain enabled is_none label now ps).result
  unfolding iter_chain
  iter_chain_lem now [] = tt
  iter_chain_lem now (p ∷ ps) =
      let rest = iter_chain enabled is_none label now ps in
      let h = iter_chain_lem now ps in
      elim (Bool-cases (is_active enabled p && p.in_scope)) [
        | inl e ↦ elim (Bool-cases (allow now p.circuit).granted) [
          | inl g ↦
              rw (e, g) (answered-IsFirst now p ps rest (ground (arith, e, g)) h p.answer refl)
          | inr g ↦ rw (e, g) (Silent-IsFirst now p ps rest.result (inl (ground (arith, e, g))) h)
        ]
        | inr e ↦ rw e (Silent-IsFirst now p ps rest.result (inl (ground (arith, e))) h)
      ]

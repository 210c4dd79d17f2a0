-- ===== src/Runner/Ends.antt =====
-- The loop of `run_isolated` is left.
use stock_invest_system.Prelude.{
  ℕ, suc, ◌+◌, ◌-◌, ◌*◌, ◌≤◌, ◌<◌, ◌≡◌, arith, Bool, true, false, not, ◌&&◌, List, [], ◌∷◌, length,
  if◌then◌else◌, inl, inr,
}
use stock_invest_system.Runner.Watch.{
  Polled, silent, got, Round, Caller, Seen, poll_interval, watch, round,
}
use stock_invest_system.Runner.Rounds.{is_watching, Next-cases, round-Continued, round-leaves}

module _ {R : Type 0} where
  abbrev pub is_silent : Polled R → Bool
  is_silent silent = true
  is_silent p = false

  abbrev pub is_got : Polled R → Bool
  is_got (got m) = true
  is_got p = false

  -- Whether a round leaves something in the pipe of a child that has ended.
  abbrev pub leaves_more : Round R → Bool
  leaves_more r = is_silent r.polled && not r.alive && r.more

  -- The number of the messages of some rounds.
  abbrev pub count_got : List (Round R) → ℕ
  count_got [] = 0
  count_got (r ∷ rs) = let n = count_got rs in if is_got r.polled then suc n else n

  -- Rounds as time goes by: the clock does not run backwards, a wait for nothing takes the time that
  -- `poll` was given, and what is left in the pipe is there in the next round.
  abbrev pub Paced : ℕ → Bool → List (Round R) → Type 0
  Paced now left [] = Unit
  Paced now left (r ∷ rs) =
      (now ≤ r.clock)
      × (left ≡ true → is_silent r.polled ≡ false)
      × (is_silent r.polled ≡ true → r.alive ≡ true → now + poll_interval ≤ r.clock)
      × Paced r.clock (leaves_more r) rs

abbrev spare : Bool → ℕ
spare left = if left then 0 else poll_interval

module _ {R : Type 0} (c : Caller) where
  watch-watching :
      (rs : List (Round R)) (now : ℕ) (left : Bool) (s : Seen)
      → Paced now left rs
      → is_watching (watch c rs s).stop ≡ true
      → poll_interval * length rs
        ≤ 2 * poll_interval * count_got rs + (c.deadline - now) + spare left
  unfolding watch
  watch-watching [] now left s p h = omega arith
  watch-watching (r ∷ rs) now left s p h = elim (Next-cases (round c r s)) [
    | inr (stop, s', e) ↦ ground (arith, e, round-leaves c r s stop s' e, h)
    | inl (s', e) ↦
        let rest = watch-watching rs r.clock (leaves_more r) s' p.3 (rw (e, watch) at h) in
        elim (round-Continued c r s s' e).1 [
          | inl (inl (q, a, lt), same) ↦ ground (arith, rest, q, a, lt, p)
          | inl (inr (q, a, m), same) ↦ ground (arith, rest, q, a, m, p)
          | inr (m, q, on) ↦ ground (arith, rest, q, p)
        ]
  ]

  -- When the clock runs and what is left in a pipe can be read, the loop has been left after at most
  -- two rounds for each message, one for each wait up to the deadline, and one more.
  pub watch_lem :
      (rs : List (Round R)) (now : ℕ) (s : Seen)
      → Paced now false rs
      → 2 * poll_interval * count_got rs + (c.deadline - now) + poll_interval
        < poll_interval * length rs
      → is_watching (watch c rs s).stop ≡ false
  watch_lem rs now s p enough = ground (arith, watch-watching rs now false s p)

-- ===== src/Ws/Skip.antt =====
-- The inner loop of `broadcast_kline`, which goes over the list that a failed message makes shorter.
use stock_invest_system.Prelude.{
  ℕ, zero, suc, ◌<◌, ◌≡◌, ◌≢◌, refl, ap, sym, ◌∙◌, Bool, true, false, List, [], ◌∷◌, ◌++◌, arith,
  ◌==◌, length, length-append, by_test, All, drop, none, some, append_assoc, append-nil,
  Option-cases, inl, inr, subst, eq_of_some, All-append,
}
use stock_invest_system.Ws.Manager.{
  Connection, remove, Sent, get_elem?, send_if, send_live, kline_to_user, is_subscribed,
}
use stock_invest_system.Ws.Broadcast.{filter, numbers}

module _ (P : ℕ → Type 0) where
  -- Of all connections from a place on, after one has gone.
  abbrev AllFrom : ℕ → List Connection → Type 0
  AllFrom i conns = All (λ (y : Connection). P y.number) (drop i conns)

  AllFrom-suc : (i : ℕ) (conns : List Connection) → AllFrom i conns → AllFrom (suc i) conns
  AllFrom-suc zero [] h = tt
  AllFrom-suc zero (x ∷ conns) h = h.1
  AllFrom-suc (suc i) [] h = tt
  AllFrom-suc (suc i) (x ∷ conns) h = AllFrom-suc i conns h

  AllFrom-remove :
      (i : ℕ) (conns : List Connection) (state : Connection)
      → AllFrom i conns
      → AllFrom i (remove conns state)
  unfolding remove
  AllFrom-remove zero [] state h = tt
  AllFrom-remove (suc i) [] state h = tt
  AllFrom-remove zero (x ∷ conns) state h =
      by_test (AllFrom 0) (x.number == state.number) (λ t. h.1)
        (λ t. (h.0, AllFrom-remove 0 conns state h.1))
  AllFrom-remove (suc i) (x ∷ conns) state h =
      by_test (AllFrom (suc i)) (x.number == state.number) (λ t. AllFrom-suc i conns h)
        (λ t. AllFrom-remove i conns state h)

  AllFrom-get_elem? :
      (i : ℕ) (conns : List Connection) (state : Connection)
      → AllFrom i conns
      → get_elem? conns i ≡ some state
      → P state.number
  AllFrom-get_elem? i [] state h e = ground arith
  AllFrom-get_elem? zero (x ∷ conns) state h e =
      subst (λ (y : Connection). P y.number) (eq_of_some e) h.0
  AllFrom-get_elem? (suc i) (x ∷ conns) state h e = AllFrom-get_elem? i conns state h e

  module _ (alive : ℕ → Bool) (symbol : ℕ) where
    abbrev SentFrom : ℕ → Sent → Type 0
    SentFrom i r = All P r.reached × AllFrom i r.conns

    send_if-SentFrom :
        (i : ℕ) (state : Connection) (conns : List Connection)
        → P state.number
        → AllFrom i conns
        → SentFrom i (send_if alive symbol state conns)
    send_if-SentFrom i state conns p h =
        by_test (SentFrom i) (is_subscribed symbol state.subscribed)
          (λ t.
            by_test (SentFrom i) (alive state.number) (λ up. ((p, tt), h))
              (λ down. (tt, AllFrom-remove i conns state h)))
          (λ t. (tt, h))

    send_live-All :
        (rounds i : ℕ) (conns : List Connection)
        → AllFrom i conns
        → All P (send_live alive symbol rounds i conns).reached
    unfolding send_live
    send_live-All zero i conns h = tt
    send_live-All (suc rounds) i conns h = elim (Option-cases (get_elem? conns i)) [
      | inl ended ↦ rw (ended, All) tt
      | inr (state, here) ↦
          let now = send_if-SentFrom i state conns (AllFrom-get_elem? i conns state h here) h in
          rw (here, All)
            (All-append P (send_if alive symbol state conns).reached _ now.0 (
              send_live-All rounds (suc i) (send_if alive symbol state conns).conns
                (AllFrom-suc i (send_if alive symbol state conns).conns now.1)))
    ]

module _ (alive : ℕ → Bool) (symbol : ℕ) where
  send_if_dead :
      (x : Connection) (conns : List Connection)
      → is_subscribed symbol x.subscribed ≡ true
      → alive x.number ≡ false
      → send_if alive symbol x (x ∷ conns) ≡ record { reached = []; conns = conns }
  unfolding remove
  send_if_dead x conns subscribed dead = rw (subscribed, dead) (ground arith)

  -- When the first connection of a user is subscribed to a symbol and does not take the message,
  -- the connection after it is not sent the message, be it alive or not, if its number is its own.
  pub kline_skips :
      (x y : Connection) (rest : List Connection)
      → is_subscribed symbol x.subscribed ≡ true
      → alive x.number ≡ false
      → All (λ (z : Connection). z.number ≢ y.number) rest
      → All (λ n. n ≢ y.number) (kline_to_user alive symbol (x ∷ y ∷ rest)).reached
  unfolding kline_to_user send_live
  kline_skips x y rest subscribed dead own =
      subst
        (λ now.
          All (λ n. n ≢ y.number)
            (now.reached ++ (send_live alive symbol (suc (suc (length rest))) 1 now.conns).reached))
        (sym (send_if_dead x (y ∷ rest) subscribed dead))
        (send_live-All (λ n. n ≢ y.number) alive symbol (suc (suc (length rest))) 1 (y ∷ rest) own)

  abbrev pub wants : Connection → Bool
  wants x = is_subscribed symbol x.subscribed

  get_elem?-append :
      (p q : List Connection) (x : Connection) → get_elem? (p ++ x ∷ q) (length p) ≡ some x
  get_elem?-append [] q x = refl
  get_elem?-append (y ∷ p) q x = get_elem?-append p q x

  get_elem?-end : (p : List Connection) → get_elem? p (length p) ≡ none
  get_elem?-end [] = refl
  get_elem?-end (y ∷ p) = get_elem?-end p

  send_if_alive :
      (x : Connection) (conns : List Connection)
      → alive x.number ≡ true
      → send_if alive symbol x conns
        ≡ record { reached = numbers (filter wants (x ∷ [])); conns = conns }
  send_if_alive x conns up = ground arith

  numbers-filter-cons :
      (x : Connection) (q : List Connection)
      → numbers (filter wants (x ∷ q)) ≡ numbers (filter wants (x ∷ [])) ++ numbers (filter wants q)
  numbers-filter-cons x q = ground arith

  abbrev AllSent : List Connection → List Connection → Sent → Type 0
  AllSent q conns r = (r.reached ≡ numbers (filter wants q)) × (r.conns ≡ conns)

  get_elem?_at :
      (p q conns : List Connection) (x : Connection)
      → conns ≡ p ++ x ∷ q
      → get_elem? conns (length p) ≡ some x
  get_elem?_at p q conns x e = ap (λ l. get_elem? l (length p)) e ∙ get_elem?-append p q x

  send_live_at :
      (rounds i : ℕ) (p q conns : List Connection)
      → i ≡ length p
      → conns ≡ p ++ q
      → length q < rounds
      → All (λ (z : Connection). alive z.number ≡ true) q
      → AllSent q conns (send_live alive symbol rounds i conns)
  unfolding send_live
  send_live_at zero i p q conns l e h up = ground arith
  send_live_at (suc rounds) i p [] conns l e h up =
      rw (l, ap (λ c. get_elem? c (length p)) (e ∙ append-nil p) ∙ get_elem?-end p, send_live)
        (refl, refl)
  send_live_at (suc rounds) i p (x ∷ q) conns l e h up =
      let rest =
        send_live_at rounds (suc i) (p ++ x ∷ []) q conns
          (omega (arith, l, length-append p (x ∷ []))) (e ∙ sym (append_assoc p (x ∷ []) q))
          (omega (arith, h)) up.1 in
      rw
        (ap (get_elem? conns) l ∙ get_elem?_at p q conns x e, send_if_alive x conns up.0, send_live)
        (
          ap (λ r. numbers (filter wants (x ∷ [])) ++ r) rest.0 ∙ sym (numbers-filter-cons x q),
          rest.1,
        )

  -- When all the connections of a user are alive, the message reaches those subscribed to the
  -- symbol, each once and in order, and no connection is lost.
  pub kline_complete :
      (conns : List Connection)
      → All (λ (z : Connection). alive z.number ≡ true) conns
      → ((kline_to_user alive symbol conns).reached ≡ numbers (filter wants conns))
        × ((kline_to_user alive symbol conns).conns ≡ conns)
  unfolding kline_to_user
  kline_complete conns up =
      send_live_at (suc (length conns)) 0 [] conns conns refl refl (omega arith) up

-- ===== src/Ws/Registry.antt =====
-- The registry: one entry for each user, none empty, and the count of connections.
use stock_invest_system.Prelude.{
  ℕ, suc, ◌+◌, ◌<◌, ◌≡◌, ◌≢◌, refl, true, List, [], ◌∷◌, arith, ◌==◌, length, length-append,
  by_test, All,
}
use stock_invest_system.Ws.Manager.{
  Connection, Connections, lookup, register, contains, remove, keep_entry, disconnect, count,
}

-- No user is listed twice, and every user listed has a connection.
abbrev pub IsValid : Connections → Type 0
IsValid [] = Unit
IsValid ((key, conns) ∷ rest) =
    (0 < length conns) × All (λ (e : ℕ × List Connection). e.0 ≢ key) rest × IsValid rest

register-All_ne :
    (key : ℕ) (all : Connections) (state : Connection)
    → state.user_id ≢ key
    → All (λ (e : ℕ × List Connection). e.0 ≢ key) all
    → All (λ (e : ℕ × List Connection). e.0 ≢ key) (register all state)
unfolding register
register-All_ne key [] state ne h = (ne, tt)
register-All_ne key (e ∷ all) state ne h = ground (arith, register-All_ne key all state ne h.1)

-- A new connection keeps the registry in order and adds one to the count, also for a user who has
-- connections already.
pub register-IsValid :
    (all : Connections) (state : Connection)
    → IsValid all
    → IsValid (register all state) × (count (register all state) ≡ count all + 1)
unfolding register count
register-IsValid [] state v = ground arith
register-IsValid ((key, conns) ∷ rest) state v =
    by_test (λ all. IsValid all × (count all ≡ count ((key, conns) ∷ rest) + 1))
      (key == state.user_id) (λ s. ground (arith, length-append conns (state ∷ [])))
      (λ s. ground (
        arith,
        register-IsValid rest state v.2,
        register-All_ne key rest state (λ p. ground arith) v.1,
      ))

length-remove :
    (conns : List Connection) (state : Connection)
    → contains conns state ≡ true
    → length conns ≡ suc (length (remove conns state))
unfolding remove
length-remove [] state h = ground arith
length-remove (x ∷ conns) state h = ground (arith, length-remove conns state)

disconnect-All_ne :
    (key : ℕ) (all : Connections) (state : Connection)
    → All (λ (e : ℕ × List Connection). e.0 ≢ key) all
    → All (λ (e : ℕ × List Connection). e.0 ≢ key) (disconnect all state)
unfolding disconnect
disconnect-All_ne key [] state h = tt
disconnect-All_ne key ((k, conns) ∷ all) state h =
    by_test (All (λ (e : ℕ × List Connection). e.0 ≢ key)) (k == state.user_id)
      (λ s. keep_entry-All_ne (remove conns state))
      (λ s. (h.0, disconnect-All_ne key all state h.1))
  where
    keep_entry-All_ne :
        (left : List Connection)
        → All (λ (e : ℕ × List Connection). e.0 ≢ key) (keep_entry k left all)
    keep_entry-All_ne [] = h.1
    keep_entry-All_ne (x ∷ left) = h

keep_entry-IsValid :
    (key : ℕ) (conns : List Connection) (rest : Connections)
    → All (λ (e : ℕ × List Connection). e.0 ≢ key) rest
    → IsValid rest
    → IsValid (keep_entry key conns rest)
      × (count (keep_entry key conns rest) ≡ length conns + count rest)
unfolding count
keep_entry-IsValid key [] rest h v = (v, omega arith)
keep_entry-IsValid key (x ∷ conns) rest h v = ((omega arith, h, v), refl)

-- A connection that is registered, when it goes, leaves the registry in order, with no entry for a
-- user whose last connection it was, and takes one off the count.
pub disconnect-IsValid :
    (all : Connections) (state : Connection)
    → IsValid all
    → contains (lookup state.user_id all) state ≡ true
    → IsValid (disconnect all state) × (count all ≡ suc (count (disconnect all state)))
unfolding disconnect count
disconnect-IsValid [] state v h = ground arith
disconnect-IsValid ((key, conns) ∷ rest) state v h =
    by_test (λ all. IsValid all × (count ((key, conns) ∷ rest) ≡ suc (count all)))
      (key == state.user_id)
      (λ s.
        let kept = keep_entry-IsValid key (remove conns state) rest v.1 v.2 in
        ground (arith, length-remove conns state))
      (λ s. ground (arith, disconnect-IsValid rest state v.2, disconnect-All_ne key rest state v.1))

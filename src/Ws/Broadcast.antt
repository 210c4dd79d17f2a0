-- ===== src/Ws/Broadcast.antt =====
-- Who is reached by a message, when connections are found dead while it is sent.
use stock_invest_system.Prelude.{
  ℕ, ◌≡◌, ◌≢◌, refl, ap, sym, ◌∙◌, Bool, List, [], ◌∷◌, ◌++◌, arith, Bool-cases, inl, inr,
  if◌then◌else◌, All, All-append, append_assoc,
}
use stock_invest_system.Ws.Manager.{
  Connection, Connections, lookup, remove, send_copy, send_to_user,
}

-- The connections that pass a test, and their numbers.
abbrev pub filter : (Connection → Bool) → List Connection → List Connection
filter p [] = []
filter p (x ∷ xs) = if p x then x ∷ filter p xs else filter p xs

abbrev pub numbers : List Connection → List ℕ
numbers [] = []
numbers (x ∷ xs) = x.number ∷ numbers xs

-- No number twice.
abbrev pub Unique : List Connection → Type 0
Unique [] = Unit
Unique (x ∷ xs) = All (λ (y : Connection). x.number ≢ y.number) xs × Unique xs

remove-append :
    (state : Connection) (p q : List Connection)
    → All (λ (y : Connection). y.number ≢ state.number) p
    → remove (p ++ state ∷ q) state ≡ p ++ q
unfolding remove
remove-append state [] q h = ground arith
remove-append state (x ∷ p) q h = ground (arith, remove-append state p q h.1)

abbrev Apart : List Connection → List Connection → Type 0
Apart p q = All (λ (z : Connection). All (λ (y : Connection). y.number ≢ z.number) p) q

Apart-append :
    (p : List Connection) (x : Connection) (q : List Connection)
    → Apart p q
    → All (λ (y : Connection). x.number ≢ y.number) q
    → Apart (p ++ x ∷ []) q
Apart-append p x [] h k = tt
Apart-append p x (z ∷ q) h k = (
  All-append (λ (y : Connection). y.number ≢ z.number) p (x ∷ []) h.0 (k.0, tt),
  Apart-append p x q h.1 k.1,
)

Apart-nil : (q : List Connection) → Apart [] q
Apart-nil [] = tt
Apart-nil (x ∷ q) = (tt, Apart-nil q)

module _ (alive : ℕ → Bool) where
  abbrev pub is_alive : Connection → Bool
  is_alive x = alive x.number

  send_copy_at :
      (p q conns : List Connection)
      → conns ≡ p ++ q
      → Apart p q
      → Unique q
      → (send_copy alive q conns).reached ≡ numbers (filter is_alive q)
        × (send_copy alive q conns).conns ≡ p ++ filter is_alive q
  unfolding send_copy
  send_copy_at p [] conns e h u = (refl, e)
  send_copy_at p (x ∷ q) conns e h u = elim (Bool-cases (alive x.number)) [
    | inl up ↦
        let ih =
          send_copy_at (p ++ x ∷ []) q conns (e ∙ sym (append_assoc p (x ∷ []) q))
            (Apart-append p x q h.1 u.0) u.1 in
        rw up (ap (λ r. x.number ∷ r) ih.0, ih.1 ∙ append_assoc p (x ∷ []) (filter is_alive q))
    | inr down ↦
        let ih =
          send_copy_at p q (remove conns x) (ap (λ l. remove l x) e ∙ remove-append x p q h.0) h.1
            u.1 in
        rw down ih
  ]

  -- A message to a user reaches exactly the connections of the user that are alive, in order,
  -- and exactly those are left, if no connection is registered twice.
  pub send_to_user_lem :
      (user : ℕ) (all : Connections)
      → Unique (lookup user all)
      → (send_to_user alive user all).reached ≡ numbers (filter is_alive (lookup user all))
        × (send_to_user alive user all).conns ≡ filter is_alive (lookup user all)
  unfolding send_to_user
  send_to_user_lem user all u =
      send_copy_at [] (lookup user all) (lookup user all) refl (Apart-nil (lookup user all)) u

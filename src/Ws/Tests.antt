-- ===== src/Ws/Tests.antt =====
-- Three connections of one user, of which the first is dead.
use stock_invest_system.Prelude.{
  ℕ, ◌≡◌, ◌≢◌, refl, Bool, true, not, List, [], ◌∷◌, arith, ◌==◌, All,
}
use stock_invest_system.Ws.Manager.{
  Connection, Connections, register, remove, send_live, kline_to_user,
}
use stock_invest_system.Ws.Skip.{kline_skips}

abbrev tab : ℕ → Connection
tab n = record { number = n; user_id = 4; subscribed = 7 ∷ [] }

abbrev tabs : List Connection
tabs = tab 1 ∷ tab 2 ∷ tab 3 ∷ []

abbrev registry : Connections
registry = (4, tabs) ∷ []

abbrev but_one : ℕ → Bool
but_one n = not (n == 1)

abbrev all_alive : ℕ → Bool
all_alive n = true

registered : register (register [] (tab 1)) (tab 2) ≡ (4, tab 1 ∷ tab 2 ∷ []) ∷ []
unfolding register
registered = refl

kline_reaches_third : (kline_to_user but_one 7 tabs).reached ≡ 3 ∷ []
unfolding kline_to_user send_live remove
kline_reaches_third = refl

kline_skips_example : All (λ n. n ≢ 2) (kline_to_user but_one 7 tabs).reached
kline_skips_example = kline_skips but_one 7 (tab 1) (tab 2) (tab 3 ∷ []) refl refl (ground arith)

-- ===== src/Throttle/Tests.antt =====
-- An interval of two seconds and a budget of two requests.
use stock_invest_system.Prelude.{◌≡◌, refl, List, [], ◌∷◌, ℕ, true}
use stock_invest_system.Auth.Simple.{Writes, writes}
use stock_invest_system.Throttle.Acquire.{Limits, Usage, script, acquire_within, acquire}
use stock_invest_system.Throttle.Spacing.{grants}

abbrev limits : Limits
limits = record { interval = 2; budget = 2 }

abbrev unused : Usage Writes
unused = record { used = []; slot = [] }

abbrev asked : List ℕ
asked = 1000 ∷ 1100 ∷ 1200 ∷ 3000 ∷ 3100 ∷ 9000 ∷ []

passed : grants writes limits 7 asked unused ≡ 1000 ∷ 3000 ∷ []
unfolding grants script
passed = refl

waits_for_slot :
    (acquire writes limits true 1500 7 (acquire writes limits true 1000 7 unused).usage).at ≡ 3000
unfolding acquire acquire_within script
waits_for_slot = refl

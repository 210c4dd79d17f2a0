-- ===== src/Quota/Tests.antt =====
-- A user with two slots taken and a limit of two, on a table of scores.
use stock_invest_system.Prelude.{◌≤◌, ◌≡◌, refl, true, false, List, [], ◌∷◌, arith, some}
use stock_invest_system.Prelude.Int.{negsuc}
use stock_invest_system.Quota.Table.{Table, table}
use stock_invest_system.Quota.Slots.{
  Settings, Call, acquire_call, release_call, count_call, evict, acquire_script, acquire, run,
}
use stock_invest_system.Quota.Limit.{run-le_limit}
use stock_invest_system.Quota.Held.{granted_is_held}

abbrev settings : Settings
settings = record { limit = 2; stale = 300 }

-- Tokens 0 and 1, taken at 10 and 20.
abbrev taken : Table
taken = some 10 ∷ some 20 ∷ []

abbrev calls : List Call
calls =
    acquire_call true 100 5
    ∷ release_call true 0
    ∷ count_call false 120
    ∷ acquire_call true 130 6
    ∷ []

acquire_when_full : (acquire table settings true 100 5 taken).granted ≡ false
unfolding acquire acquire_script evict
acquire_when_full = refl

acquire_without_redis : (acquire table settings false 100 5 taken).running ≡ negsuc 0
unfolding acquire
acquire_without_redis = refl

run-le_limit_example : table.zcard (run table settings calls taken) ≤ 2
run-le_limit_example = run-le_limit table settings calls taken (ground arith)

granted_here : (acquire table settings true 310 5 taken).granted ≡ true
unfolding acquire acquire_script evict
granted_here = refl

granted_is_held_example :
    table.score
      (run table settings
        (release_call true 1 ∷ acquire_call true 320 6 ∷ [])
        (acquire table settings true 310 5 taken).slots)
      5
    ≡ some 310
granted_is_held_example =
    granted_is_held table settings 310 5 taken (release_call true 1 ∷ acquire_call true 320 6 ∷ [])
      granted_here (ground arith)

-- ===== src/Jobs/Monitor.antt =====
-- The count of a strategy's failures in a row: stock_backend/app/services/backtest_monitor.py. Texts
-- and keywords are numbers; whether a text holds a keyword is a parameter.
use stock_invest_system.Prelude.{
  ℕ, suc, ◌+◌, ◌≤◌, ◌<◌, ◌≡◌, arith, Bool, true, false, ◌||◌, List, [], ◌∷◌, leb, if◌then◌else◌,
  length,
}
use stock_invest_system.Prelude.Int.{ℤ, pos, negsuc, leb_ℤ}
use stock_invest_system.Redis.{ExpiringKeys, or_zero}

pub data Reason : Type 0 where
  timeout : Reason
  memory : Reason
  cpu : Reason
  sandbox : Reason
  no_data : Reason
  runtime : Reason
  other : Reason

-- The reasons in the order in which they are tried, with their keywords, numbered as they stand.
abbrev reason_patterns : List (Reason × List ℕ)
reason_patterns =
    (timeout, 1 ∷ 2 ∷ 3 ∷ [])
    ∷ (memory, 4 ∷ 5 ∷ [])
    ∷ (cpu, 6 ∷ [])
    ∷ (sandbox, 7 ∷ 8 ∷ 9 ∷ 10 ∷ [])
    ∷ (no_data, 11 ∷ 12 ∷ 13 ∷ [])
    ∷ (runtime, 14 ∷ 15 ∷ 16 ∷ [])
    ∷ []

-- The Redis keys of the streaks, and the counters: the runs that succeeded and failed, and the
-- reasons that were counted, for all failures and for those of an abnormal strategy.
pub record Monitor (S : Type 0) : Type 0 where
  pub streaks : S
  pub succeeded : ℕ
  pub failures : List Reason
  pub abnormal : List Reason

pub record Bumped (S : Type 0) : Type 0 where
  pub streak : ℤ
  pub streaks : S

abbrev streak_seconds : ℕ
streak_seconds = 86400

-- The outcome of a back-test of the strategy, at a time.
pub data Outcome : Type 0 where
  success_at : ℕ → Outcome
  failure_at : ℕ → ℕ → Outcome

abbrev pub time_of : Outcome → ℕ
time_of (success_at t) = t
time_of (failure_at t text) = t

-- Times in order, each less than a day after the one before.
abbrev pub Daily : ℕ → List Outcome → Type 0
Daily before [] = Unit
Daily before (x ∷ xs) = (before ≤ time_of x) × (time_of x < before + 86400) × Daily (time_of x) xs

-- How many of the outcomes are failures that are at least the given number in a row, after n.
abbrev pub late_failures : ℕ → ℕ → List Outcome → ℕ
late_failures threshold n [] = 0
late_failures threshold n (success_at t ∷ xs) = late_failures threshold 0 xs
late_failures threshold n (failure_at t text ∷ xs) =
    (if leb threshold (suc n) then 1 else 0) + late_failures threshold (suc n) xs

module _ (contains : ℕ → ℕ → Bool) where
  abbrev any_in : ℕ → List ℕ → Bool
  any_in text [] = false
  any_in text (k ∷ ks) = contains k text || any_in text ks

  abbrev first_reason : ℕ → List (Reason × List ℕ) → Reason
  first_reason text [] = other
  first_reason text ((reason, keywords) ∷ rest) =
      if any_in text keywords then reason else first_reason text rest

  unfoldable pub classify_failure : ℕ → Reason
  classify_failure text = first_reason text reason_patterns

  module _ {S : Type 0} (k : ExpiringKeys S) (threshold : ℕ) where
    unfoldable pub bump_fail_streak : Bool → ℕ → ℕ → S → Bumped S
    bump_fail_streak true now strategy_id s = record {
      streak = pos (or_zero (k.value s now strategy_id) + 1);
      streaks = k.incr_ex now streak_seconds strategy_id s;
    }
    bump_fail_streak false now strategy_id s = record { streak = negsuc 0; streaks = s }

    unfoldable pub reset_fail_streak : Bool → ℕ → S → S
    reset_fail_streak true strategy_id s = k.delete strategy_id s
    reset_fail_streak false strategy_id s = s

    unfoldable pub record_success : Bool → ℕ → Monitor S → Monitor S
    record_success up strategy_id m = record m {
      streaks = reset_fail_streak up strategy_id m.streaks;
      succeeded = suc m.succeeded;
    }

    unfoldable pub record_failure : Bool → ℕ → ℕ → ℕ → Monitor S → Monitor S
    record_failure up now strategy_id text m =
        let reason = classify_failure text in
        let bumped = bump_fail_streak up now strategy_id m.streaks in
        record m {
          streaks = bumped.streaks;
          failures = reason ∷ m.failures;
          abnormal =
              if leb_ℤ (pos threshold) bumped.streak then reason ∷ m.abnormal else m.abnormal;
        }

    unfoldable pub record_all : ℕ → List Outcome → Monitor S → Monitor S
    record_all strategy_id [] m = m
    record_all strategy_id (success_at t ∷ xs) m =
        record_all strategy_id xs (record_success true strategy_id m)
    record_all strategy_id (failure_at t text ∷ xs) m =
        record_all strategy_id xs (record_failure true t strategy_id text m)

    -- The streak stands at n from a time on, for a day.
    abbrev Counted : ℕ → ℕ → ℕ → S → Type 0
    Counted t n strategy_id s =
        (now : ℕ) → t ≤ now → now < t + 86400 → or_zero (k.value s now strategy_id) ≡ n

    bump_fail_streak-Counted :
        (t n strategy_id : ℕ) (s : S)
        → or_zero (k.value s t strategy_id) ≡ n
        → Counted t (suc n) strategy_id (bump_fail_streak true t strategy_id s).streaks
    unfolding bump_fail_streak
    bump_fail_streak-Counted t n strategy_id s h now le lt =
        ground (arith, k.value-incr_ex t streak_seconds strategy_id s now strategy_id)

    reset_fail_streak-Counted :
        (t strategy_id : ℕ) (s : S) → Counted t 0 strategy_id (reset_fail_streak true strategy_id s)
    unfolding reset_fail_streak
    reset_fail_streak-Counted t strategy_id s now le lt =
        ground (arith, k.value-delete strategy_id s now strategy_id)

    length-record_failure :
        (t n strategy_id text : ℕ) (m : Monitor S)
        → or_zero (k.value m.streaks t strategy_id) ≡ n
        → length (record_failure true t strategy_id text m).abnormal
          ≡ length m.abnormal + (if leb threshold (suc n) then 1 else 0)
    unfolding record_failure bump_fail_streak
    length-record_failure t n strategy_id text m h = ground arith

    -- With Redis in reach, a strategy is counted as abnormal at exactly those failures that are at
    -- least the threshold's number in a row since the last success, as long as its outcomes come
    -- less than a day apart.
    pub record_all_lem :
        (outcomes : List Outcome) (t n strategy_id : ℕ) (m : Monitor S)
        → Daily t outcomes
        → Counted t n strategy_id m.streaks
        → length (record_all strategy_id outcomes m).abnormal
          ≡ length m.abnormal + late_failures threshold n outcomes
    unfolding record_all record_success record_failure
    record_all_lem [] t n strategy_id m near h = omega arith
    record_all_lem (success_at u ∷ xs) t n strategy_id m near h =
        record_all_lem xs u 0 strategy_id (record_success true strategy_id m) near.2
          (reset_fail_streak-Counted u strategy_id m.streaks)
    record_all_lem (failure_at u text ∷ xs) t n strategy_id m near h =
        let here = h u near.0 near.1 in
        let rest =
          record_all_lem xs u (suc n) strategy_id (record_failure true u strategy_id text m) near.2
            (bump_fail_streak-Counted u n strategy_id m.streaks here) in
        omega (arith, rest, length-record_failure u n strategy_id text m here)

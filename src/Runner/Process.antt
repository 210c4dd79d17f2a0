-- ===== src/Runner/Process.antt =====
-- `_shutdown` and `_exit_reason` of backtest/runner.py, over an interface of multiprocessing's
-- processes.
use stock_invest_system.Prelude.{
  ℕ, suc, Bool, false, Option, none, some, ◌≡◌, ◌≢◌, ◌==◌, if◌then◌else◌,
}
use stock_invest_system.Prelude.Int.{ℤ, pos, negsuc}

-- A process as its parent sees it; each operation is followed by what happens up to the next one. A
-- `join` may be over before the process is, whatever was done to it.
pub record Process (P : Type 0) : Type 0 where
  pub terminate : P → P
  pub kill : P → P
  pub join : ℕ → P → P
  pub is_alive : P → Bool
  pub exitcode : P → Option ℤ
  -- What has ended has a code.
  pub ended_has_code : (p : P) → is_alive p ≡ false → exitcode p ≢ none

-- The numbers of two signals, where the platform has them.
pub record Signals : Type 0 where
  pub sigxcpu : Option ℕ
  pub sigkill : Option ℕ

-- The texts of `_exit_reason`.
pub data ExitReason : Type 0 where
  not_ended : ExitReason
  cpu_time : ExitReason
  force_killed : ExitReason
  by_signal : ℕ → ExitReason
  with_code : ℕ → ExitReason

abbrev is_signal : Option ℕ → ℕ → Bool
is_signal none n = false
is_signal (some s) n = n == s

unfoldable pub exit_reason : Signals → Option ℤ → ExitReason
exit_reason s none = not_ended
exit_reason s (some (pos n)) = with_code n
exit_reason s (some (negsuc n)) =
    if is_signal s.sigxcpu (suc n)
    then cpu_time
    else (if is_signal s.sigkill (suc n) then force_killed else by_signal (suc n))

-- In milliseconds.
abbrev pub graceful_exit : ℕ
graceful_exit = 5_000

module _ {P : Type 0} (o : Process P) where
  abbrev pub terminate_alive : P → P
  terminate_alive p = if o.is_alive p then o.join graceful_exit (o.terminate p) else p

  abbrev kill_alive : P → P
  kill_alive p = if o.is_alive p then o.join graceful_exit (o.kill p) else p

  unfoldable pub shutdown : Bool → P → P
  shutdown immediate p =
      kill_alive (terminate_alive (if immediate then o.terminate p else o.join graceful_exit p))

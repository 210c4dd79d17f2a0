-- ===== src/Validator/Tests.antt =====
-- A strategy that is valid, and one whose child does not start.
use stock_invest_system.Prelude.{ℕ, ◌≡◌, ◌↔◌, refl, true, false, List, [], ◌∷◌, none}
use stock_invest_system.Runner.Child.{ran, child_main, apply_limits}
use stock_invest_system.Runner.Process.{with_code, exit_reason, shutdown}
use stock_invest_system.Runner.Watch.{eof, Round, Caller, watch, round, sample}
use stock_invest_system.Runner.Isolated.{Outcome, exit, run_isolated}
use stock_invest_system.Runner.Relay.{Heard}
use stock_invest_system.Runner.Samples.{
  Proc, over, running, procs, linux, host, send, run, at, rounds,
}
use stock_invest_system.Prelude.Int.{pos}
use stock_invest_system.Validator.Sandbox.{
  initialize, on_bar, other, function_node, call_node, other_node, tree, Code, compile_strategy,
}
use stock_invest_system.Validator.Check.{limited, problems, check_interface, validate_strategy}
use stock_invest_system.Validator.Valid.{IsValid, validate_strategy_iff, validate_strategy-ran}

abbrev code : Code
code = record {
  is_blank = false;
  parsed = tree (
      function_node initialize 1 1
      ∷ function_node on_bar 3 2
      ∷ call_node (other 5)
      ∷ other_node
      ∷ []);
  has_restricted_errors = false;
  loads = true;
  has_on_bar = true;
}

abbrev dry : Caller
dry = record { memory_bytes = 100; deadline = 5_000; on_progress = none }

abbrev outcome : List (Round ℕ) → Proc → Outcome ℕ
outcome rs p = (run_isolated procs linux dry rs p).outcome

validate_strategy_iff_example :
    (validate_strategy code (outcome rounds running) ≡ problems [])
    ↔ IsValid code (outcome rounds running)
validate_strategy_iff_example = validate_strategy_iff code (outcome rounds running)

heard : Heard [] rounds (child_main host send run 30 100)
unfolding child_main apply_limits
heard = (refl, (refl, (refl, (refl, refl))))

is_valid : validate_strategy code (outcome rounds running) ≡ problems []
unfolding validate_strategy check_interface compile_strategy run_isolated watch round sample
is_valid = refl

validate_strategy-ran_example : (r : ℕ) × (run.result ≡ ran r)
validate_strategy-ran_example =
    validate_strategy-ran code procs linux dry host send run 30 100 [] rounds running heard is_valid

-- A child that ends with 1 before it says anything, as one does that cannot import its modules.
not_started :
    validate_strategy code (outcome (at eof 10 ∷ []) (over (pos 1)))
    ≡ problems (record { line = none; message = limited (exit (with_code 1)) } ∷ [])
unfolding validate_strategy check_interface compile_strategy run_isolated watch round sample
    shutdown exit_reason
not_started = refl

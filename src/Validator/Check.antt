-- ===== src/Validator/Check.antt =====
-- `validate_strategy` of agent/strategy_validator.py. The dry run is one of `run_isolated`.
use stock_invest_system.Prelude.{
  ℕ, Bool, true, false, List, [], ◌∷◌, ◌++◌, Option, none, some, ◌==◌, if◌then◌else◌,
}
use stock_invest_system.Runner.Isolated.{
  Outcome, returned, runtime_error, resource_error, ResourceError, propagated, unfinished,
}
use stock_invest_system.Validator.Sandbox.{
  Name, initialize, on_bar, Node, import_node, function_node, Parsed, tree, syntax_error, Code,
  SandboxError, compile_strategy,
}

pub data Message : Type 0 where
  no_code : Message
  not_parsed : Message
  no_initialize : Message
  no_on_bar : Message
  wrong_parameters : ℕ → Message
  no_imports : Message
  rejected : SandboxError → Message
  failed_with : ℕ → Message
  limited : ResourceError → Message

pub record Problem : Type 0 where
  pub line : Option ℕ
  pub message : Message

-- A function's line and the number of its parameters.
pub record Function : Type 0 where
  pub line : ℕ
  pub parameters : ℕ

abbrev same_function : Name → Name → Bool
same_function initialize initialize = true
same_function on_bar on_bar = true
same_function a b = false

abbrev pub or_function : Option Function → Bool → Function → Option Function
or_function (some g) same f = some g
or_function none true f = some f
or_function none false f = none

-- The last function of a name, which is the one the dictionary keeps.
abbrev pub last_function : Name → List Node → Option Function
last_function name [] = none
last_function name (function_node n line parameters ∷ nodes) =
    or_function (last_function name nodes) (same_function name n)
      (record { line = line; parameters = parameters })
last_function name (node ∷ nodes) = last_function name nodes

abbrev problem : Option ℕ → Message → Problem
problem line message = record { line = line; message = message }

abbrev pub import_problems : List Node → List Problem
import_problems [] = []
import_problems (import_node line ∷ nodes) = problem (some line) no_imports ∷ import_problems nodes
import_problems (node ∷ nodes) = import_problems nodes

abbrev pub check_initialize : Option Function → List Problem
check_initialize none = problem none no_initialize ∷ []
check_initialize (some f) = []

abbrev pub check_parameters : Function → List Problem
check_parameters f =
    if f.parameters == 2 then [] else problem (some f.line) (wrong_parameters f.parameters) ∷ []

-- The imports are only looked for when there is `on_bar`.
abbrev pub check_on_bar : List Node → Option Function → List Problem
check_on_bar nodes none = problem none no_on_bar ∷ []
check_on_bar nodes (some f) = check_parameters f ++ import_problems nodes

unfoldable pub check_interface : List Node → List Problem
check_interface nodes =
    check_initialize (last_function initialize nodes)
    ++ check_on_bar nodes (last_function on_bar nodes)

-- The problems, an exception that goes on, or nothing yet while the dry run goes on.
pub data Checked : Type 0 where
  problems : List Problem → Checked
  broken_off : ℕ → Checked
  waiting : Checked

-- Every `BacktestError` of `run_isolated` is of one of the two kinds that are rejected.
abbrev pub check_outcome : {R : Type 0} → Outcome R → Checked
check_outcome (returned r code peak limits) = problems []
check_outcome (runtime_error e line) = problems (problem line (failed_with e) ∷ [])
check_outcome (resource_error e) = problems (problem none (limited e) ∷ [])
check_outcome (propagated e) = broken_off e
check_outcome unfinished = waiting

abbrev pub dry_run : {R : Type 0} → Outcome R → Option SandboxError → Checked
dry_run outcome (some e) = problems (problem none (rejected e) ∷ [])
dry_run outcome none = check_outcome outcome

abbrev pub unless_problems : {R : Type 0} → Code → Outcome R → List Problem → Checked
unless_problems code outcome [] = dry_run outcome (compile_strategy code)
unless_problems code outcome (p ∷ ps) = problems (p ∷ ps)

abbrev pub check_parsed : {R : Type 0} → Code → Outcome R → Parsed → Checked
check_parsed code outcome (syntax_error line) = problems (problem (some line) not_parsed ∷ [])
check_parsed code outcome (tree nodes) = unless_problems code outcome (check_interface nodes)

abbrev pub check_text : {R : Type 0} → Code → Outcome R → Bool → Checked
check_text code outcome true = problems (problem none no_code ∷ [])
check_text code outcome false = check_parsed code outcome code.parsed

-- The code is valid when there are no problems. The outcome is looked at when the code compiles.
unfoldable pub validate_strategy : {R : Type 0} → Code → Outcome R → Checked
validate_strategy code outcome = check_text code outcome code.is_blank

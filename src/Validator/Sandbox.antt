-- ===== src/Validator/Sandbox.antt =====
-- `_reject_imports` and `compile_strategy` of backtest/sandbox.py. Python's parser, RestrictedPython and
-- the execution of the code are outside: what they give is part of the code here.
use stock_invest_system.Prelude.{ℕ, Bool, List, [], ◌∷◌, Option, none, some, if◌then◌else◌}

-- The names that are looked at; a dangerous one by its place in `_DANGEROUS_BUILTINS`.
pub data Name : Type 0 where
  initialize : Name
  on_bar : Name
  dangerous : ℕ → Name
  other : ℕ → Name

-- A node of the tree, in the order of `ast.walk`: an import or a function with its line, a function with
-- the number of its positional parameters, a call of a name, or another.
pub data Node : Type 0 where
  import_node : ℕ → Node
  function_node : Name → ℕ → ℕ → Node
  call_node : Name → Node
  other_node : Node

pub data Parsed : Type 0 where
  tree : List Node → Parsed
  syntax_error : ℕ → Parsed

-- A text: whether it is blank, its tree, whether RestrictedPython finds errors, whether it can be
-- executed, and whether `on_bar` is then something that can be called.
pub record Code : Type 0 where
  pub is_blank : Bool
  pub parsed : Parsed
  pub has_restricted_errors : Bool
  pub loads : Bool
  pub has_on_bar : Bool

pub data SandboxError : Type 0 where
  empty_code : SandboxError
  bad_syntax : SandboxError
  has_import : SandboxError
  calls_dangerous : ℕ → SandboxError
  is_restricted : SandboxError
  load_failed : SandboxError
  lacks_on_bar : SandboxError

-- The first node that is rejected.
abbrev pub reject_nodes : List Node → Option SandboxError
reject_nodes [] = none
reject_nodes (import_node line ∷ nodes) = some has_import
reject_nodes (call_node (dangerous n) ∷ nodes) = some (calls_dangerous n)
reject_nodes (node ∷ nodes) = reject_nodes nodes

abbrev pub reject_imports : Parsed → Option SandboxError
reject_imports (tree nodes) = reject_nodes nodes
reject_imports (syntax_error line) = some bad_syntax

abbrev pub load : Code → Option SandboxError
load code =
    if code.has_restricted_errors
    then some is_restricted
    else (if code.loads
        then (if code.has_on_bar then none else some lacks_on_bar)
        else some load_failed)

abbrev pub load_unless : Code → Option SandboxError → Option SandboxError
load_unless code (some e) = some e
load_unless code none = load code

-- The error, or none.
unfoldable pub compile_strategy : Code → Option SandboxError
compile_strategy code =
    if code.is_blank then some empty_code else load_unless code (reject_imports code.parsed)

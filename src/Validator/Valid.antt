-- ===== src/Validator/Valid.antt =====
-- What a strategy's code is when it is valid.
use stock_invest_system.Prelude.{
  ℕ, ◌≡◌, ◌↔◌, refl, ap, sym, ◌∙◌, subst, arith, Bool, true, false, List, [], ◌∷◌, ◌++◌, Option,
  none, some, All, eq_of_some,
}
use stock_invest_system.Prelude.Int.{ℤ}
use stock_invest_system.Runner.Child.{Message, Limits, ran, Pipe, EngineRun, Host, child_main}
use stock_invest_system.Runner.Process.{Process, Signals}
use stock_invest_system.Runner.Watch.{Round, Caller}
use stock_invest_system.Runner.Relay.{Heard}
use stock_invest_system.Runner.Reported.{run_isolated-returned}
use stock_invest_system.Runner.Isolated.{
  Outcome, returned, runtime_error, resource_error, propagated, unfinished, run_isolated,
}
use stock_invest_system.Validator.Sandbox.{
  Name, initialize, on_bar, dangerous, other, Node, import_node, function_node, call_node,
  other_node, Parsed, tree, syntax_error, Code, SandboxError, reject_nodes, reject_imports, load,
  load_unless, compile_strategy,
}
use stock_invest_system.Validator.Check.{
  Function, last_function, Problem, import_problems, check_initialize, check_parameters,
  check_on_bar, check_interface, problems, check_outcome, dry_run, unless_problems, check_parsed,
  check_text, validate_strategy,
}

-- No import, and no call of a dangerous built-in by its name.
abbrev pub Harmless : Node → Type 0
Harmless (import_node line) = ⊥
Harmless (call_node (dangerous n)) = ⊥
Harmless node = Unit

abbrev pub Declares : Name → List Node → Function → Type 0
Declares name nodes f = last_function name nodes ≡ some f

-- Both functions, the second with two parameters, harmless nodes, and a text that RestrictedPython lets
-- pass and that can be loaded.
abbrev pub WellFormed : Code → List Node → Type 0
WellFormed code nodes =
    (code.parsed ≡ tree nodes)
    × ((f : Function) × Declares initialize nodes f)
    × ((g : Function) × Declares on_bar nodes g × (g.parameters ≡ 2))
    × All Harmless nodes
    × (code.has_restricted_errors ≡ false)
    × (code.loads ≡ true)
    × (code.has_on_bar ≡ true)

reject_nodes_iff : (nodes : List Node) → (reject_nodes nodes ≡ none) ↔ All Harmless nodes
reject_nodes_iff [] = ground arith
reject_nodes_iff (import_node line ∷ nodes) = ground arith
reject_nodes_iff (call_node (dangerous n) ∷ nodes) = ground arith
reject_nodes_iff (call_node initialize ∷ nodes) = ground (arith, reject_nodes_iff nodes)
reject_nodes_iff (call_node on_bar ∷ nodes) = ground (arith, reject_nodes_iff nodes)
reject_nodes_iff (call_node (other n) ∷ nodes) = ground (arith, reject_nodes_iff nodes)
reject_nodes_iff (function_node n line p ∷ nodes) = ground (arith, reject_nodes_iff nodes)
reject_nodes_iff (other_node ∷ nodes) = ground (arith, reject_nodes_iff nodes)

-- Harmless nodes give no problem with imports.
import_problems-Harmless : (nodes : List Node) → All Harmless nodes → import_problems nodes ≡ []
import_problems-Harmless [] h = refl
import_problems-Harmless (import_node line ∷ nodes) h = absurd h.0
import_problems-Harmless (call_node n ∷ nodes) h = import_problems-Harmless nodes h.1
import_problems-Harmless (function_node n line p ∷ nodes) h = import_problems-Harmless nodes h.1
import_problems-Harmless (other_node ∷ nodes) h = import_problems-Harmless nodes h.1

append-nil_iff : {A : Type 0} (xs ys : List A) → (xs ++ ys ≡ []) ↔ ((xs ≡ []) × (ys ≡ []))
append-nil_iff [] ys = ground arith
append-nil_iff (x ∷ xs) ys = ground arith

check_initialize_iff :
    (o : Option Function) → (check_initialize o ≡ []) ↔ ((f : Function) × (o ≡ some f))
check_initialize_iff none = ground arith
check_initialize_iff (some f) = ((λ h. (f, refl)), λ h. refl)

check_parameters_iff : (f : Function) → (check_parameters f ≡ []) ↔ (f.parameters ≡ 2)
check_parameters_iff f = ground arith

check_on_bar_iff :
    (nodes : List Node) (o : Option Function)
    → (check_on_bar nodes o ≡ [])
      ↔ ((g : Function) × (o ≡ some g) × (g.parameters ≡ 2) × (import_problems nodes ≡ []))
check_on_bar_iff nodes none = ground arith
check_on_bar_iff nodes (some g) = (
  (λ h.
      let z = (append-nil_iff (check_parameters g) (import_problems nodes)).0 h in
      (g, refl, (check_parameters_iff g).0 z.0, z.1)),
  λ (x, e, p, q).
      (append-nil_iff (check_parameters g) (import_problems nodes)).1
        ((check_parameters_iff g).1 (ap (λ (f : Function). f.parameters) (eq_of_some e) ∙ p), q),
)

load_iff :
    (code : Code)
    → (load code ≡ none)
      ↔ ((code.has_restricted_errors ≡ false) × (code.loads ≡ true) × (code.has_on_bar ≡ true))
load_iff code = ground arith

load_unless_iff :
    (code : Code) (o : Option SandboxError)
    → (load_unless code o ≡ none) ↔ ((o ≡ none) × (load code ≡ none))
load_unless_iff code none = ground arith
load_unless_iff code (some e) = ground arith

eq_of_tree : {a b : List Node} → tree a ≡ tree b → a ≡ b
eq_of_tree h = cc

compile_strategy_iff :
    (code : Code)
    → code.is_blank ≡ false
    → (compile_strategy code ≡ none) ↔ ((reject_imports code.parsed ≡ none) × (load code ≡ none))
unfolding compile_strategy
compile_strategy_iff code blank =
    ground (arith, blank, load_unless_iff code (reject_imports code.parsed))

module _ {R : Type 0} where
  abbrev pub IsReturned : Outcome R → Type 0
  IsReturned o =
      (r : R) × (code : Option ℤ) × (peak : ℕ) × (l : Limits) × (o ≡ returned r code peak l)

  abbrev pub IsValid : Code → Outcome R → Type 0
  IsValid code outcome =
      (code.is_blank ≡ false) × ((nodes : List Node) × WellFormed code nodes) × IsReturned outcome

  check_outcome_iff : (o : Outcome R) → (check_outcome o ≡ problems []) ↔ IsReturned o
  check_outcome_iff (returned r code peak l) = ((λ h. (r, code, peak, l, refl)), λ h. refl)
  check_outcome_iff (runtime_error e line) =
      ((λ h. ground (arith, h)), λ (r, code, peak, l, h). ground (arith, h))
  check_outcome_iff (resource_error e) =
      ((λ h. ground (arith, h)), λ (r, code, peak, l, h). ground (arith, h))
  check_outcome_iff (propagated e) =
      ((λ h. ground (arith, h)), λ (r, code, peak, l, h). ground (arith, h))
  check_outcome_iff unfinished =
      ((λ h. ground (arith, h)), λ (r, code, peak, l, h). ground (arith, h))

  dry_run_iff :
      (o : Outcome R) (e : Option SandboxError)
      → (dry_run o e ≡ problems []) ↔ ((e ≡ none) × IsReturned o)
  dry_run_iff o none = ((λ h. (refl, (check_outcome_iff o).0 h)), λ h. (check_outcome_iff o).1 h.1)
  dry_run_iff o (some e) = ((λ h. ground (arith, h)), λ h. ground (arith, h.0))

  unless_problems_iff :
      (code : Code) (o : Outcome R) (ps : List Problem)
      → (unless_problems code o ps ≡ problems [])
        ↔ ((ps ≡ []) × (dry_run o (compile_strategy code) ≡ problems []))
  unless_problems_iff code o [] = ((λ h. (refl, h)), λ h. h.1)
  unless_problems_iff code o (p ∷ ps) = ((λ h. ground (arith, h)), λ h. ground (arith, h.0))

  check_parsed_iff :
      (code : Code) (o : Outcome R) (parsed : Parsed)
      → (check_parsed code o parsed ≡ problems []) ↔ (
          (nodes : List Node) × (parsed ≡ tree nodes)
          × (unless_problems code o (check_interface nodes) ≡ problems []))
  check_parsed_iff code o (syntax_error line) =
      ((λ h. ground (arith, h)), λ (x, e, h). ground (arith, e))
  check_parsed_iff code o (tree nodes) = (
    (λ h. (nodes, refl, h)),
    λ (x, e, h).
        subst (λ n. unless_problems code o (check_interface n) ≡ problems []) (sym (eq_of_tree e))
          h,
  )

  check_text_iff :
      (code : Code) (o : Outcome R) (b : Bool)
      → (check_text code o b ≡ problems [])
        ↔ ((b ≡ false) × (check_parsed code o code.parsed ≡ problems []))
  check_text_iff code o true = ((λ h. ground (arith, h)), λ h. ground (arith, h.0))
  check_text_iff code o false = ((λ h. (refl, h)), λ h. h.1)

  -- A strategy is found valid exactly when its text is not blank, parses, has both functions, the
  -- second with two parameters, imports nothing and calls no dangerous built-in by its name, passes
  -- RestrictedPython, can be loaded, and its dry run has returned: whatever else a dry run comes to,
  -- also a child that could not be started, is no valid strategy.
  pub validate_strategy_iff :
      (code : Code) (outcome : Outcome R)
      → (validate_strategy code outcome ≡ problems []) ↔ IsValid code outcome
  unfolding validate_strategy check_interface
  validate_strategy_iff code outcome = (to, from)
    where
      to : check_text code outcome code.is_blank ≡ problems [] → IsValid code outcome
      to h =
          let (blank, h1) = (check_text_iff code outcome code.is_blank).0 h in
          let (nodes, parsed, h2) = (check_parsed_iff code outcome code.parsed).0 h1 in
          let (clean, h3) = (unless_problems_iff code outcome (check_interface nodes)).0 h2 in
          let (compiles, back) = (dry_run_iff outcome (compile_strategy code)).0 h3 in
          let (first, second) =
            (append-nil_iff (check_initialize (last_function initialize nodes))
                (check_on_bar nodes (last_function on_bar nodes))).0
              clean in
          let (g, found, two, imports) =
            (check_on_bar_iff nodes (last_function on_bar nodes)).0 second in
          let (harmless, loads) = (compile_strategy_iff code blank).0 compiles in
          let tree_harmless =
            (reject_nodes_iff nodes).0 (subst (λ p. reject_imports p ≡ none) parsed harmless) in
          let (l0, l1, l2) = (load_iff code).0 loads in
          (
            blank,
            (
              nodes,
              (
                parsed,
                (check_initialize_iff (last_function initialize nodes)).0 first,
                (g, found, two),
                tree_harmless,
                l0,
                l1,
                l2,
              ),
            ),
            back,
          )

      from : IsValid code outcome → check_text code outcome code.is_blank ≡ problems []
      from (blank, (nodes, (parsed, first, (g, found, two), harmless, l0, l1, l2)), back) =
          let loads = (load_iff code).1 (l0, l1, l2) in
          let rejects =
            subst (λ p. reject_imports p ≡ none) (sym parsed)
              ((reject_nodes_iff nodes).1 harmless) in
          let compiles = (compile_strategy_iff code blank).1 (rejects, loads) in
          let second =
            (check_on_bar_iff nodes (last_function on_bar nodes)).1
              (g, found, two, import_problems-Harmless nodes harmless) in
          let clean =
            (append-nil_iff (check_initialize (last_function initialize nodes))
                (check_on_bar nodes (last_function on_bar nodes))).1
              ((check_initialize_iff (last_function initialize nodes)).1 first, second) in
          let h3 = (dry_run_iff outcome (compile_strategy code)).1 (compiles, back) in
          let h2 = (unless_problems_iff code outcome (check_interface nodes)).1 (clean, h3) in
          let h1 = (check_parsed_iff code outcome code.parsed).1 (nodes, parsed, h2) in
          (check_text_iff code outcome code.is_blank).1 (blank, h1)

-- A strategy that is found valid after a dry run in a child has been run there to the end: whatever the
-- rounds of the parent are like, the engine's run in the child has ended with a result.
pub validate_strategy-ran :
    {R P : Type 0} (code : Code) (o : Process P) (s : Signals) (c : Caller) (h : Host)
    (send : Pipe R) (run : EngineRun R) (cpu_seconds memory_bytes : ℕ) (rest : List (Message R))
    (rounds : List (Round R)) (p : P)
    → Heard rest rounds (child_main h send run cpu_seconds memory_bytes)
    → validate_strategy code (run_isolated o s c rounds p).outcome ≡ problems []
    → (r : R) × (run.result ≡ ran r)
validate_strategy-ran code o s c h send run cpu_seconds memory_bytes rest rounds p heard valid =
    let (r, exit_code, peak, l, e) =
      ((validate_strategy_iff code (run_isolated o s c rounds p).outcome).0 valid).2 in
    (
      r,
      run_isolated-returned send run o s c h cpu_seconds memory_bytes rest rounds p r exit_code peak
          l heard e,
    )

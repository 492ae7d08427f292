-- ===== src/Checker/Syntax.antt =====
-- The statements and bodies of src/frontend/body.ts. A field that the checker writes for the
-- emitter is left out, and so is what no check reads: the level of an assertion, the diagnostic tag
-- of a validation, the parts of the statements that are not implemented.
use bosque_core.Prelude.{ℕ, String, Bool, Option, List}
use bosque_core.Types.Syntax.{TypeSignature}
use bosque_core.CheckerEnv.Merge.{BinderInfo}

-- An expression is its node in the tree, and the line of its `sinfo`.
pub record Expression : Type 0 where
  pub node : ℕ
  pub line : ℕ

pub data ITest : Type 0 where
  itest_type : Bool → TypeSignature → ITest
  itest_none itest_some itest_ok itest_fail : Bool → ITest

pub record IfTest : Type 0 where
  pub exp : Expression
  pub itestopt : Option ITest

-- `{name: string, vtype: TypeSignature}`
pub record Decl : Type 0 where
  pub name : String
  pub vtype : TypeSignature

-- `Expression | Expression[]`
pub data Initializer : Type 0 where
  single : Expression → Initializer
  several : List Expression → Initializer

-- A `Statement` is its line and its tag with the fields; `condflow`, `switchflow` and `matchflow`
-- are the arrays of those names, and a flow has its block last.
mutual
  pub data Statement : Type 0 where
    statement : ℕ → Tagged → Statement

  pub data Tagged : Type 0 where
    error_statement empty_statement : Tagged
    variable_declaration : Decl → Tagged
    variable_multi_declaration : List Decl → Tagged
    variable_initialization : Bool → Decl → Expression → Tagged
    variable_multi_initialization : Bool → List Decl → Initializer → Tagged
    variable_assignment : String → Expression → Tagged
    variable_multi_assignment : List String → Initializer → Tagged
    variable_retype : String → ITest → Tagged
    return_void : Tagged
    return_single : Expression → Tagged
    return_multi : List Expression → Tagged
    if_statement : IfTest → Option BinderInfo → Block → Tagged
    if_else : IfTest → Option BinderInfo → Block → Block → Tagged
    if_elif_else : CondFlow → Block → Tagged
    switch_statement : Expression → SwitchFlow → Tagged
    match_statement : Expression → Option BinderInfo → MatchFlow → Tagged
    abort_statement : Tagged
    assert_statement validate_statement debug_statement void_ref_call : Expression → Tagged
    var_update this_update : String → Expression → List (String × Expression) → Tagged
    self_update environment_update environment_bracket : Tagged
    task_status task_event_emit task_yield : Tagged
    block_statement : Block → Tagged

  -- the line, `isScoping` and the statements
  pub data Block : Type 0 where
    block : ℕ → Bool → Statements → Block

  pub data Statements : Type 0 where
    no_statements : Statements
    next : Statement → Statements → Statements

  pub data CondFlow : Type 0 where
    no_conds : CondFlow
    elif : Expression → Block → CondFlow → CondFlow

  pub data SwitchFlow : Type 0 where
    no_cases : SwitchFlow
    switch_case : Option Expression → Block → SwitchFlow → SwitchFlow

  pub data MatchFlow : Type 0 where
    no_matches : MatchFlow
    match_case : Option TypeSignature → Block → MatchFlow → MatchFlow

-- The four bodies without code are one constructor.
pub data BodyImplementation : Type 0 where
  no_code : BodyImplementation
  expression_body : ℕ → Expression → BodyImplementation
  standard_body : ℕ → Statements → BodyImplementation

abbrev pub block_line : Block → ℕ
block_line (block line is_scoping body) = line

abbrev pub flow_length : SwitchFlow → ℕ
flow_length no_cases = 0
flow_length (switch_case lval b flows) = ℕ.suc (flow_length flows)

abbrev pub match_length : MatchFlow → ℕ
match_length no_matches = 0
match_length (match_case mtype b flows) = ℕ.suc (match_length flows)

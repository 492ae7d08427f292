-- ===== src/Checker/Statements.antt =====
-- `checkSwitchStatement`, `checkMatchStatement`, `checkBlockStatement`, `checkStatement` and
-- `checkBodyImplementation` of src/frontend/checker.ts.
use bosque_core.Prelude.{
  ℕ, Bool, true, false, not, ◌&&◌, Option, none, some, List, [], ◌∷◌, length, nat_eq, ltb,
}
use bosque_core.Types.Syntax.{TypeSignature}
use bosque_core.CheckerEnv.Syntax.{TypeEnvironment, fields}
use bosque_core.CheckerEnv.Operations.{set_dead_flow, push_new_local_binder_scope, pop_local_scope}
use bosque_core.CheckerEnv.Merge.{BinderInfo, merge_environments_simple}
use bosque_core.Checker.Syntax.{
  Expression, Statement, statement, Tagged, error_statement, empty_statement, variable_declaration,
  variable_multi_declaration, variable_initialization, variable_multi_initialization,
  variable_assignment, variable_multi_assignment, variable_retype, return_void, return_single,
  return_multi, if_statement, if_else, if_elif_else, switch_statement, match_statement,
  abort_statement, assert_statement, validate_statement, debug_statement, void_ref_call, var_update,
  this_update, self_update, environment_update, environment_bracket, task_status, task_event_emit,
  task_yield, block_statement, Block, block, Statements, no_statements, next, CondFlow, no_conds,
  elif, SwitchFlow, no_cases, switch_case, MatchFlow, no_matches, match_case, BodyImplementation,
  no_code, expression_body, standard_body, block_line, flow_length, match_length,
}
use bosque_core.Checker.Report.{
  expected_boolean, too_few_choices, wildcard_not_last, requires_key_type, cannot_compare,
  requires_decomposable, requires_subtype, match_never_true, match_never_false,
  no_return_in_all_paths, wrong_expression_body, Checked, threw, pure, ◌>>=◌, report_error,
  check_error, or_throw, asked, Refined, Checks,
}
use bosque_core.Checker.Variables.{
  is_error, is_refused, check_variable_declaration, check_variable_multi_declaration,
  check_variable_initialization, check_variable_multi_initialization,
}
use bosque_core.Checker.Assign.{
  check_variable_assignment, check_variable_multi_assignment, check_variable_retype, check_update,
}
use bosque_core.Checker.Flow.{
  Run, guarded, is_void, check_block_with, check_return_void, check_return_single,
  check_return_multi, check_if, check_if_else, check_condition, check_debug, check_void_ref_call,
}

-- The environments of the branches, in order.
abbrev pub Flows : Type 0
Flows = TypeEnvironment → Checked (List TypeEnvironment)

-- A branch and those after it.
unfoldable pub with_branch : Run → Flows → Flows
with_branch run rest env = do cenv ← run env; results ← rest env; pure (cenv ∷ results)

-- `mergeEnvironmentsSimple(env, ...results)`
unfoldable pub merge_flows : Flows → Run
merge_flows flows env = do results ← flows env; or_throw (merge_environments_simple env results)

-- The binder's scope round a branch of a match.
unfoldable pub in_binder : Option BinderInfo → TypeSignature → Run → Run
in_binder none t run env = run env
in_binder (some binder) t run env = do
  cenv ← run (push_new_local_binder_scope env binder.srcname t)
  or_throw (pop_local_scope cenv)

-- The branches of a match, or the environment with which it returns early.
abbrev pub MatchFlows : Type 0
MatchFlows = List TypeSignature → TypeEnvironment → Checked (Option (List TypeEnvironment))

unfoldable pub with_match : Run → MatchFlows → MatchFlows
with_match run rest ctype env = do
  cenv ← run env
  results ← rest ctype env
  pure (elim results [ none ↦ none | some es ↦ some (cenv ∷ es) ])

unfoldable pub check_match_type :
    Option BinderInfo → TypeSignature → ℕ → Refined → ℕ → Run → MatchFlows → MatchFlows
check_match_type binder mtype bline splits after run rest ctype env = do
  _ ← check_error bline (nat_eq (length splits.overlap) 0) match_never_true
  _ ← check_error bline (nat_eq (length splits.remain) 0 && not (nat_eq after 0)) match_never_false
  with_match (in_binder binder mtype run)
      (elim splits.remain [ [] ↦ λ ts e. pure (some []) | t ∷ ts ↦ rest ]) splits.remain env

unfoldable pub check_match_flows : ℕ → ℕ → List TypeSignature → MatchFlows → Run
check_match_flows line choices ctype flows env = do
  _ ← check_error line (ltb choices 2) too_few_choices
  results ← flows ctype env
  elim results [ none ↦ pure env | some es ↦ or_throw (merge_environments_simple env es) ]

-- `none` and `[]` are both the empty `ctype`.
unfoldable pub match_types : ℕ → Expression → ℕ → MatchFlows → Option (List TypeSignature) → Run
match_types line sval choices flows none env = do
  _ ← report_error sval.line requires_decomposable
  pure env
match_types line sval choices flows (some []) env = do
  _ ← report_error sval.line requires_decomposable
  pure env
match_types line sval choices flows (some (t ∷ ts)) env =
    check_match_flows line choices (t ∷ ts) flows env

-- `(lubattempt instanceof ErrorTypeSignature) ? eetype : lubattempt`
unfoldable pub default_type : TypeSignature → TypeSignature → TypeSignature
default_type eetype lubattempt = elim (is_error lubattempt) [ true ↦ eetype | false ↦ lubattempt ]

module _ (c : Checks) where
  unfoldable pub check_elif : Expression → Run → Flows → Flows
  check_elif cond run rest env = do
    etype ← asked (c.check_expression env cond none)
    _ ←
        check_error cond.line
          (not (c.is_boolean_type (elim (is_error etype) [ true ↦ c.bool_type | false ↦ etype ])))
          expected_boolean
    with_branch run rest env

  unfoldable pub check_literal :
      Expression → TypeSignature → Expression → TypeEnvironment → Checked Bool
  check_literal sval ctype lval env = do
    littype ← asked (c.check_expression env lval none)
    elim (c.is_key_type littype) [
      | false ↦ report_error lval.line requires_key_type
      | true ↦ (do
        is_err ← asked (c.check_value_eq_is_err sval ctype lval littype)
        check_error lval.line is_err cannot_compare)
    ]

  -- One choice of a switch with `after` of them behind it: a wildcard makes the switch exhaustive,
  -- and the loop ends.
  unfoldable pub check_case :
      ℕ → Expression → TypeSignature → Option Expression → ℕ → Run → Flows → Flows
  check_case line sval ctype none after run rest env = do
    _ ← check_error line (not (nat_eq after 0)) wildcard_not_last
    with_branch run (λ e. pure []) env
  check_case line sval ctype (some lval) after run rest env = do
    _ ← check_literal sval ctype lval env
    with_branch run rest env

  -- One choice of a match, at the line of its block.
  unfoldable pub check_match_case :
      TypeSignature
      → Option BinderInfo
      → Option TypeSignature
      → ℕ
      → ℕ
      → Run
      → MatchFlows
      → MatchFlows
  check_match_case eetype binder none bline after run rest ctype env = (do
    _ ← check_error bline (not (nat_eq after 0)) wildcard_not_last
    with_match (in_binder binder (default_type eetype (c.flow_type_lub eetype ctype)) run)
        (λ ts e. pure (some [])) ctype env)
  check_match_case eetype binder (some mtype) bline after run rest ctype env = do
    _ ← asked (c.check_type_signature mtype)
    elim (is_error mtype) [
      | true ↦ pure none
      | false ↦ elim (c.refine_match_type ctype mtype) [
        | none ↦ (do _ ← report_error bline requires_subtype; pure none)
        | some splits ↦ check_match_type binder mtype bline splits after run rest ctype env
      ]
    ]

  unfoldable pub check_switch : ℕ → Expression → ℕ → (TypeSignature → Flows) → Run
  check_switch line sval choices flows env = do
    ctype ← asked (c.check_expression env sval none)
    _ ← check_error line (ltb choices 2) too_few_choices
    merge_flows (flows ctype) env

  unfoldable pub check_match : ℕ → Expression → ℕ → (TypeSignature → MatchFlows) → Run
  check_match line sval choices flows env = do
    eetype ← asked (c.check_expression env sval none)
    elim (is_error eetype) [
      | true ↦ pure env
      | false ↦ match_types line sval choices (flows eetype) (c.decompose_type eetype) env
    ]

-- The recursion over the tree.
unfoldable mutual
  pub check_statement : Checks → Statement → Run
  check_statement c (statement line s) = guarded line (check_tagged c line s)

  pub check_tagged : Checks → ℕ → Tagged → Run
  check_tagged c line error_statement = pure
  check_tagged c line empty_statement = pure
  check_tagged c line (variable_declaration d) = check_variable_declaration c d
  check_tagged c line (variable_multi_declaration decls) = check_variable_multi_declaration c decls
  check_tagged c line (variable_initialization is_const d exp) =
      check_variable_initialization c line is_const d exp
  check_tagged c line (variable_multi_initialization is_const decls init) =
      check_variable_multi_initialization c line is_const decls init
  check_tagged c line (variable_assignment name exp) = check_variable_assignment c line name exp
  check_tagged c line (variable_multi_assignment names init) =
      check_variable_multi_assignment c line names init
  check_tagged c line (variable_retype name ttest) = check_variable_retype c line name ttest
  check_tagged c line return_void = check_return_void line
  check_tagged c line (return_single value) = check_return_single c line value
  check_tagged c line (return_multi values) = check_return_multi c line values
  check_tagged c line (if_statement cond binder b) =
      check_if c line cond binder (block_line b) (check_block c b)
  check_tagged c line (if_else cond binder b f) =
      check_if_else c line cond binder (block_line b) (block_line f) (check_block c b)
        (check_block c f)
  check_tagged c line (if_elif_else conds f) = merge_flows (check_elifs c conds (check_block c f))
  check_tagged c line (switch_statement sval flows) =
      check_switch c line sval (flow_length flows) (check_cases c line sval flows)
  check_tagged c line (match_statement sval binder flows) =
      check_match c line sval (match_length flows) (check_matches c binder flows)
  check_tagged c line abort_statement = λ env. pure (set_dead_flow env)
  check_tagged c line (assert_statement cond) = check_condition c line cond
  check_tagged c line (validate_statement cond) = check_condition c line cond
  check_tagged c line (debug_statement value) = check_debug c value
  check_tagged c line (void_ref_call exp) = check_void_ref_call c line exp
  check_tagged c line (var_update vname vexp updates) = check_update c line vname vexp updates
  check_tagged c line (this_update vname vexp updates) = check_update c line vname vexp updates
  check_tagged c line self_update = λ env. threw
  check_tagged c line environment_update = λ env. threw
  check_tagged c line environment_bracket = λ env. threw
  check_tagged c line task_status = λ env. threw
  check_tagged c line task_event_emit = λ env. threw
  check_tagged c line task_yield = λ env. threw
  check_tagged c line (block_statement b) = check_block c b

  pub check_block : Checks → Block → Run
  check_block c (block line is_scoping body) = check_block_with is_scoping (check_statements c body)

  pub check_statements : Checks → Statements → Run
  check_statements c no_statements = pure
  check_statements c (next s body) = λ env. check_statement c s env >>= check_statements c body

  pub check_elifs : Checks → CondFlow → Run → Flows
  check_elifs c no_conds elseflow = with_branch elseflow (λ env. pure [])
  check_elifs c (elif cond b conds) elseflow =
      check_elif c cond (check_block c b) (check_elifs c conds elseflow)

  pub check_cases : Checks → ℕ → Expression → SwitchFlow → TypeSignature → Flows
  check_cases c line sval no_cases ctype = λ env. pure []
  check_cases c line sval (switch_case lval b flows) ctype =
      check_case c line sval ctype lval (flow_length flows) (check_block c b)
        (check_cases c line sval flows ctype)

  pub check_matches : Checks → Option BinderInfo → MatchFlow → TypeSignature → MatchFlows
  check_matches c binder no_matches eetype = λ ts env. pure (some [])
  check_matches c binder (match_case mtype b flows) eetype =
      check_match_case c eetype binder mtype (block_line b) (match_length flows) (check_block c b)
        (check_matches c binder flows eetype)

unfoldable pub check_body_implementation :
    Checks → BodyImplementation → TypeEnvironment → Checked Bool
check_body_implementation c no_code env = pure true
check_body_implementation c (expression_body line exp) env = do
  etype ← asked (c.check_expression env exp (some (fields env).infer_return))
  check_error line (is_refused c.is_subtype_of etype (some (fields env).decl_return_type))
      wrong_expression_body
check_body_implementation c (standard_body line body) env = do
  env' ← check_statements c body env
  check_error line (not (is_void (fields env').decl_return_type) && (fields env').normalflow)
      no_return_in_all_paths

-- ===== src/Tests/CheckerTests.antt =====
-- Bodies that are checked, with the types of their expressions given by node.
use bosque_core.Prelude.{
  ℕ, zero, suc, String, Bool, true, false, ◌≡◌, refl, none, some, List, [], ◌∷◌,
}
use bosque_core.Types.Syntax.{TypeSignature, nominal, no_types}
use bosque_core.CheckerEnv.Syntax.{VarInfo, simple, TypeEnvironment, fields, top}
use bosque_core.CheckerEnv.Operations.{
  create_initial_std_env, create_initial_lambda_env, resolve_local_var_info_from_src_name,
  push_new_local_scope, search_locals, pop_local_scope, pop_frames, with_locals,
  assign_local_variable, reset_retypes, reset_frames, reset_frame, set_return_flow, set_dead_flow,
  add_local_var, push_last,
}
use bosque_core.CheckerEnv.Extends.{has_at}
use bosque_core.CheckerEnv.Merge.{
  BinderInfo, slice_one, merge_environments_simple, merge_frames, merge_frame, every,
  must_defined_at,
}
use bosque_core.Checker.Syntax.{
  Expression, itest_none, IfTest, statement, Tagged, variable_declaration, variable_assignment,
  return_single, if_else, abort_statement, block, Statements, no_statements, next, standard_body,
}
use bosque_core.Checker.Report.{
  TypeError, unreachable_code, no_return_in_all_paths, threw, checked, Checks, asked, check_error,
  or_throw, report_error,
}
use bosque_core.Checker.Flow.{
  Run, check_if, check_if_else, guarded, check_bool_test, check_both, check_block_with,
  check_return_single,
}
use bosque_core.Checker.Variables.{is_refused, check_variable_declaration}
use bosque_core.Checker.Assign.{check_variable_assignment}
use bosque_core.Checker.Statements.{check_block, check_statements, check_body_implementation}
use bosque_core.Checker.Paths.{paths_all, may_fall, all_define}
use bosque_core.Checker.Sound.Keeps.{normal, defined_in}
use bosque_core.Checker.Sound.Ready.{AreSupported}
use bosque_core.Checker.Sound.Bodies.{
  check_statements_lem, check_body_implementation-returns, check_body_implementation-leaves,
}
use bosque_core.Checker.Captured.{check_if-threw}

abbrev bool_type : TypeSignature
bool_type = nominal 0 none no_types

abbrev int_type : TypeSignature
int_type = nominal 1 none no_types

-- The node 0 is a Boolean, every other an integer.
abbrev type_of : ℕ → TypeSignature
type_of zero = bool_type
type_of (suc n) = int_type

abbrev checks : Checks
checks = record {
  check_expression = λ env exp infer. (type_of exp.node, []);
  check_expression_rhs = λ env exp infer. (type_of exp.node, []);
  check_type_signature = λ t. (true, []);
  process_itest_as_convert = λ line env t itest.
      (record { ttrue = some t; tspecialfubx = none; tfalse = some t; fspecialfubx = none }, []);
  check_value_eq_is_err = λ e t f s. (false, []);
  bool_type = bool_type;
  is_boolean_type = λ t. true;
  is_key_type = λ t. true;
  is_subtype_of = λ t s. true;
  are_same_types = λ t s. true;
  convert_type_signature_to_type_infer_ctx = simple;
  decompose_type = λ t. some (t ∷ []);
  refine_match_type = λ ts t. none;
  flow_type_lub = λ t ts. t;
  is_type_updatable = λ t. false;
  get_field_type = λ t name. none;
}

abbrev exp_at : ℕ → Expression
exp_at n = record { node = n; line = 1 }

abbrev test : IfTest
test = record { exp = exp_at 0; itestopt = none }

abbrev one : Statements → Tagged → Statements
one rest s = next (statement 1 s) rest

-- `if(b) { x = 1; } else { return 1; }`
abbrev assigns_or_returns : Statements
assigns_or_returns = one no_statements (
    if_else test none (block 1 true (one no_statements (variable_assignment "x" (exp_at 1))))
      (block 1 true (one no_statements (return_single (exp_at 1)))))

-- `return 1;` after it
abbrev whole : Statements
whole =
    one
      (one (one no_statements (return_single (exp_at 1))) (
        if_else test none (block 1 true (one no_statements (variable_assignment "x" (exp_at 1))))
          (block 1 true (one no_statements (return_single (exp_at 1))))))
      (variable_declaration (record { name = "x"; vtype = int_type }))

abbrev var_x : Bool → VarInfo
var_x must_defined = record {
  srcname = "x";
  decltype = int_type;
  itype = [];
  is_const = false;
  must_defined = must_defined;
  is_ref = false;
}

abbrev with_x : Bool → TypeEnvironment
with_x must_defined = top (record {
  normalflow = true;
  returnflow = false;
  args = [];
  decl_return_type = int_type;
  infer_return = simple int_type;
  locals = (var_x must_defined ∷ []) ∷ [];
})

assigns_or_returns_runs :
    check_statements checks assigns_or_returns (with_x false) ≡ checked [] (with_x true)
unfolding check_statements guarded check_if_else asked check_bool_test check_error check_both
    check_block_with push_new_local_scope check_variable_assignment
    resolve_local_var_info_from_src_name search_locals is_refused or_throw pop_local_scope
    pop_frames with_locals assign_local_variable reset_retypes reset_frames reset_frame
    check_return_single set_return_flow merge_environments_simple merge_frames merge_frame every
    must_defined_at report_error set_dead_flow
assigns_or_returns_runs = refl

whole_runs :
    check_body_implementation checks
      (standard_body 1 whole)
      (create_initial_std_env [] int_type (simple int_type))
    ≡ checked [] false
unfolding check_statements guarded check_if_else asked check_bool_test check_error check_both
    check_block_with push_new_local_scope check_variable_assignment
    resolve_local_var_info_from_src_name search_locals is_refused or_throw pop_local_scope
    pop_frames with_locals assign_local_variable reset_retypes reset_frames reset_frame
    check_return_single set_return_flow merge_environments_simple merge_frames merge_frame every
    must_defined_at report_error set_dead_flow check_body_implementation create_initial_std_env
    check_variable_declaration add_local_var push_last
whole_runs = refl

-- Without the last statement a path falls through, and with one more after it that one is not
-- reached: an error each.
partial_runs :
    check_body_implementation checks (standard_body 7 assigns_or_returns) (with_x false)
    ≡ checked (record { line = 7; msg = no_return_in_all_paths } ∷ []) true
unfolding check_statements guarded check_if_else asked check_bool_test check_error check_both
    check_block_with push_new_local_scope check_variable_assignment
    resolve_local_var_info_from_src_name search_locals is_refused or_throw pop_local_scope
    pop_frames with_locals assign_local_variable reset_retypes reset_frames reset_frame
    check_return_single set_return_flow merge_environments_simple merge_frames merge_frame every
    must_defined_at report_error set_dead_flow check_body_implementation
partial_runs = refl

unreachable_runs :
    check_statements checks
      (next
        (statement 3 abort_statement)
        (next (statement 4 (return_single (exp_at 1))) no_statements))
      (with_x true)
    ≡ checked (record { line = 4; msg = unreachable_code } ∷ []) (set_dead_flow (with_x true))
unfolding check_statements guarded check_if_else asked check_bool_test check_error check_both
    check_block_with push_new_local_scope check_variable_assignment
    resolve_local_var_info_from_src_name search_locals is_refused or_throw pop_local_scope
    pop_frames with_locals assign_local_variable reset_retypes reset_frames reset_frame
    check_return_single set_return_flow merge_environments_simple merge_frames merge_frame every
    must_defined_at report_error set_dead_flow
unreachable_runs = refl

check_statements_lem_example :
    (may_fall (paths_all assigns_or_returns) ≡ true → normal (with_x true) ≡ true)
    × ((i : ℕ) (name : String)
        → normal (with_x true) ≡ true
        → has_at (fields (with_x false)).locals i name ≡ true
        → defined_in (fields (with_x true)).locals i name ≡ true
        → all_define
            (paths_all assigns_or_returns)
            (defined_in (fields (with_x false)).locals i name)
            name
          ≡ true)
check_statements_lem_example =
    check_statements_lem checks assigns_or_returns (with_x false) (with_x true) refl
      assigns_or_returns_runs

check_body_implementation-returns_example :
    (errs : List TypeError) × (b : Bool) × (check_body_implementation checks
        (standard_body 1 whole)
        (create_initial_std_env [] int_type (simple int_type))
      ≡ checked errs b)
unfolding AreSupported
check_body_implementation-returns_example =
    check_body_implementation-returns checks [] int_type (simple int_type) 1 whole
      (tt, ((tt, (tt, tt), (tt, tt)), (tt, tt)))

check_body_implementation-leaves_example : may_fall (paths_all whole) ≡ false
check_body_implementation-leaves_example =
    check_body_implementation-leaves checks [] int_type (simple int_type) 1 whole false refl
      whole_runs

-- A lambda in the scope of `x`, and `if(x)@@ none` in it.
abbrev in_lambda : TypeEnvironment
in_lambda = create_initial_lambda_env [] int_type (simple int_type) (with_x true)

abbrev captured : BinderInfo
captured = record { srcname = "$x"; refineonfollow = true }

abbrev captured_test : IfTest
captured_test = record { exp = exp_at 0; itestopt = some (itest_none false) }

abbrev returns_one : Run
returns_one = check_block checks (block 1 true (one no_statements (return_single (exp_at 1))))

check_if-threw_example :
    (check_if checks 1 captured_test (some captured) 1 returns_one in_lambda ≡ threw)
    × (check_if_else checks 1 captured_test (some captured) 1 1 returns_one returns_one in_lambda
        ≡ threw)
unfolding create_initial_lambda_env resolve_local_var_info_from_src_name search_locals slice_one
check_if-threw_example =
    check_if-threw checks 1 captured_test (itest_none false) captured 1 1 returns_one returns_one
      in_lambda refl refl refl

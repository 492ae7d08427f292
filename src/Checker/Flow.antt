-- ===== src/Checker/Flow.antt =====
-- The statements of src/frontend/checker.ts that return or branch. A branch is passed as its run,
-- so that the recursion over the tree stands in `check_statement` alone.
use bosque_core.Prelude.{
  ℕ, String, Bool, true, false, not, ◌&&◌, Option, none, some, List, [], ◌∷◌, length, nat_eq,
  if◌then◌else◌,
}
use bosque_core.Types.Syntax.{TypeSignature, void}
use bosque_core.CheckerEnv.Syntax.{RefinedType, simple, elist_style, TypeEnvironment, fields}
use bosque_core.CheckerEnv.Operations.{
  resolve_local_var_info_from_src_name, set_return_flow, push_new_local_scope,
  push_new_local_binder_scope, pop_local_scope, reset_retypes,
}
use bosque_core.CheckerEnv.Merge.{
  BinderInfo, slice_one, merge_environments_simple, merge_environments_opt_binder_flow,
}
use bosque_core.Checker.Syntax.{Expression, ITest, IfTest}
use bosque_core.Checker.Report.{
  unreachable_code, expected_void_return, expected_return, expected_void_call,
  multiple_return_without_elist, mismatch_in_returns, requires_bool, binder_without_itest,
  never_true, never_false, expected_boolean, Checked, pure, ◌>>=◌, report_error, check_error,
  or_throw, asked, Splits, Checks,
}
use bosque_core.Checker.Variables.{is_error, or_type, is_refused, next_infer}
use bosque_core.Checker.Assign.{is_undefined, not_refinable}

abbrev pub Run : Type 0
Run = TypeEnvironment → Checked TypeEnvironment

-- The guard at the head of `checkStatement`.
unfoldable pub guarded : ℕ → Run → Run
guarded line run env = elim (fields env).normalflow [
  | true ↦ run env
  | false ↦ (do _ ← report_error line unreachable_code; pure env)
]

-- `t.tkeystr === "Void"`
abbrev pub is_void : TypeSignature → Bool
is_void void = true
is_void _ = false

-- A block whose statements run is `body`.
unfoldable pub check_block_with : Bool → Run → Run
check_block_with true body env = do
  cenv ← body (push_new_local_scope env)
  popped ← or_throw (pop_local_scope cenv)
  or_throw (reset_retypes popped env)
check_block_with false body env = do cenv ← body env; or_throw (reset_retypes cenv env)

abbrev pub refined : TypeSignature → Option String → RefinedType
refined ttype specialaccess = record { ttype = ttype; specialaccess = specialaccess }

-- What the refined variable flows out with: the type of the one branch that ends normally, and the
-- type before where both do or neither, or where that type is undefined. The flags are those of the
-- true branch and of the false one, which without an `else` is there if the test can be false.
unfoldable pub flow_type : Bool → Bool → TypeSignature → Splits → RefinedType
flow_type true true eetype splits = refined eetype none
flow_type true false eetype splits = refined (or_type splits.ttrue eetype) splits.tspecialfubx
flow_type false true eetype splits = refined (or_type splits.tfalse eetype) splits.fspecialfubx
flow_type false false eetype splits = refined eetype none

unfoldable pub check_return_void : ℕ → Run
check_return_void line env = do
  _ ← check_error line (not (is_void (fields env).decl_return_type)) expected_void_return
  pure (set_return_flow env)

-- Its guards report an error each and return.
unfoldable pub check_flow_rebinder : ℕ → BinderInfo → String → TypeEnvironment → Checked Bool
check_flow_rebinder line binfo retypevname env = elim binfo.refineonfollow [
  | false ↦ pure true
  | true ↦ elim (not_refinable retypevname (resolve_local_var_info_from_src_name env retypevname)) [
    | none ↦ pure true
    | some msg ↦ report_error line msg
  ]
]

-- A branch in the scope of the binder: `checkStatement(env.pushNewLocalBinderScope(…), block)`,
-- at the line of the block.
unfoldable pub check_bound : BinderInfo → TypeSignature → ℕ → Run → Run
check_bound binder t bline run env = do
  benv ← guarded bline run (push_new_local_binder_scope env binder.srcname t)
  or_throw (pop_local_scope benv)

unfoldable pub check_if_bound : ℕ → BinderInfo → TypeSignature → Splits → ℕ → Run → Run
check_if_bound line binder eetype splits bline run env = do
  ttrue ← check_bound binder (or_type splits.ttrue eetype) bline run env
  _ ← check_flow_rebinder line binder (slice_one binder.srcname) env
  or_throw (
      merge_environments_opt_binder_flow env binder
        (flow_type (fields ttrue).normalflow (not (is_undefined splits.tfalse)) eetype splits)
        (env
          ∷ ttrue
          ∷ push_new_local_binder_scope env binder.srcname (or_type splits.ttrue eetype)
          ∷ []))

unfoldable pub check_both : Run → Run → Run
check_both run_true run_false env = do
  ttrue ← run_true env
  tfalse ← run_false env
  or_throw (merge_environments_simple env (ttrue ∷ tfalse ∷ []))

unfoldable pub check_if_else_bound :
    ℕ → BinderInfo → TypeSignature → Splits → ℕ → ℕ → Run → Run → Run
check_if_else_bound line binder eetype splits tline fline run_true run_false env = do
  ttrue ← check_bound binder (or_type splits.ttrue eetype) tline run_true env
  tfalse ← check_bound binder (or_type splits.tfalse eetype) fline run_false env
  _ ← check_flow_rebinder line binder (slice_one binder.srcname) env
  or_throw (
      merge_environments_opt_binder_flow env binder
        (flow_type (fields ttrue).normalflow (fields tfalse).normalflow eetype splits)
        (ttrue ∷ tfalse ∷ []))

module _ (c : Checks) where
  unfoldable pub check_return_single : ℕ → Expression → Run
  check_return_single line value env = do
    rtype ← asked (c.check_expression_rhs env value (some (fields env).infer_return))
    _ ←
        check_error line (is_refused c.is_subtype_of rtype (some (fields env).decl_return_type))
          expected_return
    pure (set_return_flow env)

  unfoldable pub check_return_values :
      ℕ → TypeEnvironment → List (Option TypeSignature) → List Expression → Checked Bool
  check_return_values line env rtypes [] = pure true
  check_return_values line env rtypes (value ∷ values) =
      let rtype = (next_infer rtypes).0 in
      (do
        etype ← asked (
            c.check_expression env value (elim rtype [
              | none ↦ none
              | some t ↦ some (c.convert_type_signature_to_type_infer_ctx t)
            ]))
        _ ← check_error line (is_refused c.is_subtype_of etype rtype) expected_return
        check_return_values line env (next_infer rtypes).1 values)

  unfoldable pub check_return_multi : ℕ → List Expression → Run
  check_return_multi line values env = elim (fields env).infer_return [
    | simple t ↦ (do
      _ ← report_error line multiple_return_without_elist
      pure (set_return_flow env))
    | elist_style rtypes ↦ (do
      _ ← check_error line (not (nat_eq (length rtypes) (length values))) mismatch_in_returns
      _ ← check_return_values line env rtypes values
      pure (set_return_flow env))
  ]

  -- The test of a branch without an `ITest`.
  unfoldable pub check_bool_test : Expression → Option BinderInfo → TypeSignature → Checked Bool
  check_bool_test exp binder eetype = do
    _ ←
        check_error exp.line
          (not (c.is_boolean_type (if is_error eetype then c.bool_type else eetype))) requires_bool
    check_error exp.line (not (is_undefined binder)) binder_without_itest

  -- The splits of a branch with one.
  unfoldable pub check_itest :
      ℕ → TypeEnvironment → Expression → TypeSignature → ITest → Checked Splits
  check_itest line env exp eetype itest = do
    splits ← asked (c.process_itest_as_convert line env eetype itest)
    _ ← check_error exp.line (is_undefined splits.ttrue) never_true
    _ ← check_error exp.line (is_undefined splits.tfalse) never_false
    pure splits

  -- The line of the statement and of its block, and the run of the block.
  unfoldable pub check_if : ℕ → IfTest → Option BinderInfo → ℕ → Run → Run
  check_if line cond binder bline run env = do
    eetype ← asked (c.check_expression env cond.exp none)
    elim cond.itestopt [
      | none ↦ (do
        _ ← check_bool_test cond.exp binder eetype
        ttrue ← run env
        or_throw (merge_environments_simple env (env ∷ ttrue ∷ [])))
      | some itest ↦ (do
        splits ← check_itest line env cond.exp eetype itest
        elim binder [
          | none ↦ (do ttrue ← run env; or_throw (merge_environments_simple env (env ∷ ttrue ∷ [])))
          | some b ↦ check_if_bound line b eetype splits bline run env
        ])
    ]

  unfoldable pub check_if_else : ℕ → IfTest → Option BinderInfo → ℕ → ℕ → Run → Run → Run
  check_if_else line cond binder tline fline run_true run_false env = do
    eetype ← asked (c.check_expression env cond.exp none)
    elim cond.itestopt [
      | none ↦ (do _ ← check_bool_test cond.exp binder eetype; check_both run_true run_false env)
      | some itest ↦ (do
        splits ← check_itest line env cond.exp eetype itest
        elim binder [
          | none ↦ check_both run_true run_false env
          | some b ↦ check_if_else_bound line b eetype splits tline fline run_true run_false env
        ])
    ]

  -- `checkAssertStatement` and `checkValidateStatement`
  unfoldable pub check_condition : ℕ → Expression → Run
  check_condition line cond env = do
    etype ← asked (c.check_expression env cond none)
    if is_error etype
        then pure env
        else (do _ ← check_error line (not (c.is_boolean_type etype)) expected_boolean; pure env)

  unfoldable pub check_debug : Expression → Run
  check_debug value env = do _ ← asked (c.check_expression env value none); pure env

  unfoldable pub check_void_ref_call : ℕ → Expression → Run
  check_void_ref_call line exp env = do
    etype ← asked (c.check_expression_rhs env exp none)
    _ ← check_error line (not (is_error etype) && not (is_void etype)) expected_void_call
    pure env

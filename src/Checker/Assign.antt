-- ===== src/Checker/Assign.antt =====
-- The statements of src/frontend/checker.ts that assign, retype and update variables.
use Prim.Native.String
use bosque_core.Prelude.{
  ℕ, zero, String, Bool, true, false, not, ◌&&◌, ◌||◌, Option, none, some, List, [], ◌∷◌, ◌++◌,
  length, nat_eq, ◌==◌, if◌then◌else◌,
}
use bosque_core.Types.Syntax.{TypeSignature}
use bosque_core.CheckerEnv.Syntax.{VarInfo, simple, elist_style, TypeEnvironment}
use bosque_core.CheckerEnv.Operations.{
  resolve_local_var_info_from_src_name, resolve_local_var_info_from_src_name_with_is_param,
  assign_local_variable, retype_local_variable, push_new_local_binder_scope,
}
use bosque_core.Checker.Syntax.{Expression, ITest, Initializer, single, several}
use bosque_core.Checker.Report.{
  Message, cannot_be_assigned, elist_cannot_be_assigned, mismatch_in_number,
  wildcard_with_explicit_expressions, not_declared, not_defined, assignable_not_refined,
  reference_not_refined, const_not_assigned, retype_fails, cannot_be_updated, not_updatable,
  not_a_field, not_assignable_to_field, Checked, pure, ◌>>=◌, report_error, check_error, asked,
  Checks,
}
use bosque_core.Checker.Variables.{
  or_type, simple_infer, is_refused, next_eval, next_infer, check_each, elist_entries,
}

abbrev pub decltype_of : Option VarInfo → Option TypeSignature
decltype_of none = none
decltype_of (some v) = some v.decltype

abbrev pub is_const_of : Option VarInfo → Bool
is_const_of none = false
is_const_of (some v) = v.is_const

abbrev pub is_undefined {ℓ} : {A : Type ℓ} → Option A → Bool
is_undefined none = true
is_undefined (some a) = false

-- Why a variable cannot be refined: the guards that a retype and a rebinding share, in order.
unfoldable pub not_refinable : String → Option VarInfo → Option Message
not_refinable name none = some (not_declared name)
not_refinable name (some v) =
    if not v.must_defined
    then some (not_defined name)
    else if not v.is_const
    then some (assignable_not_refined name)
    else if v.is_ref
    then some (reference_not_refined name)
    else none

-- The loop that collects `iopts`.
unfoldable pub target_types :
    ℕ → TypeEnvironment → List String → Checked (List (Option TypeSignature))
target_types line env [] = pure []
target_types line env (name ∷ names) =
    let vinfo = resolve_local_var_info_from_src_name env name in
    (do
      _ ← check_error line (is_const_of vinfo) (const_not_assigned name)
      _ ← check_error line (is_undefined vinfo && not (name == "_")) (not_declared name)
      iopts ← target_types line env names
      pure (decltype_of vinfo ∷ iopts))

unfoldable pub assign_each :
    ℕ
    → Bool
    → (TypeSignature → TypeSignature → Bool)
    → (TypeSignature → Option TypeSignature → Message)
    → List (Option TypeSignature)
    → List String
    → List TypeSignature
    → TypeEnvironment
    → Checked TypeEnvironment
assign_each line explicit fits refused iopts [] evals env = pure env
assign_each line explicit fits refused iopts (name ∷ names) evals env = do
  _ ← check_error line (explicit && name == "_") wildcard_with_explicit_expressions
  _ ←
      check_error line (is_refused fits (next_eval evals).0 (next_infer iopts).0)
        (refused (next_eval evals).0 (next_infer iopts).0)
  assign_each line explicit fits refused (next_infer iopts).1 names (next_eval evals).1
      (if name == "_" then env else assign_local_variable env name)

-- `(!isparam && vinfo.isConst) || (isparam && !vinfo.isRef)`
abbrev pub is_locked : Bool → VarInfo → Bool
is_locked isparam v = not isparam && v.is_const || isparam && not v.is_ref

module _ (c : Checks) where
  unfoldable pub check_variable_assignment :
      ℕ → String → Expression → TypeEnvironment → Checked TypeEnvironment
  check_variable_assignment line name exp env =
      let vinfo = resolve_local_var_info_from_src_name env name in
      if is_undefined vinfo && not (name == "_")
      then (do _ ← report_error line (not_declared name); pure env)
      else (do
        _ ← check_error line (is_const_of vinfo) (const_not_assigned name)
        rhs ← asked (c.check_expression_rhs env exp (simple_infer (decltype_of vinfo)))
        _ ←
            check_error line (is_refused c.is_subtype_of rhs (decltype_of vinfo))
              (cannot_be_assigned rhs (decltype_of vinfo))
        if name == "_" then pure env else pure (assign_local_variable env name))

  unfoldable pub check_variable_multi_assignment :
      ℕ → List String → Initializer → TypeEnvironment → Checked TypeEnvironment
  check_variable_multi_assignment line names (several exps) env = do
    iopts ← target_types line env names
    evals ← check_each c (λ i. some env) zero iopts exps
    _ ← check_error line (not (nat_eq (length names) (length evals))) mismatch_in_number
    assign_each line true c.is_subtype_of cannot_be_assigned iopts names evals env
  check_variable_multi_assignment line names (single exp) env = do
    iopts ← target_types line env names
    etype ← asked (c.check_expression_rhs env exp (some (elist_style iopts)))
    evals ← elist_entries line etype
    _ ← check_error line (not (nat_eq (length names) (length evals))) mismatch_in_number
    assign_each line false c.are_same_types elist_cannot_be_assigned iopts names evals env

  unfoldable pub retype : ℕ → String → ITest → VarInfo → TypeEnvironment → Checked TypeEnvironment
  retype line name ttest vinfo env = do
    splits ← asked (c.process_itest_as_convert line env vinfo.decltype ttest)
    _ ← check_error line (is_undefined splits.ttrue) retype_fails
    pure (
        retype_local_variable env name (
          vinfo.itype
          ++ record {
            ttype = or_type splits.ttrue vinfo.decltype;
            specialaccess = splits.tspecialfubx;
          }
            ∷ []))

  unfoldable pub retype_found :
      ℕ → String → ITest → Option VarInfo → TypeEnvironment → Checked TypeEnvironment
  retype_found line name ttest none env = do _ ← report_error line (not_declared name); pure env
  retype_found line name ttest (some v) env = elim (not_refinable name (some v)) [
    | some msg ↦ (do _ ← report_error line msg; pure env)
    | none ↦ retype line name ttest v env
  ]

  unfoldable pub check_variable_retype :
      ℕ → String → ITest → TypeEnvironment → Checked TypeEnvironment
  check_variable_retype line name ttest env =
      retype_found line name ttest (resolve_local_var_info_from_src_name env name) env

  unfoldable pub check_updates :
      ℕ → TypeSignature → List (String × Expression) → TypeEnvironment → Checked Bool
  check_updates line vtype [] env = pure true
  check_updates line vtype ((fname, exp) ∷ updates) env =
      let rest = check_updates line vtype updates env in
      elim (c.get_field_type vtype fname) [
        | none ↦ (do _ ← report_error line (not_a_field fname); rest)
        | some ftype ↦ (do
          etype ← asked (
              c.check_expression (push_new_local_binder_scope env (String.◌++◌ "$" fname) ftype) exp
                (some (simple ftype)))
          _ ←
              check_error line (is_refused c.is_subtype_of etype (some ftype))
                (not_assignable_to_field fname)
          rest)
      ]

  unfoldable pub check_update :
      ℕ
      → String
      → Expression
      → List (String × Expression)
      → TypeEnvironment
      → Checked TypeEnvironment
  check_update line vname vexp updates env = do
    vtype ← asked (c.check_expression env vexp none)
    let (vinfo, isparam) = resolve_local_var_info_from_src_name_with_is_param env vname
    elim vinfo [
      | none ↦ (do _ ← report_error line (not_declared vname); pure env)
      | some v ↦
          if is_locked isparam v
          then (do _ ← report_error line (cannot_be_updated vname); pure env)
          else if not (c.is_type_updatable vtype)
          then (do _ ← report_error line (not_updatable vname); pure env)
          else (do _ ← check_updates line vtype updates env; pure env)
    ]

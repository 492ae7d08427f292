-- ===== src/Tests/CheckerEnvTests.antt =====
-- Environments at which the theorems on src/frontend/checker_environment.ts are applied.
use bosque_core.Prelude.{String, Bool, true, false, ◌≡◌, refl, none, some, List, [], ◌∷◌, any, all}
use bosque_core.Types.Syntax.{void}
use bosque_core.CheckerEnv.Syntax.{
  RefinedType, VarInfo, update_type, update_define, TypeEnvironment, top, simple, fields,
}
use bosque_core.CheckerEnv.Operations.{
  search_locals, resolve_local_var_info_from_src_name,
  resolve_local_var_info_from_src_name_with_is_param, resolve_lambda_capture_var_info_from_src_name,
  add_local_var, assign_local_variable, retype_local_variable, set_return_flow,
  push_new_local_scope, push_new_local_binder_scope, pop_local_scope, reset_retypes,
}
use bosque_core.CheckerEnv.Operations.Lookup.{
  declared, assigned, ChangesLocals, ChangesVariables, all_frames, resolve-add_local_var,
  resolve-assign_local_variable, resolve-retype_local_variable,
}
use bosque_core.CheckerEnv.Operations.Scopes.{revisited, pop_local_scope-push}
use bosque_core.CheckerEnv.Operations.Reset.{IsReset, IsResetFrames, reset_retypes_lem}
use bosque_core.CheckerEnv.Frames.{updated, UpdatesOnly, names_of, frame_names}
use bosque_core.CheckerEnv.Extends.{Extends, has_at, Extends-assign, Extends-retype}
use bosque_core.CheckerEnv.Merge.{
  must_defined_at, merge_environments_simple, normal_envs, BinderInfo, slice_one,
  merge_environments_opt_binder_flow,
}
use bosque_core.CheckerEnv.Merge.BinderFlow.{merge_environments_opt_binder_flow_lem}
use bosque_core.CheckerEnv.Merge.Join.{merged, defined_at, merge_environments_simple_lem}

abbrev var : String → Bool → VarInfo
var name must_defined = record {
  srcname = name;
  decltype = void;
  itype = [];
  is_const = false;
  must_defined = must_defined;
  is_ref = false;
}

-- A body with the argument `x` and the undefined variable `y`.
abbrev before : TypeEnvironment
before = top (record {
  normalflow = true;
  returnflow = false;
  args = var "x" true ∷ [];
  decl_return_type = void;
  infer_return = simple void;
  locals = (var "y" false ∷ []) ∷ [];
})

-- One branch assigns `y`, and the other returns.
abbrev branches : List TypeEnvironment
branches = assign_local_variable before "y" ∷ set_return_flow before ∷ []

y_is_there : has_at (fields before).locals 0 "y" ≡ true
unfolding has_at
y_is_there = refl

merge_environments_simple_lem_example :
    (merge_environments_simple before branches ≡ some (merged before branches))
    × (must_defined_at 0 "y" (merged before branches)
        ≡ some (all (defined_at 0 "y") (normal_envs branches)))
    × ((fields (merged before branches)).normalflow ≡ any (λ e. (fields e).normalflow) branches)
    × ((fields (merged before branches)).returnflow ≡ all (λ e. (fields e).returnflow) branches)
unfolding assign_local_variable set_return_flow
merge_environments_simple_lem_example =
    merge_environments_simple_lem before branches 0 "y" (Extends-assign before "y", tt) y_is_there

-- `y` is defined after the merge, since the other branch does not go on.
y_is_defined : all (defined_at 0 "y") (normal_envs branches) ≡ true
unfolding assign_local_variable set_return_flow defined_at must_defined_at
y_is_defined = refl

abbrev retyped : TypeEnvironment
retyped = retype_local_variable before "y" (record { ttype = void; specialaccess = none } ∷ [])

reset_retypes_lem_example :
    (e' : TypeEnvironment) × (reset_retypes retyped before ≡ some e')
    × IsResetFrames (fields before).locals (fields retyped).locals (fields e').locals
    × IsReset (fields before).args (resolve_local_var_info_from_src_name retyped) (fields e').args
    × (frame_names (fields e').locals ≡ frame_names (fields before).locals)
    × (names_of (fields e').args ≡ names_of (fields before).args)
    × ChangesVariables retyped e'
    × Extends before e'
reset_retypes_lem_example =
    reset_retypes_lem retyped before
      (Extends-retype before "y" (record { ttype = void; specialaccess = none } ∷ []))

resolve-add_local_var_example :
    (e' : TypeEnvironment) × (add_local_var before "z" void true true ≡ some e')
    × (resolve_local_var_info_from_src_name e' "z" ≡ some (declared "z" void true true))
    × (resolve_local_var_info_from_src_name e' "x"
        ≡ resolve_local_var_info_from_src_name before "x")
resolve-add_local_var_example =
    resolve-add_local_var before [] (var "y" false ∷ []) "z" "x" void true true refl refl refl

resolve-assign_local_variable_example :
    (resolve_local_var_info_from_src_name_with_is_param (assign_local_variable before "y") "y"
      ≡ assigned "y" (resolve_local_var_info_from_src_name_with_is_param before "y"))
    × ChangesLocals before (assign_local_variable before "y")
    × UpdatesOnly "y" update_define
        (fields before).locals
        (fields (assign_local_variable before "y")).locals
resolve-assign_local_variable_example = resolve-assign_local_variable before "y" "y"

resolve-retype_local_variable_example :
    (resolve_local_var_info_from_src_name (retype_local_variable before "x" []) "x"
      ≡ updated "x" (λ v. update_type v []) (resolve_local_var_info_from_src_name before "x"))
    × ChangesVariables before (retype_local_variable before "x" [])
    × UpdatesOnly "x"
        (λ v. update_type v [])
        (all_frames before)
        (all_frames (retype_local_variable before "x" []))
resolve-retype_local_variable_example = resolve-retype_local_variable before "x" "x" []

pop_local_scope-push_example :
    (pop_local_scope (push_new_local_scope before) ≡ some (revisited before))
    × (pop_local_scope (push_new_local_binder_scope before "$x" void) ≡ some (revisited before))
    × ((name : String)
        → resolve_lambda_capture_var_info_from_src_name (revisited before) name
          ≡ resolve_lambda_capture_var_info_from_src_name before name)
pop_local_scope-push_example = pop_local_scope-push before "$x" void

abbrev binder : BinderInfo
binder = record { srcname = "$y"; refineonfollow = true }

abbrev void_refinement : RefinedType
void_refinement = record { ttype = void; specialaccess = none }

y_is_resolved :
    resolve_local_var_info_from_src_name before (slice_one binder.srcname) ≡ some (var "y" false)
unfolding resolve_local_var_info_from_src_name search_locals slice_one
y_is_resolved = refl

merge_environments_opt_binder_flow_lem_example :
    (e : TypeEnvironment) × (merge_environments_opt_binder_flow before binder void_refinement
        branches
      ≡ some e)
    × ((name : String)
        → resolve_local_var_info_from_src_name e name
          ≡ updated
              (slice_one "$y")
              (λ v. update_type v (void_refinement ∷ []))
              (resolve_local_var_info_from_src_name (merged before branches) name))
    × (merge_environments_simple before branches ≡ some (merged before branches))
    × ChangesVariables (merged before branches) e
    × UpdatesOnly
        (slice_one "$y")
        (λ v. update_type v (void_refinement ∷ []))
        (all_frames (merged before branches))
        (all_frames e)
unfolding assign_local_variable set_return_flow
merge_environments_opt_binder_flow_lem_example =
    merge_environments_opt_binder_flow_lem before binder void_refinement branches (var "y" false)
      (Extends-assign before "y", tt) y_is_resolved refl
